-- ===== src/Worker/Pool/Reachable.antt =====
-- What holds of a pool in every state that it reaches from its start.
use codity_assignment.Base.{
  List, ◌-ℤ◌, count_rows, ℕ, ℤ, Bool, ◌≤◌, ◌<◌, ◌≡◌, arith, pos, suc, length, ◌≤ℤ◌, ◌∙◌, ◌∷◌, refl,
  [], inl, inr,
}
use codity_assignment.Worker.Pool.{
  available_workers, Pool, fire, WorkerState, start, fire_submit, Event, Trace, fire_close, moved,
  next, submitted, fire_receive, fire_exit, received, stop, submit, fire_begin, executing, idle,
  repeat, fire_finish, fire_leave, finished, exited, receive, begin, finish, leave, exit, close,
}
use codity_assignment.Domain.Job.{Job}
use codity_assignment.Worker.Pool.Totals.{
  gone, total, busy, total-le, holds, total-repeat_idle, at_worker-moved,
}
use codity_assignment.Worker.Pool.Valid.{
  IsValid, start-IsValid, submit-IsValid, close-IsValid, receive-IsValid, begin-IsValid,
  finish-IsValid, leave-IsValid, exit-IsValid,
}
use codity_assignment.Worker.Pool.Conserved.{amount_kept}

pub fire-IsValid : (e : Event) (p q : Pool) → IsValid p → fire e p ≡ moved q → IsValid q
unfolding fire
fire-IsValid (submit j) p q v h = submit-IsValid 0 p q v j h
fire-IsValid close p q v h = close-IsValid 0 p q v h
fire-IsValid (receive i) p q v h =
    let (s, e, f) = at_worker-moved i p _ h in receive-IsValid i p q v s p.channel e refl f
fire-IsValid (begin i) p q v h =
    let (s, e, f) = at_worker-moved i p _ h in begin-IsValid i p q v s e f
fire-IsValid (finish i) p q v h =
    let (s, e, f) = at_worker-moved i p _ h in finish-IsValid i p q v s e f
fire-IsValid (leave i) p q v h =
    let (s, e, f) = at_worker-moved i p _ h in leave-IsValid i p q v s e f
fire-IsValid (exit i) p q v h =
    let (s, e, f) = at_worker-moved i p _ h in exit-IsValid i p q v s p.channel e refl f

fire-concurrency : (e : Event) (p q : Pool) → fire e p ≡ moved q → q.concurrency ≡ p.concurrency
unfolding fire fire_submit fire_close fire_receive fire_exit fire_begin fire_finish fire_leave
fire-concurrency (submit j) p q h = ground arith
fire-concurrency close p q h = ground arith
fire-concurrency (receive i) p q h = let (s, e, f) = at_worker-moved i p _ h in ground arith
fire-concurrency (begin i) p q h = let (s, e, f) = at_worker-moved i p _ h in ground arith
fire-concurrency (finish i) p q h = let (s, e, f) = at_worker-moved i p _ h in ground arith
fire-concurrency (leave i) p q h = let (s, e, f) = at_worker-moved i p _ h in ground arith
fire-concurrency (exit i) p q h = let (s, e, f) = at_worker-moved i p _ h in ground arith

pub Trace-IsValid : (p : Pool) (es : List Event) (q : Pool) → IsValid p → Trace p es q → IsValid q
Trace-IsValid p es q v stop = v
Trace-IsValid p es q v (next {q = m} e {es = es'} h r) =
    Trace-IsValid m es' q (fire-IsValid e p m v h) r

pub concurrency_kept :
    (p : Pool) (es : List Event) (q : Pool) → Trace p es q → q.concurrency ≡ p.concurrency
concurrency_kept p es q stop = refl
concurrency_kept p es q (next {q = m} e {es = es'} h r) =
    concurrency_kept m es' q r ∙ fire-concurrency e p m h

busy-le : (s : WorkerState) → busy s ≤ 1
busy-le idle = omega arith
busy-le finished = omega arith
busy-le exited = omega arith
busy-le (received j) = omega arith
busy-le (executing j) = omega arith

available-bounds :
    (a : ℤ) (n m : ℕ) → a ≡ pos m → m ≤ n → (pos 0 ≤ℤ (pos n -ℤ a)) × ((pos n -ℤ a) ≤ℤ pos n)
unfolding ◌-ℤ◌
available-bounds a n m e h = rw e (ground arith)

-- In every state that a pool of n workers reaches, the number of the available workers is between
-- 0 and n, and at most n jobs are in the channel.
pub pool_bounds :
    (n : ℕ) (es : List Event) (q : Pool)
    → Trace (start n) es q
    → (pos 0 ≤ℤ available_workers q) × (available_workers q ≤ℤ pos n) × (length q.channel ≤ n)
unfolding available_workers start
pool_bounds n es q r =
    let (v0, v1, v2, v3) = Trace-IsValid (start n) es q (start-IsValid n) r in
    let c : q.concurrency ≡ n = concurrency_kept (start n) es q r in
    let b = total-le busy q.workers busy-le in
    let (low, high) = available-bounds q.active n (total busy q.workers) v0 (omega arith) in
    rw c (low, high, omega arith)

pub gone-le : (s : WorkerState) → gone s ≤ 1
gone-le idle = omega arith
gone-le finished = omega arith
gone-le exited = omega arith
gone-le (received j) = omega arith
gone-le (executing j) = omega arith

too_many : (ws : List WorkerState) → total gone ws ≡ suc (length ws) → ⊥
too_many ws h = let k = total-le gone ws gone-le in omega arith

gone-holds :
    (t : Job → Bool) (ws : List WorkerState) → total gone ws ≡ length ws → total (holds t) ws ≡ 0
gone-holds t [] h = refl
gone-holds t (exited ∷ ws) h = let k = gone-holds t ws (omega arith) in omega arith
gone-holds t (idle ∷ ws) h = absurd (too_many ws (omega arith))
gone-holds t (finished ∷ ws) h = absurd (too_many ws (omega arith))
gone-holds t (received j ∷ ws) h = absurd (too_many ws (omega arith))
gone-holds t (executing j ∷ ws) h = absurd (too_many ws (omega arith))

-- Once all the n > 0 workers of a pool have ended, which is what Stop waits for, the jobs executed
-- are those submitted: as many of each kind, whichever jobs a test picks.
pub stop-drained :
    (n : ℕ) (es : List Event) (q : Pool) (t : Job → Bool)
    → 0 < n
    → Trace (start n) es q
    → total gone q.workers ≡ n
    → count_rows t q.executed ≡ count_rows t (submitted es)
unfolding start count_rows
stop-drained n es q t some_worker r all_gone =
    let (v0, v1, v2, v3) = Trace-IsValid (start n) es q (start-IsValid n) r in
    let c : q.concurrency ≡ n = concurrency_kept (start n) es q r in
    let a = amount_kept t (start n) es q r in
    let i : total (holds t) (repeat n idle) ≡ 0 = total-repeat_idle (holds t) n refl in
    let k = gone-holds t q.workers (omega arith) in
    elim v3 [
      | inl z ↦ absurd (omega arith)
      | inr (shut, empty) ↦ let e : count_rows t q.channel ≡ 0 = rw empty refl in omega arith
    ]
