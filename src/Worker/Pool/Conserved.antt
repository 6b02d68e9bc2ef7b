-- ===== src/Worker/Pool/Conserved.antt =====
-- No job that is submitted to a pool is lost or run twice.
use codity_assignment.Domain.Job.{Job}
use codity_assignment.Base.{Bool, ℕ, count_rows, ◌≡◌, ◌+◌, List, arith, ◌∷◌, some, [], refl}
use codity_assignment.Worker.Pool.{
  Pool, fire_leave, fire_exit, fire_submit, fire_receive, fire_close, fire_finish, fire_begin,
  WorkerState, get_elem?, moved, received, executing, exited, finished, idle, fire, submitted,
  Event, Trace, submit, next, receive, stop, begin, finish, leave, exit, close,
}
use codity_assignment.Worker.Pool.Totals.{
  total, holds, total-set_elem, moved-inj, count-append, at_worker-moved,
}

-- How many jobs that pass a test are in the channel, with a worker, or done.
abbrev pub amount : (Job → Bool) → Pool → ℕ
amount t p = count_rows t p.channel + total (holds t) p.workers + count_rows t p.executed

-- The steps of worker i keep the amount: what one place gives up another takes.
module _ (t : Job → Bool) (i : ℕ) (p q : Pool) where
  receive-amount :
      (s : WorkerState) (js : List Job)
      → get_elem? p.workers i ≡ some s
      → p.channel ≡ js
      → fire_receive i s js p ≡ moved q
      → amount t q ≡ amount t p
  unfolding fire_receive count_rows
  receive-amount idle (j ∷ js) e c h =
      let k = total-set_elem (holds t) i idle (received j) p.workers e in
      ground (arith, moved-inj h, c)
  receive-amount _ _ e c h = absurd (ground arith)

  exit-amount :
      (s : WorkerState) (js : List Job)
      → get_elem? p.workers i ≡ some s
      → fire_exit i s js p ≡ moved q
      → amount t q ≡ amount t p
  unfolding fire_exit
  exit-amount idle [] e h =
      let k = total-set_elem (holds t) i idle exited p.workers e in ground arith
  exit-amount _ _ e h = absurd (ground arith)

  begin-amount :
      (s : WorkerState)
      → get_elem? p.workers i ≡ some s
      → fire_begin i s p ≡ moved q
      → amount t q ≡ amount t p
  unfolding fire_begin
  begin-amount (received j) e h =
      let k = total-set_elem (holds t) i (received j) (executing j) p.workers e in ground arith
  begin-amount _ e h = absurd (ground arith)

  finish-amount :
      (s : WorkerState)
      → get_elem? p.workers i ≡ some s
      → fire_finish i s p ≡ moved q
      → amount t q ≡ amount t p
  unfolding fire_finish count_rows
  finish-amount (executing j) e h =
      let k = total-set_elem (holds t) i (executing j) finished p.workers e in
      let a = count-append t p.executed (j ∷ []) in ground arith
  finish-amount _ e h = absurd (ground arith)

  leave-amount :
      (s : WorkerState)
      → get_elem? p.workers i ≡ some s
      → fire_leave i s p ≡ moved q
      → amount t q ≡ amount t p
  unfolding fire_leave
  leave-amount finished e h =
      let k = total-set_elem (holds t) i finished idle p.workers e in ground arith
  leave-amount _ e h = absurd (ground arith)

  submit-amount :
      (j : Job) → fire_submit j p ≡ moved q → amount t q ≡ amount t p + count_rows t (j ∷ [])
  unfolding fire_submit count_rows
  submit-amount j h = let a = count-append t p.channel (j ∷ []) in ground arith

  close-amount : fire_close p ≡ moved q → amount t q ≡ amount t p
  unfolding fire_close
  close-amount h = ground arith

fire-amount :
    (t : Job → Bool) (e : Event) (p q : Pool)
    → fire e p ≡ moved q
    → amount t q ≡ amount t p + count_rows t (submitted (e ∷ []))
unfolding fire submitted count_rows
fire-amount t (submit j) p q h = submit-amount t 0 p q j h
fire-amount t close p q h = let k = close-amount t 0 p q h in omega arith
fire-amount t (receive i) p q h =
    let (s, e, f) = at_worker-moved i p _ h in
    let k = receive-amount t i p q s p.channel e refl f in omega arith
fire-amount t (begin i) p q h =
    let (s, e, f) = at_worker-moved i p _ h in let k = begin-amount t i p q s e f in omega arith
fire-amount t (finish i) p q h =
    let (s, e, f) = at_worker-moved i p _ h in let k = finish-amount t i p q s e f in omega arith
fire-amount t (leave i) p q h =
    let (s, e, f) = at_worker-moved i p _ h in let k = leave-amount t i p q s e f in omega arith
fire-amount t (exit i) p q h =
    let (s, e, f) = at_worker-moved i p _ h in
    let k = exit-amount t i p q s p.channel e f in omega arith

count-submitted :
    (t : Job → Bool) (e : Event) (es : List Event)
    → count_rows t (submitted (e ∷ es))
      ≡ count_rows t (submitted (e ∷ [])) + count_rows t (submitted es)
unfolding submitted count_rows
count-submitted t e es = ground arith

-- Over any run of a pool, whichever jobs a test picks: as many as were there before and were
-- submitted are in the channel, with a worker, or executed after it. No job is lost, and none is
-- executed twice.
pub amount_kept :
    (t : Job → Bool) (p : Pool) (es : List Event) (q : Pool)
    → Trace p es q
    → amount t q ≡ amount t p + count_rows t (submitted es)
unfolding submitted count_rows
amount_kept t p es q stop = omega arith
amount_kept t p es q (next {q = m} e {es = es'} h r) =
    let a = fire-amount t e p m h in
    let b = amount_kept t m es' q r in let c = count-submitted t e es' in omega arith
