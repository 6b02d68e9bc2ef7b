-- ===== src/Worker/Pool/Stopping.antt =====
-- After the channel is closed, the workers run out, whatever the order of their steps.
use codity_assignment.Base.{
  refl, ℕ, List, ◌*◌, Bool, ◌≡◌, length, some, true, ◌+◌, false, suc, ◌∷◌, subst, arith, ap, [],
}
use codity_assignment.Worker.Pool.{
  Pool, fire_finish, fire_leave, Event, WorkerState, fire_receive, fire_begin, fire_exit, fire,
  received, get_elem?, executing, submit, idle, moved, finished, close, exited, receive,
  move_worker, begin, finish, leave, exit,
}
use codity_assignment.Domain.Job.{Job}
use codity_assignment.Worker.Pool.Totals.{total, total-set_elem, at_worker-moved, moved-inj}

-- The steps that a worker still has to make: from a receive it is four to the next receive, and one
-- more to its end.
abbrev pub left : WorkerState → ℕ
left idle = 1
left finished = 2
left exited = 0
left (received j) = 4
left (executing j) = 3

abbrev pub work : Pool → ℕ
work p = 4 * length p.channel + total left p.workers

-- A step of a goroutine of the pool, not of a caller of it.
abbrev pub of_worker : Event → Bool
of_worker (submit j) = false
of_worker close = false
of_worker _ = true

receive-work :
    (i : ℕ) (p q : Pool) (s : WorkerState) (js : List Job)
    → get_elem? p.workers i ≡ some s
    → p.channel ≡ js
    → fire_receive i s js p ≡ moved q
    → (suc (work q) ≡ work p) × (q.closed ≡ p.closed)
unfolding fire_receive
receive-work i p q idle (j ∷ js) e c h =
    let k = total-set_elem left i idle (received j) p.workers e in
    subst (λ u. (suc (work u) ≡ work p) × (u.closed ≡ p.closed)) (moved-inj h)
      (omega (arith, ap length c), refl)
receive-work i p q idle [] e c h = absurd (cc)
receive-work i p q finished js e c h = absurd (cc)
receive-work i p q exited js e c h = absurd (cc)
receive-work i p q (received j) js e c h = absurd (cc)
receive-work i p q (executing j) js e c h = absurd (cc)

exit-work :
    (i : ℕ) (p q : Pool) (s : WorkerState) (js : List Job)
    → get_elem? p.workers i ≡ some s
    → p.closed ≡ true
    → fire_exit i s js p ≡ moved q
    → (suc (work q) ≡ work p) × (q.closed ≡ p.closed)
unfolding fire_exit
exit-work i p q idle [] e c h =
    let k = total-set_elem left i idle exited p.workers e in
    let moves : moved (move_worker i exited p) ≡ moved q = ground arith in
    subst (λ u. (suc (work u) ≡ work p) × (u.closed ≡ p.closed)) (moved-inj moves)
      (omega arith, refl)
exit-work i p q idle (j ∷ js) e c h = absurd (cc)
exit-work i p q finished js e c h = absurd (cc)
exit-work i p q exited js e c h = absurd (cc)
exit-work i p q (received j) js e c h = absurd (cc)
exit-work i p q (executing j) js e c h = absurd (cc)

begin-work :
    (i : ℕ) (p q : Pool) (s : WorkerState)
    → get_elem? p.workers i ≡ some s
    → fire_begin i s p ≡ moved q
    → (suc (work q) ≡ work p) × (q.closed ≡ p.closed)
unfolding fire_begin
begin-work i p q (received j) e h =
    let k = total-set_elem left i (received j) (executing j) p.workers e in
    subst (λ u. (suc (work u) ≡ work p) × (u.closed ≡ p.closed)) (moved-inj h) (omega arith, refl)
begin-work i p q idle e h = absurd (cc)
begin-work i p q finished e h = absurd (cc)
begin-work i p q exited e h = absurd (cc)
begin-work i p q (executing j) e h = absurd (cc)

finish-work :
    (i : ℕ) (p q : Pool) (s : WorkerState)
    → get_elem? p.workers i ≡ some s
    → fire_finish i s p ≡ moved q
    → (suc (work q) ≡ work p) × (q.closed ≡ p.closed)
unfolding fire_finish
finish-work i p q (executing j) e h =
    let k = total-set_elem left i (executing j) finished p.workers e in
    subst (λ u. (suc (work u) ≡ work p) × (u.closed ≡ p.closed)) (moved-inj h) (omega arith, refl)
finish-work i p q idle e h = absurd (cc)
finish-work i p q finished e h = absurd (cc)
finish-work i p q exited e h = absurd (cc)
finish-work i p q (received j) e h = absurd (cc)

leave-work :
    (i : ℕ) (p q : Pool) (s : WorkerState)
    → get_elem? p.workers i ≡ some s
    → fire_leave i s p ≡ moved q
    → (suc (work q) ≡ work p) × (q.closed ≡ p.closed)
unfolding fire_leave
leave-work i p q finished e h =
    let k = total-set_elem left i finished idle p.workers e in
    subst (λ u. (suc (work u) ≡ work p) × (u.closed ≡ p.closed)) (moved-inj h) (omega arith, refl)
leave-work i p q idle e h = absurd (cc)
leave-work i p q exited e h = absurd (cc)
leave-work i p q (received j) e h = absurd (cc)
leave-work i p q (executing j) e h = absurd (cc)

-- A step of a worker of a closed pool takes one from the work that is left.
pub fire-work :
    (e : Event) (p q : Pool)
    → of_worker e ≡ true
    → p.closed ≡ true
    → fire e p ≡ moved q
    → (suc (work q) ≡ work p) × (q.closed ≡ p.closed)
unfolding fire
fire-work (submit j) p q o c h = absurd (cc)
fire-work close p q o c h = absurd (cc)
fire-work (receive i) p q o c h =
    let (s, e, f) = at_worker-moved i p _ h in receive-work i p q s p.channel e refl f
fire-work (begin i) p q o c h = let (s, e, f) = at_worker-moved i p _ h in begin-work i p q s e f
fire-work (finish i) p q o c h = let (s, e, f) = at_worker-moved i p _ h in finish-work i p q s e f
fire-work (leave i) p q o c h = let (s, e, f) = at_worker-moved i p _ h in leave-work i p q s e f
fire-work (exit i) p q o c h =
    let (s, e, f) = at_worker-moved i p _ h in exit-work i p q s p.channel e c f
