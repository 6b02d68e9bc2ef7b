-- ===== src/Worker/Pool/Ending.antt =====
-- A pool that is closed can always go on until all its workers have ended.
use codity_assignment.Base.{
  refl, List, ℕ, ◌≡◌, true, length, ◌⊎◌, inl, arith, All, ◌∷◌, some, inr, ap, [], suc, sym, ◌+ℤ◌,
  ◌∙◌, pos, subst, ◌++◌, ◌-ℤ◌, ◌+◌, ◌≤◌, zero, ◌-◌,
}
use codity_assignment.Worker.Pool.{
  Pool, fire, fire_receive, WorkerState, fire_exit, fire_begin, Event, Trace, exit, fire_finish,
  fire_leave, get_elem?, receive, received, moved, executing, begin, finish, idle, leave, exited,
  finished, next, move_worker, stop, start,
}
use codity_assignment.Worker.Pool.Valid.{IsValid, start-IsValid}
use codity_assignment.Worker.Pool.Totals.{total, gone, total-le}
use codity_assignment.Domain.Job.{Job}
use codity_assignment.Worker.Pool.Stopping.{work, left, of_worker, fire-work}
use codity_assignment.Worker.Pool.Reachable.{gone-le, fire-IsValid, Trace-IsValid}

-- The next step of a worker that is at `s`, where the channel holds `js`.
abbrev next_event : ℕ → WorkerState → List Job → Event
next_event i idle [] = exit i
next_event i idle (j ∷ js) = receive i
next_event i (received j) js = begin i
next_event i (executing j) js = finish i
next_event i _ js = leave i

abbrev next_pool : ℕ → WorkerState → List Job → Pool → Pool
next_pool i idle [] p = move_worker i exited p
next_pool i idle (j ∷ js) p = move_worker i (received j) (record p { channel = js })
next_pool i (received j) js p =
    move_worker i (executing j) (record p { active = p.active +ℤ pos 1 })
next_pool i (executing j) js p =
    move_worker i finished (record p { executed = p.executed ++ j ∷ [] })
next_pool i _ js p = move_worker i idle (record p { active = p.active -ℤ pos 1 })

step-moves :
    (i : ℕ) (p : Pool) (s : WorkerState) (js : List Job)
    → get_elem? p.workers i ≡ some s
    → p.channel ≡ js
    → p.closed ≡ true
    → gone s ≡ 0
    → (fire (next_event i s js) p ≡ moved (next_pool i s js p))
      × (of_worker (next_event i s js) ≡ true)
unfolding fire fire_receive fire_exit fire_begin fire_finish fire_leave
step-moves i p idle [] e c shut g = (ground arith, refl)
step-moves i p idle (j ∷ js) e c shut g = (ground arith, refl)
step-moves i p finished js e c shut g = (ground arith, refl)
step-moves i p exited js e c shut g = absurd (omega arith)
step-moves i p (received j) js e c shut g = (ground arith, refl)
step-moves i p (executing j) js e c shut g = (ground arith, refl)

-- A worker that has not ended.
still_there :
    (ws : List WorkerState)
    → (total gone ws ≡ length ws)
      ⊎ ((i : ℕ) × ((s : WorkerState) × ((get_elem? ws i ≡ some s) × (gone s ≡ 0))))
still_there [] = inl refl
still_there (idle ∷ ws) = inr (0, (idle, (refl, refl)))
still_there (finished ∷ ws) = inr (0, (finished, (refl, refl)))
still_there (received j ∷ ws) = inr (0, (received j, (refl, refl)))
still_there (executing j ∷ ws) = inr (0, (executing j, (refl, refl)))
still_there (exited ∷ ws) = elim (still_there ws) [
  | inl h ↦ inl (omega arith)
  | inr (i, (s, (e, g))) ↦ inr (suc i, (s, (e, g)))
]

gone-left : (ws : List WorkerState) → total gone ws ≡ length ws → total left ws ≡ 0
gone-left [] h = refl
gone-left (exited ∷ ws) h = let k = gone-left ws (omega arith) in omega arith
gone-left (idle ∷ ws) h = let k = total-le gone ws gone-le in absurd (omega arith)
gone-left (finished ∷ ws) h = let k = total-le gone ws gone-le in absurd (omega arith)
gone-left (received j ∷ ws) h = let k = total-le gone ws gone-le in absurd (omega arith)
gone-left (executing j ∷ ws) h = let k = total-le gone ws gone-le in absurd (omega arith)

-- Where all workers of a valid pool have ended, no work is left.
ended-work : (p : Pool) → IsValid p → total gone p.workers ≡ length p.workers → work p ≡ 0
ended-work p (v0, v1, v2, v3) h =
    let l = gone-left p.workers h in
    elim v3 [
      | inl z ↦ omega arith
      | inr (shut, empty) ↦ let e : length p.channel ≡ 0 = ap length empty in omega arith
    ]

-- A pool in which the workers have gone on until all have ended, in n steps.
abbrev pub Ends : ℕ → Pool → Type 0
Ends n p =
    (es : List Event) × ((q : Pool) × (Trace p es q
        × All (λ e. of_worker e ≡ true) es
        × (total gone q.workers ≡ length q.workers)
        × (length es ≡ n)))

one_step :
    (n : ℕ) (p q : Pool) (e : Event)
    → fire e p ≡ moved q
    → of_worker e ≡ true
    → Ends n q
    → Ends (suc n) p
one_step n p q e f o (es, (v, (t, ours, all, l))) =
    (e ∷ es, (v, (next e f t, (o, ours), all, omega arith)))

-- The next step of a closed pool: all workers have ended, or one of them can move.
next_step :
    (p : Pool)
    → p.closed ≡ true
    → (total gone p.workers ≡ length p.workers)
      ⊎ ((e : Event) × ((q : Pool) × ((fire e p ≡ moved q)
              × (of_worker e ≡ true)
              × (suc (work q) ≡ work p)
              × (q.closed ≡ true))))
next_step p c = elim (still_there p.workers) [
  | inl h ↦ inl h
  | inr (i, (s, (at, g))) ↦
      let (f, o) = step-moves i p s p.channel at refl c g in
      let e = next_event i s p.channel in
      let q = next_pool i s p.channel p in
      let (less, shut) = fire-work e p q o c f in inr (e, (q, (f, o, less, shut ∙ c)))
]

all_ended :
    (n : ℕ) (p : Pool) → IsValid p → work p ≡ n → total gone p.workers ≡ length p.workers → Ends n p
all_ended n p v w h =
    subst (λ m. Ends m p) (sym (ended-work p v h) ∙ w) ([], (p, (stop, tt, h, refl)))

-- From a valid pool that is closed, the workers can go on until all have ended, in as many steps as
-- there is work left.
ends : (n : ℕ) (p : Pool) → IsValid p → p.closed ≡ true → work p ≡ n → Ends n p
ends zero p v c w = elim (next_step p c) [
  | inl h ↦ all_ended 0 p v w h
  | inr (e, (q, (f, o, less, shut))) ↦ absurd (omega (arith, less, w))
]
ends (suc n) p v c w = elim (next_step p c) [
  | inl h ↦ all_ended (suc n) p v w h
  | inr (e, (q, (f, o, less, shut))) ↦
      one_step n p q e f o (ends n q (fire-IsValid e p q v f) shut (omega (arith, less, w)))
]

spent :
    (p q : Pool) (fs : List Event)
    → IsValid p
    → p.closed ≡ true
    → Trace p fs q
    → All (λ e. of_worker e ≡ true) fs
    → (length fs + work q ≡ work p) × (q.closed ≡ true) × IsValid q
spent p q fs v c stop ours = (omega arith, c, v)
spent p q fs v c (next {q = m} e {es = es} f t) (o, ours) =
    let (less, shut) = fire-work e p m o c f in
    let (sum, shut', v') = spent m q es (fire-IsValid e p m v f) (shut ∙ c) t ours in
    (omega arith, shut', v')

-- Once the channel of a pool is closed, its workers make at most `work p` steps more, in any order
-- of their steps; and at any point of these they can go on until all have ended, which takes exactly
-- the steps that are then left. So Stop, which waits for their end, returns.
pub stop-Ends :
    (n : ℕ) (es fs : List Event) (p q : Pool)
    → Trace (start n) es p
    → p.closed ≡ true
    → Trace p fs q
    → All (λ e. of_worker e ≡ true) fs
    → (length fs ≤ work p) × Ends (work p - length fs) q
stop-Ends n es fs p q t c u ours =
    let v = Trace-IsValid (start n) es p (start-IsValid n) t in
    let (sum, shut, v') = spent p q fs v c u ours in
    (omega arith, ends (work p - length fs) q v' shut (omega arith))
