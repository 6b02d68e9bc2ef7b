-- ===== src/Worker/Pool/Valid.antt =====
-- The invariant of a pool: the counter, the bounds of the channel and of the counter, and what the
-- end of a worker means.
use codity_assignment.Base.{
  ◌-ℤ◌, ◌+ℤ◌, ℕ, ◌≡◌, ℤ, ap, pos, sym, Bool, ◌+◌, List, if◌then◌else◌, arith, some, ◌∷◌, length,
  true, ◌≤◌, ◌++◌, [], inl, ◌⊎◌, false, subst, refl, inr, ◌∙◌, ltb, length-append, ltb→lt,
}
use codity_assignment.Worker.Pool.{
  Pool, start, fire_receive, fire_finish, fire_exit, fire_submit, fire_begin, fire_leave,
  fire_close, moved, WorkerState, get_elem?, received, move_worker, executing, panicked, idle,
  exited, finished, blocked,
}
use codity_assignment.Domain.Job.{Job}
use codity_assignment.Worker.Pool.Totals.{
  total, busy, total-repeat_idle, total-set_elem, length-repeat, gone, length-set_elem, moved-inj,
}

-- The counter is the number of busy workers; there are `concurrency` workers, and at most so many
-- jobs in the channel; if a worker has ended, the channel is closed and empty.
abbrev pub IsValid : Pool → Type 0
IsValid p =
    (p.active ≡ pos (total busy p.workers))
    × (length p.workers ≡ p.concurrency)
    × (length p.channel ≤ p.concurrency)
    × ((total gone p.workers ≡ 0) ⊎ ((p.closed ≡ true) × (p.channel ≡ [])))

pub start-IsValid : (n : ℕ) → IsValid (start n)
unfolding start
start-IsValid n = (
  ap pos (sym (total-repeat_idle busy n refl)),
  length-repeat n idle,
  omega arith,
  inl (total-repeat_idle gone n refl),
)

one_more : (a : ℤ) (m n : ℕ) → a ≡ pos m → n ≡ m + 1 → a +ℤ pos 1 ≡ pos n
unfolding ◌+ℤ◌
one_more a m n e h = rw (e, h) (ground arith)

one_less : (a : ℤ) (m n : ℕ) → a ≡ pos m → m ≡ n + 1 → a -ℤ pos 1 ≡ pos n
unfolding ◌-ℤ◌
one_less a m n e h = rw (e, h) (ground arith)

module _ (i : ℕ) (p q : Pool) (v : IsValid p) where
  pub receive-IsValid :
      (s : WorkerState) (js : List Job)
      → get_elem? p.workers i ≡ some s
      → p.channel ≡ js
      → fire_receive i s js p ≡ moved q
      → IsValid q
  unfolding fire_receive
  receive-IsValid idle (j ∷ js) e c h =
      let b = total-set_elem busy i idle (received j) p.workers e in
      let g = total-set_elem gone i idle (received j) p.workers e in
      let l = length-set_elem i (received j) p.workers in
      let (v0, v1, v2, v3) = v in
      subst IsValid (moved-inj h) (
        v0 ∙ ap pos (omega arith),
        l ∙ v1,
        omega (arith, ap length c),
        elim v3 [ inl z ↦ inl (omega arith) | inr (_, z) ↦ absurd (cc) ],
      )
  receive-IsValid _ _ e c h = absurd (ground arith)

  pub exit-IsValid :
      (s : WorkerState) (js : List Job)
      → get_elem? p.workers i ≡ some s
      → p.channel ≡ js
      → fire_exit i s js p ≡ moved q
      → IsValid q
  unfolding fire_exit
  exit-IsValid idle [] e c h =
      let b = total-set_elem busy i idle exited p.workers e in
      let l = length-set_elem i exited p.workers in
      let (v0, v1, v2, v3) = v in
      let (shut, same) = on_closed p.closed h in
      subst IsValid same (v0 ∙ ap pos (omega arith), l ∙ v1, v2, inr (shut, c))
    where
      on_closed :
          (b : Bool)
          → (if b then moved (move_worker i exited p) else blocked) ≡ moved q
          → (b ≡ true) × (move_worker i exited p ≡ q)
      on_closed Bool.true h = (refl, moved-inj h)
      on_closed Bool.false h = absurd (cc)
  exit-IsValid _ _ e c h = absurd (ground arith)

  pub begin-IsValid :
      (s : WorkerState) → get_elem? p.workers i ≡ some s → fire_begin i s p ≡ moved q → IsValid q
  unfolding fire_begin
  begin-IsValid (received j) e h =
      let b = total-set_elem busy i (received j) (executing j) p.workers e in
      let g = total-set_elem gone i (received j) (executing j) p.workers e in
      let l = length-set_elem i (executing j) p.workers in
      let (v0, v1, v2, v3) = v in
      subst IsValid (moved-inj h) (
        one_more p.active _ _ v0 (omega arith),
        l ∙ v1,
        v2,
        elim v3 [ inl z ↦ inl (omega arith) | inr z ↦ inr z ],
      )
  begin-IsValid _ e h = absurd (ground arith)

  pub finish-IsValid :
      (s : WorkerState) → get_elem? p.workers i ≡ some s → fire_finish i s p ≡ moved q → IsValid q
  unfolding fire_finish
  finish-IsValid (executing j) e h =
      let b = total-set_elem busy i (executing j) finished p.workers e in
      let g = total-set_elem gone i (executing j) finished p.workers e in
      let l = length-set_elem i finished p.workers in
      let (v0, v1, v2, v3) = v in
      subst IsValid (moved-inj h) (
        v0 ∙ ap pos (omega arith),
        l ∙ v1,
        v2,
        elim v3 [ inl z ↦ inl (omega arith) | inr z ↦ inr z ],
      )
  finish-IsValid _ e h = absurd (ground arith)

  pub leave-IsValid :
      (s : WorkerState) → get_elem? p.workers i ≡ some s → fire_leave i s p ≡ moved q → IsValid q
  unfolding fire_leave
  leave-IsValid finished e h =
      let b = total-set_elem busy i finished idle p.workers e in
      let g = total-set_elem gone i finished idle p.workers e in
      let l = length-set_elem i idle p.workers in
      let (v0, v1, v2, v3) = v in
      subst IsValid (moved-inj h) (
        one_less p.active _ _ v0 (omega arith),
        l ∙ v1,
        v2,
        elim v3 [ inl z ↦ inl (omega arith) | inr z ↦ inr z ],
      )
  leave-IsValid _ e h = absurd (ground arith)

  pub submit-IsValid : (j : Job) → fire_submit j p ≡ moved q → IsValid q
  unfolding fire_submit
  submit-IsValid j h =
      let (v0, v1, v2, v3) = v in
      let (still_open, room, same) = on_tests p.closed (ltb (length p.channel) p.concurrency) h in
      let grown = length-append p.channel (j ∷ []) in
      let bound = ltb→lt _ _ room in
      subst IsValid same (v0, v1, omega arith, elim v3 [ inl z ↦ inl z | inr (z, _) ↦ absurd (cc) ])
    where
      on_tests :
          (b c : Bool)
          → (if b
              then panicked
              else if c
              then moved (record p { channel = p.channel ++ j ∷ [] })
              else blocked)
            ≡ moved q
          → (b ≡ false) × (c ≡ true) × (record p { channel = p.channel ++ j ∷ [] } ≡ q)
      on_tests Bool.true c h = absurd (cc)
      on_tests Bool.false Bool.true h = (refl, refl, moved-inj h)
      on_tests Bool.false Bool.false h = absurd (cc)

  pub close-IsValid : fire_close p ≡ moved q → IsValid q
  unfolding fire_close
  close-IsValid h =
      let (v0, v1, v2, v3) = v in
      let (still_open, same) = on_closed p.closed h in
      subst IsValid same (v0, v1, v2, elim v3 [ inl z ↦ inl z | inr (z, _) ↦ absurd (cc) ])
    where
      on_closed :
          (b : Bool)
          → (if b then panicked else moved (record p { closed = true })) ≡ moved q
          → (b ≡ false) × (record p { closed = true } ≡ q)
      on_closed Bool.true h = absurd (cc)
      on_closed Bool.false h = (refl, moved-inj h)
