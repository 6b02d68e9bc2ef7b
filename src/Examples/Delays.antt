-- ===== src/Examples/Delays.antt =====
-- The theorems on the backoff at concrete policies.
use codity_assignment.Retry.{
  next_delay, Policy, Source, default_policy, raw_delay, cap_delay, first_attempt, second, day,
  next_run_at, add_time,
}
use codity_assignment.Retry.Jitter.{IsDraw}
use codity_assignment.Retry.Growth.{IsExact, ideal, next_delay-ideal}
use codity_assignment.Base.{
  ℕ, pos, arith, refl, pos_part, ◌≡◌, false, ◌*◌, some, min, ◌^◌, wrap64, ◌*ℤ◌, ◌-◌, true, ◌≤ℤ◌,
  String, ℤ, Option-cases, inl, ap, inr, first_row, ◌+◌, ◌<◌, ◌⊎◌, ◌≤◌,
}
use codity_assignment.Worker.Registry.{get, Handler}
use codity_assignment.Worker.Executor.Attempts.{Fails, rounds, budget, rounds_dead, RowIs}
use codity_assignment.Examples.{failing, email_job, world}
use codity_assignment.Retry.Bounds.{next_delay-none, next_delay_bounds}
use codity_assignment.Domain.Job.{Status, Job}
use codity_assignment.Worker.Executor.{policy_of}

abbrev linear_policy : Policy
linear_policy = record default_policy { strategy = "linear"; jitter = false }

abbrev exact_source : Source
exact_source = record {
  scale = λ b n. pos (pos_part b * 2 ^ pos_part n);
  draw = λ n. n - 1;
  coin = true;
}

exact_source-IsExact : IsExact exact_source
exact_source-IsExact = record { scale_exact = λ b n h. refl }

exact_source-IsDraw : IsDraw exact_source
exact_source-IsDraw = record { draw_below = λ n h. omega arith }

next_delay_bounds_example : (pos 0 ≤ℤ pos (180 * second)) × (pos (180 * second) ≤ℤ pos day)
unfolding next_delay raw_delay cap_delay first_attempt wrap64 ◌*ℤ◌
next_delay_bounds_example =
    next_delay_bounds exact_source linear_policy (pos 3) (pos (180 * second)) (omega arith)
      (omega arith) refl

next_delay-ideal_example :
    next_delay exact_source linear_policy (pos 3)
    ≡ some (pos (min (ideal "linear" (60 * second) 2) day))
next_delay-ideal_example =
    next_delay-ideal exact_source linear_policy (60 * second) day 2 exact_source-IsExact refl refl
      refl (omega arith) (omega arith)

-- A handler that always fails, where the backoff never panics.
abbrev steady : Source
steady = record { scale = λ b n. pos 60; draw = λ n. 0; coin = true }

never_panics : (p : Policy) (a : ℤ) (at : ℕ) → (t : ℕ) × (next_run_at steady p a at ≡ some t)
unfolding next_run_at
never_panics p a at = elim (Option-cases (next_delay steady p a)) [
  | inl e ↦
      let (_, _, _, _, z) = (next_delay-none steady p a).0 e in
      absurd (omega (arith, ap pos_part z))
  | inr (d, e) ↦ (add_time at d, cc)
]

found :
    (t : String)
    → t ≡ "email"
    → (h : Handler) × (get t failing ≡ some h) × ((z : ℤ) (j : Job) → h z j ≡ some "refused")
unfolding get
found t e = rw e (λ z j. some "refused", refl, λ z j. refl)

always : Fails failing steady "email" "refused"
always = record {
  fails = λ j e. let (h, f, r) = found j.job_type e in (h, f, r _ j);
  delays = λ j a at. never_panics (policy_of j) a at;
}

rounds_dead_example : RowIs 10 (rounds failing steady 50 (λ n. 300) (λ n. 301) 10 5 world) (λ k.
    (k.attempt_count ≡ min (0 + 5) (budget email_job))
    × (((k.status ≡ Status.pending) × (0 + 5 < budget email_job))
        ⊎ ((k.status ≡ Status.dead) × (budget email_job ≤ 0 + 5))))
unfolding first_row
rounds_dead_example =
    rounds_dead failing steady 50 "email" "refused" always (λ n. 300) (λ n. 301) 10 5 world
      email_job (λ c. refl) refl refl refl (omega arith)
