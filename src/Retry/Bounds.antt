-- ===== src/Retry/Bounds.antt =====
-- Bounds on the delay of backend/pkg/retry/backoff.go, and the one input on which it panics.
use codity_assignment.Retry.{
  cap_delay, next_delay, Policy, raw_delay, Source, add_jitter, cap_of, first_attempt,
}
use codity_assignment.Base.{
  ℤ, quot, pos, ◌≤ℤ◌, arith, ◌≡◌, some, Option-cases, none, inl, ◌↔◌, inr, str_eq, false, true,
  ◌-ℤ◌,
}

cap_delay_bounds :
    (p : Policy) (delay : ℤ)
    → pos 0 ≤ℤ p.base_delay
    → p.base_delay ≤ℤ cap_of p
    → (pos 0 ≤ℤ cap_delay p delay) × (cap_delay p delay ≤ℤ cap_of p)
unfolding cap_delay
cap_delay_bounds p delay h k = ground arith

-- Whatever the strategy, the attempt, the random draws and any overflow, a policy whose base delay
-- lies between 0 and its cap gives delays between 0 and that cap.
pub next_delay_bounds :
    (s : Source) (p : Policy) (attempt d : ℤ)
    → pos 0 ≤ℤ p.base_delay
    → p.base_delay ≤ℤ cap_of p
    → next_delay s p attempt ≡ some d
    → (pos 0 ≤ℤ d) × (d ≤ℤ cap_of p)
unfolding next_delay
next_delay_bounds s p attempt d h k e =
    elim (Option-cases (raw_delay s p (first_attempt attempt))) [
      | inl q ↦ absurd (cc)
      | inr (x, q) ↦ ground (arith, cap_delay_bounds p x h k)
    ]

-- The computation panics in exactly one case: the strategy is exponential, with jitter, and the
-- scaled delay is one nanosecond.
pub next_delay-none :
    (s : Source) (p : Policy) (attempt : ℤ)
    → (next_delay s p attempt ≡ none) ↔ (
        (str_eq p.strategy "fixed" ≡ false)
        × (str_eq p.strategy "linear" ≡ false)
        × (str_eq p.strategy "exponential" ≡ true)
        × (p.jitter ≡ true)
        × (s.scale p.base_delay (first_attempt attempt -ℤ pos 1) ≡ pos 1))
unfolding next_delay raw_delay add_jitter quot
next_delay-none s p attempt = (λ h. ground arith, λ h. ground arith)
