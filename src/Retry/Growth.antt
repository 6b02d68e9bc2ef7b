-- ===== src/Retry/Growth.antt =====
-- How the delay of backend/pkg/retry/backoff.go grows with the attempt, below overflow.
use codity_assignment.Base.{
  String, wrap64, ◌-ℤ◌, ℕ, ◌*ℤ◌, ◌≤◌, ◌*◌, pos, ◌^◌, suc, ◌≡◌, ◌<◌, false, arith, some, min,
  if◌then◌else◌, pow-suc, str_eq, ◌∙◌, ℤ, ap,
}
use codity_assignment.Retry.{
  raw_delay, next_delay, first_attempt, Source, Policy, cap_delay, cap_of,
}

-- What the code relies on of float64: a product by a power of two that stays below 2 ^ 53 is exact.
pub record IsExact (s : Source) : Type 0 where
  pub scale_exact : (b n : ℕ) → b * 2 ^ n < 2 ^ 53 → s.scale (pos b) (pos n) ≡ pos (b * 2 ^ n)

-- The delay that the package comment describes, for attempt n + 1.
abbrev pub ideal : String → ℕ → ℕ → ℕ
ideal strategy b n =
    if str_eq strategy "fixed"
    then b
    else if str_eq strategy "linear"
    then b * suc n
    else if str_eq strategy "exponential"
    then b * 2 ^ n
    else b

attempt_suc : (n : ℕ) → first_attempt (pos (suc n)) ≡ pos (suc n)
unfolding first_attempt
attempt_suc n = ground arith

pred_suc : (n : ℕ) → pos (suc n) -ℤ pos 1 ≡ pos n
unfolding ◌-ℤ◌
pred_suc n = ground arith

linear_exact : (b n : ℕ) → b * suc n < 2 ^ 53 → wrap64 (pos b *ℤ pos (suc n)) ≡ pos (b * suc n)
unfolding wrap64 ◌*ℤ◌
linear_exact b n h = ground arith

raw_delay-ideal :
    (s : Source) (p : Policy) (b n : ℕ)
    → IsExact s
    → p.base_delay ≡ pos b
    → p.jitter ≡ false
    → b * suc n < 2 ^ 53
    → b * 2 ^ n < 2 ^ 53
    → raw_delay s p (pos (suc n)) ≡ some (pos (ideal p.strategy b n))
unfolding raw_delay
raw_delay-ideal s p b n x e j h k =
    rw (e, j, pred_suc n, linear_exact b n h, x.scale_exact b n k) (ground arith)

next_delay-raw :
    (s : Source) (p : Policy) (attempt d : ℤ)
    → raw_delay s p (first_attempt attempt) ≡ some d
    → next_delay s p attempt ≡ some (cap_delay p d)
unfolding next_delay
next_delay-raw s p attempt d e = ground arith

cap_delay-min : (p : Policy) (c n : ℕ) → cap_of p ≡ pos c → cap_delay p (pos n) ≡ pos (min n c)
unfolding cap_delay
cap_delay-min p c n e = rw e (ground arith)

-- Without jitter, and below 2 ^ 53 nanoseconds, the delay of attempt n + 1 is the base delay
-- (fixed), n + 1 times it (linear) or 2 ^ n times it (exponential), cut at the cap.
pub next_delay-ideal :
    (s : Source) (p : Policy) (b c n : ℕ)
    → IsExact s
    → p.base_delay ≡ pos b
    → p.jitter ≡ false
    → cap_of p ≡ pos c
    → b * suc n < 2 ^ 53
    → b * 2 ^ n < 2 ^ 53
    → next_delay s p (pos (suc n)) ≡ some (pos (min (ideal p.strategy b n) c))
next_delay-ideal s p b c n x e j k h g =
    next_delay-raw s p (pos (suc n)) (pos (ideal p.strategy b n))
      (rw (attempt_suc n) (raw_delay-ideal s p b n x e j h g))
    ∙ ap some (cap_delay-min p c (ideal p.strategy b n) k)

double : (b n : ℕ) → b * 2 ^ suc n ≡ 2 * (b * 2 ^ n)
double b n = rw (pow-suc 2 n) (omega arith)

ideal_mono : (strategy : String) (b n : ℕ) → ideal strategy b n ≤ ideal strategy b (suc n)
ideal_mono strategy b n = ground (arith, double b n)

-- In the same range a later attempt never waits less.
pub next_delay_mono :
    (s : Source) (p : Policy) (b c n : ℕ)
    → IsExact s
    → p.base_delay ≡ pos b
    → p.jitter ≡ false
    → cap_of p ≡ pos c
    → b * suc (suc n) < 2 ^ 53
    → b * 2 ^ suc n < 2 ^ 53
    → (d e : ℕ) × (next_delay s p (pos (suc n)) ≡ some (pos d))
      × (next_delay s p (pos (suc (suc n))) ≡ some (pos e))
      × (d ≤ e)
next_delay_mono s p b c n x e j k h g = (
  min (ideal p.strategy b n) c,
  min (ideal p.strategy b (suc n)) c,
  next_delay-ideal s p b c n x e j k (omega arith) (omega (arith, double b n)),
  next_delay-ideal s p b c (suc n) x e j k h g,
  omega (arith, ideal_mono p.strategy b n),
)
