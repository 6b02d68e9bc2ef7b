-- ===== src/Retry/Jitter.antt =====
-- The jitter of backend/pkg/retry/backoff.go: the random part is drawn below half of the delay.
use codity_assignment.Retry.{Source, add_jitter}
use codity_assignment.Base.{
  ℕ, ◌≤◌, ◌<◌, ◌^◌, ◌/◌, pos, ◌≡◌, ◌-◌, some, ◌+◌, ◌*◌, ◌⊎◌, if◌then◌else◌, quot, wrap64, ◌+ℤ◌,
  ◌-ℤ◌, arith,
}

-- What the code relies on of `rand.Int63n`: the value is below its argument.
pub record IsDraw (s : Source) : Type 0 where
  pub draw_below : (n : ℕ) → 0 < n → s.draw n < n

abbrev moved : Source → ℕ → ℕ
moved s n = if s.coin then n + s.draw (n / 2) else n - s.draw (n / 2)

-- A delay of at least two nanoseconds (and below 2 ^ 62) is moved by less than half of itself, so
-- it stays positive.
pub add_jitter_range :
    (s : Source) (n : ℕ)
    → IsDraw s
    → 1 < n
    → n < 2 ^ 62
    → (m : ℕ) × (add_jitter s (pos n) ≡ some (pos m)) × (n < 2 * m) × (2 * m < 3 * n)
unfolding add_jitter quot wrap64 ◌+ℤ◌ ◌-ℤ◌
add_jitter_range s n d h k =
    let r : s.draw (n / 2) < n / 2 = d.draw_below (n / 2) (omega arith) in
    (moved s n, ground arith, ground arith, ground arith)

-- The bound of a quarter that the comment and the test name does not hold: from eight nanoseconds
-- on, the largest draw that `rand.Int63n` may return passes it.
pub add_jitter_wide :
    (s : Source) (n : ℕ)
    → 8 ≤ n
    → n < 2 ^ 62
    → s.draw (n / 2) ≡ n / 2 - 1
    → (m : ℕ) × (add_jitter s (pos n) ≡ some (pos m)) × ((n + n / 4 < m) ⊎ (m + n / 4 < n))
unfolding add_jitter quot wrap64 ◌+ℤ◌ ◌-ℤ◌
add_jitter_wide s n h k e = (moved s n, ground arith, ground arith)
