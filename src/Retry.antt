-- ===== src/Retry.antt =====
-- backend/pkg/retry/backoff.go: the delay before the next attempt of a job.
-- A `time.Duration` is an int64 count of nanoseconds: integer operations on it wrap. Floating point
-- and the random source are parameters (`scale`, `draw`, `coin`); a panic is `none`.
pub mod Bounds
pub mod Growth
pub mod Jitter
use codity_assignment.Base.{
  ℕ, ◌+◌, ◌-◌, ◌*◌, ◌≡◌, Bool, ◌&&◌, String, str_eq, Option, none, some, ℤ, pos, pos_part, neg_part,
  ◌+ℤ◌, ◌-ℤ◌, ◌*ℤ◌, ltb_ℤ, leb_ℤ, eq_ℤ, wrap64, quot, if◌then◌else◌, true,
}

pub record Policy : Type 0 where
  pub max_retries : ℤ
  pub strategy : String
  pub base_delay : ℤ
  pub max_delay : ℤ
  pub jitter : Bool

abbrev pub second : ℕ
second = 1_000_000_000

abbrev pub day : ℕ
day = 24 * 3600 * second

abbrev pub default_policy : Policy
default_policy = record {
  max_retries = pos 3;
  strategy = "exponential";
  base_delay = pos (60 * second);
  max_delay = pos day;
  jitter = true;
}

-- What one call takes from outside: `scale b n` is `time.Duration(float64(b) * math.Pow(2, n))`,
-- `draw n` the value of `rand.Int63n(n)`, and `coin` whether `rand.Intn(2)` is 0.
pub record Source : Type 0 where
  pub scale : ℤ → ℤ → ℤ
  pub draw : ℕ → ℕ
  pub coin : Bool

-- `rand.Int63n` panics where its argument is not positive.
unfoldable pub add_jitter : Source → ℤ → Option ℤ
add_jitter s delay =
    let half = quot delay 2 in
    if leb_ℤ half (pos 0)
    then none
    else some (
        if s.coin
        then wrap64 (delay +ℤ pos (s.draw (pos_part half)))
        else wrap64 (delay -ℤ pos (s.draw (pos_part half))))

unfoldable pub first_attempt : ℤ → ℤ
first_attempt attempt = if leb_ℤ attempt (pos 0) then pos 1 else attempt

-- The `switch` on the strategy.
unfoldable pub raw_delay : Source → Policy → ℤ → Option ℤ
raw_delay s p attempt =
    if str_eq p.strategy "fixed"
    then some p.base_delay
    else if str_eq p.strategy "linear"
    then some (wrap64 (p.base_delay *ℤ attempt))
    else if str_eq p.strategy "exponential"
    then (let delay = s.scale p.base_delay (attempt -ℤ pos 1) in
        if p.jitter && ltb_ℤ (pos 0) delay then add_jitter s delay else some delay)
    else some p.base_delay

abbrev pub cap_of : Policy → ℤ
cap_of p = if eq_ℤ p.max_delay (pos 0) then pos day else p.max_delay

unfoldable pub cap_delay : Policy → ℤ → ℤ
cap_delay p delay =
    let capped = if ltb_ℤ (cap_of p) delay then cap_of p else delay in
    if ltb_ℤ capped (pos 0) then p.base_delay else capped

unfoldable pub next_delay : Source → Policy → ℤ → Option ℤ
next_delay s p attempt = elim (raw_delay s p (first_attempt attempt)) [
  | none ↦ none
  | some delay ↦ some (cap_delay p delay)
]

-- An instant is a count of nanoseconds from the zero time; `now.Add(d)`.
abbrev pub add_time : ℕ → ℤ → ℕ
add_time now d = now + pos_part d - neg_part d

unfoldable pub next_run_at : Source → Policy → ℤ → ℕ → Option ℕ
next_run_at s p attempt now = elim (next_delay s p attempt) [
  | none ↦ none
  | some delay ↦ some (add_time now delay)
]
