-- ===== src/Connections/Attempts.antt =====
-- When the two loops give a connection.
use codity_assignment.Base.{
  refl, Option, ℕ, ◌≡◌, some, Bool, none, false, ◌↔◌, true, suc, ap, zero, ◌||◌, Bool-cases, inl,
  inr,
}
use codity_assignment.Errors.{GoError, wrapf}
use codity_assignment.Connections.{
  new_redis, redis_loop, postgres_loop, unless_failed, after_attempt, connect, attempt_error,
  max_attempts,
}
use codity_assignment.Exec.{Result, ok}

abbrev redis_result : Result (Option GoError) → Result (Unit {0})
redis_result = unless_failed (wrapf "connect to redis")

-- Whatever an attempt gives, a loop that has met an error fails, if it does so from there on.
after_failed :
    (e : GoError) (p c : Option GoError) (again : GoError → Result (Option GoError))
    → ((d : GoError) → ¬ (redis_result (again d) ≡ ok tt))
    → ¬ (redis_result (after_attempt p c (some e) again) ≡ ok tt)
after_failed e Option.none c again h k = cc
after_failed e (Option.some d) Option.none again h k = h d k
after_failed e (Option.some d) (Option.some b) again h k = cc

-- The loop that has met an error does not end without one.
loop_failed :
    (ping cancelled : ℕ → Option GoError) (n a : ℕ) (e : GoError)
    → ¬ (redis_result (redis_loop ping cancelled n a (some e)) ≡ ok tt)
unfolding redis_loop
loop_failed ping cancelled zero a e k = cc
loop_failed ping cancelled (suc n) a e k =
    after_failed e (ping a) (cancelled a) _ (λ d. loop_failed ping cancelled n (suc a) d) k

first_needed :
    (p c : Option GoError) (again : GoError → Result (Option GoError))
    → ((d : GoError) → ¬ (redis_result (again d) ≡ ok tt))
    → redis_result (after_attempt p c none again) ≡ ok tt
    → p ≡ none
first_needed Option.none c again h k = refl
first_needed (Option.some d) Option.none again h k = absurd (h d k)
first_needed (Option.some d) (Option.some b) again h k = absurd (cc)

-- The client of Redis is given exactly where the first ping succeeds, although the loop tries again:
-- the error of an earlier attempt is not taken back.
pub new_redis-first :
    (ping cancelled : ℕ → Option GoError) → (new_redis ping cancelled ≡ ok tt) ↔ (ping 1 ≡ none)
unfolding new_redis redis_loop
new_redis-first ping cancelled = (
  λ h. first_needed (ping 1) (cancelled 1) _ (λ d. loop_failed ping cancelled 9 2 d) h,
  λ h.
      ap
        (λ p.
          redis_result
            (after_attempt p (cancelled 1) none (λ e. redis_loop ping cancelled 9 2 (some e))))
        h,
)

abbrev succeeds : Option GoError → Bool
succeeds none = true
succeeds (some e) = false

-- Whether one of n attempts from `a` on succeeds.
abbrev pub some_succeeds : (ℕ → Option GoError) → ℕ → ℕ → Bool
some_succeeds trial zero a = false
some_succeeds trial (suc n) a = succeeds (trial a) || some_succeeds trial n (suc a)

abbrev postgres_result : Result (Option GoError) → Result (Unit {0})
postgres_result = unless_failed (wrapf "connect to postgres after 10 attempts")

answer_step :
    (p c : Option GoError) (b : Bool) (again : GoError → Result (Option GoError))
    → c ≡ none
    → (succeeds p || b) ≡ true
    → (b ≡ true → (d : GoError) → again d ≡ ok none)
    → after_attempt p c none again ≡ ok none
answer_step Option.none c b again free h k = refl
answer_step (Option.some d) c b again free h k = rw free (k h d)

loop-answer :
    (trial cancelled : ℕ → Option GoError) (n a : ℕ) (last : Option GoError)
    → ((i : ℕ) → cancelled i ≡ none)
    → some_succeeds trial n a ≡ true
    → postgres_loop trial cancelled n a last ≡ ok none
unfolding postgres_loop
loop-answer trial cancelled zero a last free h = absurd (cc)
loop-answer trial cancelled (suc n) a last free h =
    answer_step (trial a) (cancelled a) (some_succeeds trial n (suc a)) _ (free a) h
      (λ more d. loop-answer trial cancelled n (suc a) (some d) free more)

failure_step :
    (p c : Option GoError) (b : Bool) (again : GoError → Result (Option GoError))
    → (succeeds p || b) ≡ false
    → (b ≡ false → (d : GoError) → ¬ (postgres_result (again d) ≡ ok tt))
    → ¬ (postgres_result (after_attempt p c none again) ≡ ok tt)
failure_step Option.none c b again h k e = cc
failure_step (Option.some d) Option.none b again h k e = k h d e
failure_step (Option.some d) (Option.some o) b again h k e = cc

loop-failure :
    (trial cancelled : ℕ → Option GoError) (n a : ℕ) (last : GoError)
    → some_succeeds trial n a ≡ false
    → ¬ (postgres_result (postgres_loop trial cancelled n a (some last)) ≡ ok tt)
unfolding postgres_loop
loop-failure trial cancelled zero a last h k = cc
loop-failure trial cancelled (suc n) a last h k =
    failure_step (trial a) (cancelled a) (some_succeeds trial n (suc a)) _ h
      (λ none_left d. loop-failure trial cancelled n (suc a) d none_left) k

succeeds_first :
    (trial cancelled : ℕ → Option GoError)
    → postgres_result (postgres_loop trial cancelled 10 1 none) ≡ ok tt
    → some_succeeds trial 10 1 ≡ true
unfolding postgres_loop
succeeds_first trial cancelled h = elim (Bool-cases (some_succeeds trial 10 1)) [
  | inl e ↦ e
  | inr e ↦ absurd (
      failure_step (trial 1) (cancelled 1) (some_succeeds trial 9 2) _ e
        (λ none_left d. loop-failure trial cancelled 9 2 d none_left) h)
]

-- The pool of Postgres is given exactly where the configuration parses and one of the ten attempts
-- opens the pool and pings it, while the context does not end.
pub connect-some :
    (dial ping cancelled : ℕ → Option GoError) (parsed : Option GoError)
    → ((i : ℕ) → cancelled i ≡ none)
    → (connect parsed dial ping cancelled ≡ ok tt)
      ↔ ((parsed ≡ none) × (some_succeeds (attempt_error dial ping) max_attempts 1 ≡ true))
unfolding connect
connect-some dial ping cancelled Option.none free = (
  λ h. (refl, succeeds_first (attempt_error dial ping) cancelled h),
  λ (p, h). ap postgres_result (loop-answer (attempt_error dial ping) cancelled 10 1 none free h),
)
connect-some dial ping cancelled (Option.some e) free = (λ h. absurd (cc), λ (p, h). absurd (cc))
