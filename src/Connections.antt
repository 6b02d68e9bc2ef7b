-- ===== src/Connections.antt =====
-- The loops of New in backend/internal/platform/cache/cache.go and of Connect in platform/db/db.go.
-- What the servers answer to the n-th attempt is an argument, and so is whether the context ends the
-- wait after it (`cancelled n` is then its error); the waits themselves are left out.
pub mod Attempts
use codity_assignment.Base.{ℕ, Option, none, some, suc, zero}
use codity_assignment.Errors.{GoError, wrapf}
use codity_assignment.Exec.{Result, ok, err}

abbrev pub max_attempts : ℕ
max_attempts = 10

-- What a loop does after an attempt: it breaks with `found` where there is no error, ends with the
-- error of the context, or goes on with the error.
abbrev pub after_attempt :
    Option GoError
    → Option GoError
    → Option GoError
    → (GoError → Result (Option GoError))
    → Result (Option GoError)
after_attempt none c found again = ok found
after_attempt (some e) none found again = again e
after_attempt (some e) (some c) found again = err c

-- The loop of New from an attempt on, with `lastErr`; it breaks at the first ping that succeeds, and
-- gives `lastErr` as it stands behind the loop.
unfoldable pub redis_loop :
    (ℕ → Option GoError) → (ℕ → Option GoError) → ℕ → ℕ → Option GoError → Result (Option GoError)
redis_loop ping cancelled zero attempt last_err = ok last_err
redis_loop ping cancelled (suc n) attempt last_err =
    after_attempt (ping attempt) (cancelled attempt) last_err
      (λ e. redis_loop ping cancelled n (suc attempt) (some e))

abbrev pub unless_failed : (GoError → GoError) → Result (Option GoError) → Result (Unit {0})
unless_failed wrap (err e) = err e
unless_failed wrap (ok none) = ok tt
unless_failed wrap (ok (some e)) = err (wrap e)

unfoldable pub new_redis : (ℕ → Option GoError) → (ℕ → Option GoError) → Result (Unit {0})
unfolding redis_loop
new_redis ping cancelled =
    unless_failed (wrapf "connect to redis") (redis_loop ping cancelled max_attempts 1 none)

-- One attempt of Connect: the pool is opened, then pinged.
abbrev pub attempt_error : (ℕ → Option GoError) → (ℕ → Option GoError) → ℕ → Option GoError
attempt_error dial ping n = elim (dial n) [ none ↦ ping n | some e ↦ some e ]

-- The loop of Connect from an attempt on: it gives `err` as it stands behind the loop.
unfoldable pub postgres_loop :
    (ℕ → Option GoError) → (ℕ → Option GoError) → ℕ → ℕ → Option GoError → Result (Option GoError)
postgres_loop trial cancelled zero attempt last = ok last
postgres_loop trial cancelled (suc n) attempt last =
    after_attempt (trial attempt) (cancelled attempt) none
      (λ e. postgres_loop trial cancelled n (suc attempt) (some e))

unfoldable pub connect :
    Option GoError
    → (ℕ → Option GoError)
    → (ℕ → Option GoError)
    → (ℕ → Option GoError)
    → Result (Unit {0})
unfolding postgres_loop
connect (some e) dial ping cancelled = err (wrapf "parse postgres config" e)
connect none dial ping cancelled =
    unless_failed (wrapf "connect to postgres after 10 attempts")
      (postgres_loop (attempt_error dial ping) cancelled max_attempts 1 none)
