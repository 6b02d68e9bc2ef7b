-- ===== src/Errors.antt =====
-- backend/internal/platform/errors/errors.go, and the two error tests of repository/postgres/user.go.
-- A Go `error` is one of: an error of the database driver, a plain message, a message that wraps an
-- error (`%w`), or an `AppError`, with or without a cause. `Details` is not kept.
pub mod Status
use codity_assignment.Base.{String, ℕ, Option, Bool, none, true, some, false}

pub data Code : Type 0 where
  not_found already_exists invalid_input unauthorized forbidden conflict internal timeout : Code
  rate_limited unprocessable service_unavailable : Code

-- What the driver reports: `pgx.ErrNoRows`, the two violations that the code tells apart by their
-- SQLSTATE, any other refusal of a statement, and a failure to reach the server.
pub data PgError : Type 0 where
  no_rows unique_violation foreign_key_violation refused unreachable : PgError

pub data GoError : Type 0 where
  pg : PgError → GoError
  errorf : String → GoError
  wrapf : String → GoError → GoError
  app : Code → String → GoError
  app_caused : Code → String → GoError → GoError

-- `errors.As(err, &ae)`: the first AppError of the chain.
unfoldable pub as_app : GoError → Option (Code × String)
as_app (pg e) = none
as_app (errorf m) = none
as_app (wrapf m e) = as_app e
as_app (app c m) = some (c, m)
as_app (app_caused c m e) = some (c, m)

unfoldable pub http_status : Code → ℕ
http_status not_found = 404
http_status already_exists = 409
http_status conflict = 409
http_status invalid_input = 400
http_status unprocessable = 400
http_status unauthorized = 401
http_status forbidden = 403
http_status rate_limited = 429
http_status timeout = 504
http_status service_unavailable = 503
http_status internal = 500

abbrev code_test : (Code → Bool) → GoError → Bool
code_test p e = elim (as_app e) [ none ↦ false | some (c, m) ↦ p c ]

abbrev is_not_found_code : Code → Bool
is_not_found_code not_found = true
is_not_found_code _ = false

abbrev is_conflict_code : Code → Bool
is_conflict_code conflict = true
is_conflict_code already_exists = true
is_conflict_code _ = false

abbrev is_unauthorized_code : Code → Bool
is_unauthorized_code unauthorized = true
is_unauthorized_code _ = false

unfoldable pub is_not_found : GoError → Bool
unfolding as_app
is_not_found = code_test is_not_found_code

unfoldable pub is_conflict : GoError → Bool
unfolding as_app
is_conflict = code_test is_conflict_code

unfoldable pub is_unauthorized : GoError → Bool
unfolding as_app
is_unauthorized = code_test is_unauthorized_code

-- middleware/auth.go, `RespondError`: the status and the error code of the response.
unfoldable pub respond_error : GoError → ℕ × Code
unfolding as_app http_status
respond_error e = elim (as_app e) [ none ↦ (500, internal) | some (c, m) ↦ (http_status c, c) ]

-- `errors.As(err, &pgErr)` and the SQLSTATE 23505 or 23503.
unfoldable pub is_unique_violation : GoError → Bool
is_unique_violation (pg unique_violation) = true
is_unique_violation (wrapf m e) = is_unique_violation e
is_unique_violation (app_caused c m e) = is_unique_violation e
is_unique_violation _ = false

unfoldable pub is_foreign_key_violation : GoError → Bool
is_foreign_key_violation (pg foreign_key_violation) = true
is_foreign_key_violation (wrapf m e) = is_foreign_key_violation e
is_foreign_key_violation (app_caused c m e) = is_foreign_key_violation e
is_foreign_key_violation _ = false

-- `errors.Is(err, pgx.ErrNoRows)`.
unfoldable pub is_no_rows : GoError → Bool
is_no_rows (pg no_rows) = true
is_no_rows (wrapf m e) = is_no_rows e
is_no_rows (app_caused c m e) = is_no_rows e
is_no_rows _ = false
