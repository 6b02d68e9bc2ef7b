-- ===== src/UserRepo.antt =====
-- backend/internal/repository/postgres/user.go: the tables of users and of refresh tokens. `lower`
-- is the function of the database on texts.
pub mod Revoked
use codity_assignment.Errors.{
  GoError, is_unique_violation, wrapf, app, already_exists, not_found, pg, unique_violation,
  foreign_key_violation,
}
use codity_assignment.Domain.User.{User, RefreshToken}
use codity_assignment.Base.{
  String, ℕ, if◌then◌else◌, Bool, true, ◌==◌, not, any_row, ◌||◌, str_eq, update_rows, where_rows,
  ◌&&◌, first_row, ltb, ◌++◌, ◌∷◌, [],
}
use codity_assignment.Exec.{
  Exec, Result, ◌>>=◌, map_err, missing, sql, query, ok, raise, or_no_rows, err, pure,
}
use codity_assignment.Store.{Db}

abbrev pub user_has_id : ℕ → User → Bool
user_has_id i u = u.id == i

unfoldable pub insert_user : User → Db → Result (Unit {0}) × Db
insert_user u d =
    if any_row (user_has_id u.id) d.users || any_row (λ (o : User). str_eq o.email u.email) d.users
    then (err (pg unique_violation), d)
    else (ok tt, record d { users = d.users ++ u ∷ [] })

-- A unique violation becomes AlreadyExists, any other error is wrapped.
abbrev email_taken : GoError → GoError
email_taken e =
    if is_unique_violation e
    then app already_exists "email already exists"
    else wrapf "create user" e

unfoldable pub create : User → Exec Db (Unit {0})
unfolding insert_user
create u = map_err email_taken (sql (insert_user u))

unfoldable pub get_by_id : ℕ → Exec Db User
get_by_id i =
    map_err (missing "user not found" "get user by id")
      (query (λ d. or_no_rows (first_row (user_has_id i) d.users)))

unfoldable pub get_by_email : (String → String) → String → Exec Db User
get_by_email lower email =
    map_err (missing "user not found" "get user by email")
      (query (λ d. or_no_rows (first_row (λ u. str_eq u.email (lower email)) d.users)))

-- The columns that UPDATE sets.
abbrev user_written : User → User → User
user_written u r = record r {
  email = u.email;
  full_name = u.full_name;
  is_active = u.is_active;
  updated_at = u.updated_at;
}

unfoldable pub update_user : User → Db → Result ℕ × Db
update_user u d =
    if not (any_row (user_has_id u.id) d.users)
    then (ok 0, d)
    else if any_row (λ (o : User). not (o.id == u.id) && str_eq o.email u.email) d.users
    then (err (pg unique_violation), d)
    else (ok 1, record d { users = update_rows (user_has_id u.id) (user_written u) d.users })

unfoldable pub update : User → Exec Db (Unit {0})
unfolding update_user
update u = do
  count ← map_err (wrapf "update user") (sql (update_user u))
  if count == 0 then raise (app not_found "user not found") else pure tt

abbrev pub token_has_id : ℕ → RefreshToken → Bool
token_has_id i t = t.id == i

unfoldable pub insert_token : RefreshToken → Db → Result (Unit {0}) × Db
insert_token t d =
    if any_row (token_has_id t.id) d.refresh_tokens
      || any_row (λ (o : RefreshToken). str_eq o.token_hash t.token_hash) d.refresh_tokens
    then (err (pg unique_violation), d)
    else if not (any_row (user_has_id t.user_id) d.users)
    then (err (pg foreign_key_violation), d)
    else (ok tt, record d { refresh_tokens = d.refresh_tokens ++ t ∷ [] })

unfoldable pub create_token : RefreshToken → Exec Db (Unit {0})
unfolding insert_token
create_token t = map_err (wrapf "create refresh token") (sql (insert_token t))

unfoldable pub get_by_hash : String → Exec Db RefreshToken
get_by_hash h =
    map_err (missing "refresh token not found" "get refresh token")
      (query (λ d. or_no_rows (first_row (λ t. str_eq t.token_hash h) d.refresh_tokens)))

abbrev pub revoke : RefreshToken → RefreshToken
revoke t = record t { revoked = true }

unfoldable pub revoke_by_id : ℕ → Exec Db (Unit {0})
revoke_by_id i = map_err (wrapf "revoke refresh token") (
    sql (λ d.
      (ok tt, record d { refresh_tokens = update_rows (token_has_id i) revoke d.refresh_tokens })))

abbrev pub belongs_to : ℕ → RefreshToken → Bool
belongs_to u t = t.user_id == u

unfoldable pub revoke_all_for_user : ℕ → Exec Db (Unit {0})
revoke_all_for_user u = map_err (wrapf "revoke all user tokens") (
    sql (λ d.
      (ok tt, record d { refresh_tokens = update_rows (belongs_to u) revoke d.refresh_tokens })))

unfoldable pub delete_expired : ℕ → Exec Db (Unit {0})
delete_expired now = map_err (wrapf "delete expired tokens") (
    sql (λ d. (
      ok tt,
      record d { refresh_tokens = where_rows (λ t. not (ltb t.expires_at now)) d.refresh_tokens },
    )))
