-- ===== src/AuthService/Sessions.antt =====
-- The life of a refresh token: what a logout leaves of it.
use codity_assignment.AuthService.Tokens.{Env, hash_refresh_token}
use codity_assignment.Base.{
  String, ℕ, Option, ◌≡◌, first_row, str_eq, false, true, arith, some, none, update_rows, ap,
  Bool-cases, ◌∙◌, inl, refl, inr, suc, List, ==-refl, sym,
}
use codity_assignment.Domain.User.{is_valid, RefreshToken}
use codity_assignment.AuthService.{refresh, logout, revoke_found}
use codity_assignment.Store.{Db}
use codity_assignment.Exec.{World, map_err, query, sql, ◌>>=◌, ok, err, Result}
use codity_assignment.Errors.{app, unauthorized}
use codity_assignment.Tables.{first-update}
use codity_assignment.Exec.Laws.{wrapped_sql-ok}
use codity_assignment.UserRepo

module _ (env : Env) (raw : String) where
  -- The row that a look-up of the raw token finds.
  abbrev row_for : Db → Option RefreshToken
  row_for d = first_row (λ t. str_eq t.token_hash (hash_refresh_token env raw)) d.refresh_tokens

  refresh_unknown :
      (now signed_at : ℕ) (w : World Db)
      → row_for w.db ≡ none
      → (refresh env raw now signed_at w).0 ≡ err (app unauthorized "invalid refresh token")
  unfolding refresh UserRepo.get_by_hash map_err query sql ◌>>=◌
  refresh_unknown now signed_at w h = ground arith

  refresh_unreached :
      (now signed_at : ℕ) (w : World Db)
      → w.down w.calls ≡ true
      → (refresh env raw now signed_at w).0 ≡ err (app unauthorized "invalid refresh token")
  unfolding refresh UserRepo.get_by_hash map_err query sql ◌>>=◌
  refresh_unreached now signed_at w h = ground arith

  revoked_invalid : (now : ℕ) (rt : RefreshToken) → rt.revoked ≡ true → is_valid rt now ≡ false
  unfolding is_valid
  revoked_invalid now rt r = ground arith

  refresh_invalid :
      (now signed_at : ℕ) (w : World Db) (rt : RefreshToken)
      → row_for w.db ≡ some rt
      → is_valid rt now ≡ false
      → (m : String) × ((refresh env raw now signed_at w).0 ≡ err (app unauthorized m))
  unfolding refresh UserRepo.get_by_hash map_err query sql ◌>>=◌
  refresh_invalid now signed_at w rt h r = elim (Bool-cases (w.down w.calls)) [
    | inl down ↦ (_, refresh_unreached now signed_at w down)
    | inr up ↦ ("refresh token has expired or been revoked", rw up (rw h (rw r refl)))
  ]

  logout_unknown : (w : World Db) → row_for w.db ≡ none → (logout env raw w).1.db ≡ w.db
  unfolding logout UserRepo.get_by_hash map_err query sql ◌>>=◌
  logout_unknown w h = ground arith

  look_up :
      (w : World Db) (rt : RefreshToken)
      → row_for w.db ≡ some rt
      → w.down w.calls ≡ false
      → UserRepo.get_by_hash (hash_refresh_token env raw) w
        ≡ (ok rt, record w { calls = suc w.calls })
  unfolding UserRepo.get_by_hash map_err query sql
  look_up w rt h up = rw up (rw h refl)

  logout_known :
      (w : World Db) (rt : RefreshToken)
      → row_for w.db ≡ some rt
      → w.down w.calls ≡ false
      → (logout env raw w).0 ≡ ok tt
      → (logout env raw w).1.db.refresh_tokens
        ≡ update_rows (UserRepo.token_has_id rt.id) UserRepo.revoke w.db.refresh_tokens
  unfolding logout ◌>>=◌ UserRepo.revoke_by_id
  logout_known w rt h up done =
      let step =
        ap (λ (p : Result RefreshToken × World Db). revoke_found env p.0 p.1) (look_up w rt h up) in
      let (r, e) =
        wrapped_sql-ok _
          (λ d. (
            ok tt,
            record d {
              refresh_tokens =
                  update_rows (UserRepo.token_has_id rt.id) UserRepo.revoke d.refresh_tokens;
            },
          ))
          (record w { calls = suc w.calls })
          (sym (ap (λ (p : Result (Unit {0}) × World Db). p.0) step) ∙ done) in
      ap (λ (p : Result (Unit {0}) × World Db). p.1.db.refresh_tokens) step
      ∙ ap (λ (d : Db). d.refresh_tokens) e

  row_revoked :
      (ts : List RefreshToken) (rt : RefreshToken)
      → first_row (λ t. str_eq t.token_hash (hash_refresh_token env raw)) ts ≡ some rt
      → first_row
          (λ t. str_eq t.token_hash (hash_refresh_token env raw))
          (update_rows (UserRepo.token_has_id rt.id) UserRepo.revoke ts)
        ≡ some (UserRepo.revoke rt)
  row_revoked ts rt e =
      first-update (λ t. str_eq t.token_hash (hash_refresh_token env raw))
        (UserRepo.token_has_id rt.id) UserRepo.revoke ts (λ t. refl)
      ∙ rw e (rw (==-refl rt.id) refl)

  -- Once a logout has returned without an error, where the database answered its look-up, a refresh
  -- with the token on the tables that it has left is refused, at every time and whether or not the
  -- database answers then. No other operation lies between the two.
  pub logout-refresh :
      (now signed_at : ℕ) (w : World Db)
      → w.down w.calls ≡ false
      → (logout env raw w).0 ≡ ok tt
      → (m : String) × ((refresh env raw now signed_at (logout env raw w).1).0
          ≡ err (app unauthorized m))
  logout-refresh now signed_at w up done = by_row (row_for w.db) refl
    where
      by_row :
          (o : Option RefreshToken)
          → row_for w.db ≡ o
          → (m : String) × ((refresh env raw now signed_at (logout env raw w).1).0
              ≡ err (app unauthorized m))
      by_row Option.none e = (
        "invalid refresh token",
        refresh_unknown now signed_at (logout env raw w).1 (ap row_for (logout_unknown w e) ∙ e),
      )
      by_row (Option.some rt) e =
          refresh_invalid now signed_at (logout env raw w).1 (UserRepo.revoke rt)
            (ap (first_row (λ t. str_eq t.token_hash (hash_refresh_token env raw)))
                (logout_known w rt e up done)
              ∙ row_revoked w.db.refresh_tokens rt e)
            (revoked_invalid now (UserRepo.revoke rt) refl)
