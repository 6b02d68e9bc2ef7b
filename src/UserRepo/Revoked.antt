-- ===== src/UserRepo/Revoked.antt =====
-- Which refresh tokens are valid after a revocation and after the cleanup.
use codity_assignment.Base.{
  count_rows, update_rows, where_rows, ℕ, List, ◌≡◌, not, ◌≤◌, ltb, ◌&&◌, ◌∷◌, arith, [], refl,
}
use codity_assignment.UserRepo.{revoke_all_for_user, delete_expired, belongs_to, revoke}
use codity_assignment.Exec.{World, ok}
use codity_assignment.Domain.User.{is_valid, RefreshToken, is_expired}
use codity_assignment.Store.{Db}
use codity_assignment.Exec.Laws.{wrapped_sql-ok}

no_valid :
    (u now : ℕ) (ts : List RefreshToken)
    → count_rows (λ t. belongs_to u t && is_valid t now) (update_rows (belongs_to u) revoke ts) ≡ 0
unfolding count_rows update_rows is_valid
no_valid u now [] = refl
no_valid u now (t ∷ ts) = let h = no_valid u now ts in ground arith

others_kept :
    (u now : ℕ) (ts : List RefreshToken)
    → count_rows
        (λ t. not (belongs_to u t) && is_valid t now)
        (update_rows (belongs_to u) revoke ts)
      ≡ count_rows (λ t. not (belongs_to u t) && is_valid t now) ts
unfolding count_rows update_rows
others_kept u now [] = refl
others_kept u now (t ∷ ts) = let h = others_kept u now ts in ground arith

-- After all refresh tokens of a user are revoked, the user has no valid one at any time, and the
-- other users have as many valid ones as before.
pub revoke_all-valid :
    (u now : ℕ) (w : World Db)
    → (revoke_all_for_user u w).0 ≡ ok tt
    → (count_rows
          (λ t. belongs_to u t && is_valid t now)
          (revoke_all_for_user u w).1.db.refresh_tokens
        ≡ 0)
      × (count_rows
            (λ t. not (belongs_to u t) && is_valid t now)
            (revoke_all_for_user u w).1.db.refresh_tokens
          ≡ count_rows (λ t. not (belongs_to u t) && is_valid t now) w.db.refresh_tokens)
unfolding revoke_all_for_user
revoke_all-valid u now w h =
    let (r, e) =
      wrapped_sql-ok _
        (λ d.
          (ok tt, record d { refresh_tokens = update_rows (belongs_to u) revoke d.refresh_tokens }))
        w h in
    rw e (no_valid u now w.db.refresh_tokens, others_kept u now w.db.refresh_tokens)

kept_valid :
    (now later : ℕ) (ts : List RefreshToken)
    → now ≤ later
    → count_rows (λ t. is_valid t later) (where_rows (λ t. not (ltb t.expires_at now)) ts)
      ≡ count_rows (λ t. is_valid t later) ts
unfolding count_rows where_rows is_valid is_expired
kept_valid now later [] le = refl
kept_valid now later (t ∷ ts) le = let h = kept_valid now later ts le in ground arith

-- The cleanup of expired tokens takes no token that is valid then or would be later.
pub delete_expired-valid :
    (now later : ℕ) (w : World Db)
    → now ≤ later
    → (delete_expired now w).0 ≡ ok tt
    → count_rows (λ t. is_valid t later) (delete_expired now w).1.db.refresh_tokens
      ≡ count_rows (λ t. is_valid t later) w.db.refresh_tokens
unfolding delete_expired
delete_expired-valid now later w le h =
    let (r, e) =
      wrapped_sql-ok _
        (λ d. (
          ok tt,
          record d {
            refresh_tokens = where_rows (λ t. not (ltb t.expires_at now)) d.refresh_tokens;
          },
        ))
        w h in
    rw e (kept_valid now later w.db.refresh_tokens le)
