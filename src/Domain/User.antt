-- ===== src/Domain/User.antt =====
-- backend/internal/domain/user/user.go
use codity_assignment.Base.{ℕ, String, Bool, ltb, not, ◌&&◌}

pub record User : Type 0 where
  pub id : ℕ
  pub email : String
  pub password_hash : String
  pub full_name : String
  pub is_active : Bool
  pub created_at : ℕ
  pub updated_at : ℕ

pub record RefreshToken : Type 0 where
  pub id : ℕ
  pub user_id : ℕ
  pub token_hash : String
  pub expires_at : ℕ
  pub revoked : Bool
  pub user_agent : String
  pub ip_address : String
  pub created_at : ℕ

unfoldable pub is_expired : RefreshToken → ℕ → Bool
is_expired rt now = ltb rt.expires_at now

unfoldable pub is_valid : RefreshToken → ℕ → Bool
unfolding is_expired
is_valid rt now = not rt.revoked && not (is_expired rt now)
