-- ===== src/Domain/Org.antt =====
-- backend/internal/domain/org/org.go
use codity_assignment.Base.{Bool, ℕ, String, true, false}

pub data Role : Type 0 where
  owner admin member : Role

unfoldable pub can_manage_members : Role → Bool
can_manage_members owner = true
can_manage_members admin = true
can_manage_members member = false

unfoldable pub can_delete_org : Role → Bool
can_delete_org owner = true
can_delete_org _ = false

pub record Organization : Type 0 where
  pub id : ℕ
  pub name : String
  pub slug : String
  pub description : String
  pub created_at : ℕ
  pub updated_at : ℕ

-- A row of org_members; the user's email and name are joined in by the queries.
pub record MemberRow : Type 0 where
  pub org_id : ℕ
  pub user_id : ℕ
  pub role : Role
  pub joined_at : ℕ

pub record Member : Type 0 where
  pub row : MemberRow
  pub open row use *
  pub user_email : String
  pub user_full_name : String
