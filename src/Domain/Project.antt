-- ===== src/Domain/Project.antt =====
-- backend/internal/domain/project/project.go
use codity_assignment.Base.{Bool, ℕ, String, true, false}

pub data Role : Type 0 where
  admin developer viewer : Role

unfoldable pub can_manage_queues : Role → Bool
can_manage_queues admin = true
can_manage_queues developer = true
can_manage_queues viewer = false

unfoldable pub can_enqueue_jobs : Role → Bool
can_enqueue_jobs admin = true
can_enqueue_jobs developer = true
can_enqueue_jobs viewer = false

unfoldable pub can_view : Role → Bool
can_view r = true

pub record Project : Type 0 where
  pub id : ℕ
  pub org_id : ℕ
  pub name : String
  pub slug : String
  pub description : String
  pub api_key_hash : String
  pub api_key_prefix : String
  pub is_active : Bool
  pub created_at : ℕ
  pub updated_at : ℕ

-- A row of project_members.
pub record MemberRow : Type 0 where
  pub project_id : ℕ
  pub user_id : ℕ
  pub role : Role
  pub joined_at : ℕ

pub record Member : Type 0 where
  pub row : MemberRow
  pub open row use *
  pub user_email : String
  pub user_full_name : String
