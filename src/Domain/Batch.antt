-- ===== src/Domain/Batch.antt =====
-- backend/internal/domain/batch/batch.go
use codity_assignment.Base.{ℕ, String, ℤ}

pub data BatchStatus : Type 0 where
  pending running completed partial_failure : BatchStatus

pub record Batch : Type 0 where
  pub id : ℕ
  pub queue_id : ℕ
  pub name : String
  pub total_jobs : ℤ
  pub pending_count : ℤ
  pub succeeded_count : ℤ
  pub failed_count : ℤ
  pub status : BatchStatus
  pub created_at : ℕ
  pub updated_at : ℕ
