-- ===== src/Domain/Queue.antt =====
-- backend/internal/domain/queue/queue.go
use codity_assignment.Base.{ℕ, String, ℤ, Bool, Option}
use codity_assignment.Domain.Job.{JsonMap}

pub record Queue : Type 0 where
  pub id : ℕ
  pub project_id : ℕ
  pub name : String
  pub description : String
  pub priority : ℤ
  pub concurrency : ℤ
  pub max_retries : ℤ
  pub retry_strategy : String
  pub retry_delay_sec : ℤ
  pub visibility_timeout_sec : ℤ
  pub job_timeout_sec : ℤ
  pub is_paused : Bool
  pub is_dlq : Bool
  pub dlq_queue_id : Option ℕ
  pub metadata : JsonMap
  pub created_at : ℕ
  pub updated_at : ℕ

pub record Stats : Type 0 where
  pub queue_id : ℕ
  pub pending_count : ℕ
  pub scheduled_count : ℕ
  pub running_count : ℕ
  pub succeeded_count : ℕ
  pub failed_count : ℕ
  pub dead_count : ℕ
  pub cancelled_count : ℕ
