-- ===== src/Domain/Cron.antt =====
-- backend/internal/domain/cron/cron.go
use codity_assignment.Base.{ℕ, String, Option, ℤ, Bool}
use codity_assignment.Domain.Job.{JsonMap}

pub record CronJob : Type 0 where
  pub id : ℕ
  pub queue_id : ℕ
  pub name : String
  pub description : String
  pub cron_expr : String
  pub timezone : String
  pub job_type : String
  pub payload : JsonMap
  pub max_retries : Option ℤ
  pub retry_strategy : Option String
  pub is_active : Bool
  pub last_fired_at : Option ℕ
  pub next_fire_at : Option ℕ
  pub created_at : ℕ
  pub updated_at : ℕ
