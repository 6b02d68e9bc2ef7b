-- ===== src/Domain/Worker.antt =====
-- backend/internal/domain/worker/worker.go
use codity_assignment.Base.{ℕ, String, ℤ, List}

pub data WorkerStatus : Type 0 where
  active draining dead : WorkerStatus

pub record Worker : Type 0 where
  pub id : ℕ
  pub hostname : String
  pub pid : ℕ
  pub version : String
  pub status : WorkerStatus
  pub concurrency : ℤ
  pub queues : List String
  pub last_heartbeat_at : ℕ
  pub registered_at : ℕ
