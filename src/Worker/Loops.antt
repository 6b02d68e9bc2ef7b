-- ===== src/Worker/Loops.antt =====
-- One tick of the loops of backend/internal/worker/reaper.go, scheduler.go and heartbeater.go. An
-- error is logged, so a tick does not fail; `now` is NOW().
use codity_assignment.Exec.{Exec, ◌>>◌, attempt, pure}
use codity_assignment.Base.{ℕ}
use codity_assignment.Store.{Db}
use codity_assignment.JobRepo.Updates.{reclaim_stale, promote_scheduled}
use codity_assignment.WorkerRepo.{heartbeat}

abbrev pub log_errors : {A : Type 0} → Exec Db A → Exec Db (Unit {0})
log_errors m = do attempt m; pure tt

unfoldable pub reclaim : ℕ → ℕ → Exec Db (Unit {0})
reclaim visibility_timeout now = log_errors (reclaim_stale visibility_timeout now)

unfoldable pub promote : ℕ → Exec Db (Unit {0})
promote now = log_errors (promote_scheduled now)

unfoldable pub beat : ℕ → ℕ → Exec Db (Unit {0})
beat worker now = log_errors (heartbeat worker now)
