-- ===== src/WorkerRepo.antt =====
-- backend/internal/repository/postgres/worker.go: the table of worker nodes. `now` is NOW().
use codity_assignment.Domain.Worker.{WorkerStatus, Worker}
use codity_assignment.Base.{
  ℕ, Bool, false, ◌==◌, if◌then◌else◌, true, not, update_rows, any_row, ◌++◌, ◌∷◌, [],
}
use codity_assignment.Store.{Db}
use codity_assignment.Exec.{Exec, Result, sql, ok, err}
use codity_assignment.Errors.{pg, refused}

abbrev pub worker_has_id : ℕ → Worker → Bool
worker_has_id i w = w.id == i

-- The enum type worker_status is active, draining or offline.
unfoldable pub is_worker_status : WorkerStatus → Bool
is_worker_status WorkerStatus.dead = false
is_worker_status _ = true

-- INSERT … ON CONFLICT (id) DO UPDATE.
unfoldable pub upsert_worker : Worker → ℕ → Db → Result (Unit {0}) × Db
unfolding is_worker_status
upsert_worker w now d =
    if not (is_worker_status w.status)
    then (err (pg refused), d)
    else if any_row (worker_has_id w.id) d.workers
    then (
      ok tt,
      record d {
        workers =
            update_rows (worker_has_id w.id)
              (λ o. record o { status = w.status; last_heartbeat_at = now }) d.workers;
      },
    )
    else (
      ok tt,
      record d {
        workers = d.workers ++ record w { last_heartbeat_at = now; registered_at = now } ∷ [];
      },
    )

unfoldable pub register_worker : Worker → ℕ → Exec Db (Unit {0})
unfolding upsert_worker
register_worker w now = sql (upsert_worker w now)

unfoldable pub heartbeat : ℕ → ℕ → Exec Db (Unit {0})
heartbeat i now = sql (λ d. (
  ok tt,
  record d {
    workers =
        update_rows (worker_has_id i)
          (λ o. record o { last_heartbeat_at = now; status = WorkerStatus.active }) d.workers;
  },
))
