-- ===== src/Metrics.antt =====
-- backend/internal/repository/postgres/metrics.go, with the structs of domain/metrics/metrics.go: the
-- snapshots of the queues beside the other tables, and the counts of the whole system. A DELETE of a
-- queue, which takes its snapshots with it, is not carried over to them.
use codity_assignment.Domain.Job.{Status, ◌is◌}
use codity_assignment.Exec.{Exec, Result, sql, ◌>>=◌, query, ok, err, pure}
use codity_assignment.Store.{Db}
use codity_assignment.Base.{
  Bool, ℕ, List, count_rows, if◌then◌else◌, ◌==◌, ℤ, true, ◌&&◌, any_row, false, ◌||◌, length,
  sort_rows, leb, where_rows, not, ◌++◌, ◌∷◌, [],
}
use codity_assignment.Domain.Worker.{Worker, WorkerStatus}
use codity_assignment.Errors.{pg, unique_violation, foreign_key_violation}
use codity_assignment.QueueRepo.{queue_has_id}

pub record Snapshot : Type 0 where
  pub id : ℕ
  pub queue_id : ℕ
  pub window_start : ℕ
  pub window_end : ℕ
  pub jobs_enqueued : ℤ
  pub jobs_succeeded : ℤ
  pub jobs_failed : ℤ
  pub jobs_dead : ℤ
  pub avg_wait_ms : ℤ
  pub avg_duration_ms : ℤ

pub record SystemMetrics : Type 0 where
  pub active_workers : ℕ
  pub draining_workers : ℕ
  pub total_queues : ℕ
  pub total_jobs_pending : ℕ
  pub total_jobs_running : ℕ

pub record MetricsDb : Type 0 where
  pub base : Db
  pub snapshots : List Snapshot

-- UNIQUE (queue_id, window_start).
abbrev same_window : Snapshot → Snapshot → Bool
same_window a b = b.queue_id == a.queue_id && b.window_start == a.window_start

unfoldable pub insert_snapshot : Snapshot → MetricsDb → Result (Unit {0}) × MetricsDb
insert_snapshot m d =
    if any_row (λ (o : Snapshot). o.id == m.id) d.snapshots || any_row (same_window m) d.snapshots
    then (err (pg unique_violation), d)
    else if not (any_row (queue_has_id m.queue_id) d.base.queues)
    then (err (pg foreign_key_violation), d)
    else (ok tt, record d { snapshots = d.snapshots ++ m ∷ [] })

unfoldable pub save_snapshot : Snapshot → Exec MetricsDb (Unit {0})
unfolding insert_snapshot
save_snapshot m = sql (insert_snapshot m)

unfoldable pub get_snapshots : ℕ → ℕ → Exec MetricsDb (List Snapshot)
get_snapshots queue_id since = query (λ d. ok (
    sort_rows (λ a b. leb a.window_start b.window_start)
      (where_rows (λ (m : Snapshot). m.queue_id == queue_id && leb since m.window_end)
        d.snapshots)))

abbrev is_active : Worker → Bool
is_active w = elim w.status [
  | WorkerStatus.active ↦ true
  | WorkerStatus.draining ↦ false
  | WorkerStatus.dead ↦ false
]

abbrev is_draining : Worker → Bool
is_draining w = elim w.status [
  | WorkerStatus.active ↦ false
  | WorkerStatus.draining ↦ true
  | WorkerStatus.dead ↦ false
]

abbrev jobs_in : Status → Db → ℕ
jobs_in s d = count_rows (λ j. j.status is s) d.jobs

abbrev count_workers : MetricsDb → Result (ℕ × ℕ)
count_workers d = ok (count_rows is_active d.base.workers, count_rows is_draining d.base.workers)

abbrev count_jobs : MetricsDb → Result (ℕ × ℕ)
count_jobs d = ok (jobs_in Status.pending d.base, jobs_in Status.running d.base)

-- Three queries, one after the other.
unfoldable pub get_system_metrics : Exec MetricsDb SystemMetrics
get_system_metrics = do
  workers ← query count_workers
  queues ← query (λ d. ok (length d.base.queues))
  jobs ← query count_jobs
  pure (record {
    active_workers = workers.0;
    draining_workers = workers.1;
    total_queues = queues;
    total_jobs_pending = jobs.0;
    total_jobs_running = jobs.1;
  })
