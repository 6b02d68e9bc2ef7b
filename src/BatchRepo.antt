-- ===== src/BatchRepo.antt =====
-- backend/internal/repository/postgres/batch.go: the table of batches. `at` is the clock of the node.
pub mod Counters
use codity_assignment.Errors.{
  GoError, is_no_rows, errorf, pg, unique_violation, foreign_key_violation,
}
use codity_assignment.Base.{
  ℕ, ℤ, if◌then◌else◌, Bool, ◌+ℤ◌, ◌==◌, ◌-ℤ◌, eq_ℤ, any_row, ◌&&◌, update_rows, pos, first_row,
  ltb_ℤ, not, ◌++◌, ◌∷◌, [],
}
use codity_assignment.Domain.Batch.{Batch, BatchStatus}
use codity_assignment.Exec.{Exec, Result, sql, map_err, query, ok, or_no_rows, err}
use codity_assignment.Store.{Db}
use codity_assignment.Domain.Queue.{Queue}

abbrev pub batch_has_id : ℕ → Batch → Bool
batch_has_id i b = b.id == i

unfoldable pub insert_batch : Batch → Db → Result (Unit {0}) × Db
insert_batch b d =
    if any_row (batch_has_id b.id) d.batches
    then (err (pg unique_violation), d)
    else if not (any_row (λ (q : Queue). q.id == b.queue_id) d.queues)
    then (err (pg foreign_key_violation), d)
    else (ok tt, record d { batches = d.batches ++ b ∷ [] })

unfoldable pub create_batch_row : Batch → Exec Db (Unit {0})
unfolding insert_batch
create_batch_row b = sql (insert_batch b)

abbrev batch_missing : GoError → GoError
batch_missing e = if is_no_rows e then errorf "batch not found" else e

unfoldable pub get_batch : ℕ → Exec Db Batch
get_batch i = map_err batch_missing (query (λ d. or_no_rows (first_row (batch_has_id i) d.batches)))

-- The CASE of the status, on the counters before the update.
unfoldable pub next_status : ℤ → ℤ → Batch → BatchStatus
next_status succeeded failed b =
    let all_done = eq_ℤ (b.succeeded_count +ℤ succeeded +ℤ b.failed_count +ℤ failed) b.total_jobs in
    let failures = b.failed_count +ℤ failed in
    if all_done && eq_ℤ failures (pos 0)
    then BatchStatus.completed
    else if all_done && ltb_ℤ (pos 0) failures
    then BatchStatus.partial_failure
    else BatchStatus.running

abbrev pub counted : ℤ → ℤ → ℕ → Batch → Batch
counted succeeded failed at b = record b {
  succeeded_count = b.succeeded_count +ℤ succeeded;
  failed_count = b.failed_count +ℤ failed;
  pending_count = b.pending_count -ℤ (succeeded +ℤ failed);
  status = next_status succeeded failed b;
  updated_at = at;
}

unfoldable pub increment_counters : ℕ → ℤ → ℤ → ℕ → Exec Db (Unit {0})
unfolding next_status
increment_counters i succeeded failed at = sql (λ d. (
  ok tt,
  record d { batches = update_rows (batch_has_id i) (counted succeeded failed at) d.batches },
))
