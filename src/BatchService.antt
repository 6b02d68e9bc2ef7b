-- ===== src/BatchService.antt =====
-- backend/internal/service/batch/batch.go. `ids` are the values of `uuid.New()`: ids 0 for the batch,
-- then one for each job.
use codity_assignment.Base.{ℕ, List, String, some, pos, if◌then◌else◌, length, ◌==◌, ◌∷◌, suc, []}
use codity_assignment.Domain.Job.{Job, Status}
use codity_assignment.Exec.{Exec, pure, ◌>>◌, attempt}
use codity_assignment.Domain.Batch.{Batch, BatchStatus}
use codity_assignment.Store.{Db}
use codity_assignment.BatchRepo.{create_batch_row}
use codity_assignment.JobRepo

-- A job of the batch; `RunAt.IsZero()` is the instant 0.
abbrev pub batch_job : ℕ → ℕ → ℕ → ℕ → Job → Job
batch_job i batch queue_id now j = record j {
  id = i;
  queue_id = queue_id;
  batch_id = some batch;
  status = Status.pending;
  created_at = now;
  updated_at = now;
  run_at = if j.run_at == 0 then now else j.run_at;
}

-- The loop: an error of an insertion is logged only.
unfoldable pub insert_specs : (ℕ → ℕ) → ℕ → ℕ → ℕ → ℕ → List Job → Exec Db (Unit {0})
insert_specs ids batch queue_id now n [] = pure tt
insert_specs ids batch queue_id now n (j ∷ js) = do
  attempt (JobRepo.create (batch_job (ids n) batch queue_id now j))
  insert_specs ids batch queue_id now (suc n) js

abbrev pub new_batch : ℕ → ℕ → String → ℕ → ℕ → Batch
new_batch i queue_id name size now = record {
  id = i;
  queue_id = queue_id;
  name = name;
  total_jobs = pos size;
  pending_count = pos size;
  succeeded_count = pos 0;
  failed_count = pos 0;
  status = BatchStatus.pending;
  created_at = now;
  updated_at = now;
}

unfoldable pub create_batch : (ℕ → ℕ) → ℕ → String → List Job → ℕ → Exec Db Batch
unfolding insert_specs
create_batch ids queue_id name specs now = do
  let b = new_batch (ids 0) queue_id name (length specs) now
  create_batch_row b
  insert_specs ids b.id queue_id now 1 specs
  pure b
