-- ===== src/Api/BatchHandler/Specs.antt =====
-- What becomes of the jobs of a batch that comes through the API.
use codity_assignment.Base.{
  refl, ℕ, String, List, ◌≡◌, map, arith, ◌∷◌, pos, suc, ◌∙◌, length, [], ap, sym,
}
use codity_assignment.Exec.{map_err, ◌>>=◌, ◌>>◌, sql, World, err, ok, Result}
use codity_assignment.Api.BatchHandler.{spec_of}
use codity_assignment.Api.Site.{JobSpecBody}
use codity_assignment.Store.{Db}
use codity_assignment.Domain.Batch.{Batch}
use codity_assignment.Errors.{pg, refused}
use codity_assignment.BatchRepo.{create_batch_row, insert_batch}
use codity_assignment.Exec.Laws.{bind-ok, ok_injective}
use codity_assignment.Tables.{length-map}
use codity_assignment.BatchService
use codity_assignment.JobRepo

-- A spec names no retry strategy, which the enum type of the column refuses.
refused_spec :
    (b : JobSpecBody) (i batch queue_id now : ℕ) (d : Db)
    → JobRepo.insert_job (BatchService.batch_job i batch queue_id now (spec_of b)) d
      ≡ (err (pg refused), d)
unfolding JobRepo.insert_job JobRepo.columns_ok JobRepo.is_strategy spec_of
refused_spec b i batch queue_id now d = refl

spec_kept :
    (b : JobSpecBody) (i batch queue_id now : ℕ) (w : World Db)
    → (JobRepo.create (BatchService.batch_job i batch queue_id now (spec_of b)) w).1.db ≡ w.db
unfolding JobRepo.create map_err sql
spec_kept b i batch queue_id now w = rw (refused_spec b i batch queue_id now w.db) (ground arith)

specs_kept :
    (ids : ℕ → ℕ) (batch queue_id now n : ℕ) (bs : List JobSpecBody) (w : World Db)
    → (BatchService.insert_specs ids batch queue_id now n (map spec_of bs) w).1.db ≡ w.db
unfolding BatchService.insert_specs ◌>>=◌ ◌>>◌
specs_kept ids batch queue_id now n [] w = refl
specs_kept ids batch queue_id now n (b ∷ bs) w =
    let made = JobRepo.create (BatchService.batch_job (ids n) batch queue_id now (spec_of b)) in
    specs_kept ids batch queue_id now (suc n) bs (made w).1
    ∙ spec_kept b (ids n) batch queue_id now w

row_jobs : (b : Batch) (w : World Db) → (create_batch_row b w).1.db.jobs ≡ w.db.jobs
unfolding create_batch_row insert_batch sql
row_jobs b w = ground arith

-- Where the service answers with the batch for a body as the handler reads it, no job has been
-- inserted, although the batch counts all the jobs of the body as pending.
pub create_batch-spec_of :
    (ids : ℕ → ℕ) (queue_id now : ℕ) (name : String) (bodies : List JobSpecBody) (w : World Db)
    (made : Batch)
    → (BatchService.create_batch ids queue_id name (map spec_of bodies) now w).0 ≡ ok made
    → ((BatchService.create_batch ids queue_id name (map spec_of bodies) now w).1.db.jobs
        ≡ w.db.jobs)
      × (made.pending_count ≡ pos (length bodies))
unfolding BatchService.create_batch ◌>>◌
create_batch-spec_of ids queue_id now name bodies w made h =
    let b = BatchService.new_batch (ids 0) queue_id name (length (map spec_of bodies)) now in
    let (u, row, same, more) = bind-ok (create_batch_row b) _ w h in
    let w1 = (create_batch_row b w).1 in
    let (v, inserted, same', last) =
      bind-ok (BatchService.insert_specs ids b.id queue_id now 1 (map spec_of bodies)) _ w1 more in
    (
      ap (λ (y : Result Batch × World Db). y.1.db.jobs) (same ∙ same')
          ∙ ap (λ (d : Db). d.jobs) (specs_kept ids b.id queue_id now 1 bodies w1)
          ∙ row_jobs b w,
      ap (λ (m : Batch). m.pending_count) (sym (ok_injective b made last))
          ∙ ap pos (length-map spec_of bodies),
    )
