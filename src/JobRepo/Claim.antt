-- ===== src/JobRepo/Claim.antt =====
-- `ClaimBatch` of backend/internal/repository/postgres/job.go: one transaction that counts the
-- running jobs of a queue, selects due jobs with FOR UPDATE SKIP LOCKED and marks them running.
pub mod Effect
pub mod Limit
pub mod Order
pub mod Sound
use codity_assignment.Domain.Job.{Job, ◌is◌, pending, running}
use codity_assignment.Base.{
  ℤ, ℕ, if◌then◌else◌, Bool, List, ltb_ℤ, ◌==◌, update_rows, ◌||◌, ◌&&◌, take, sort_rows, eq_ℤ, ◌∷◌,
  pos, leb, where_rows, pos_part, map, count_rows, ◌-ℤ◌, leb_ℤ, elem, [], not, some, false, true,
}
use codity_assignment.Store.{Db}
use codity_assignment.Exec.{
  Exec, pure, Result, transaction, ◌>>=◌, map_err, err, ◌>>◌, query, sql, ok,
}
use codity_assignment.Errors.{pg, wrapf, refused}

abbrev pub runs_in : ℕ → Job → Bool
runs_in q j = j.queue_id == q && j.status is running

-- The WHERE clause, and the rows that SKIP LOCKED leaves out.
abbrev pub eligible : ℕ → ℕ → (ℕ → Bool) → Job → Bool
eligible q now locked j =
    j.queue_id == q && j.status is pending && leb j.run_at now && not (locked j.id)

-- ORDER BY priority DESC, run_at ASC.
unfoldable pub claims_before : Job → Job → Bool
claims_before a b =
    ltb_ℤ b.priority a.priority || (eq_ℤ a.priority b.priority && leb a.run_at b.run_at)

unfoldable pub select_claim : ℕ → ℕ → (ℕ → Bool) → ℕ → Db → List Job
select_claim q now locked n d =
    take n (sort_rows claims_before (where_rows (eligible q now locked) d.jobs))

abbrev pub claim_row : ℕ → ℕ → Job → Job
claim_row worker now j = record j {
  status = running;
  claimed_by = some worker;
  claimed_at = some now;
  started_at = some now;
  updated_at = now;
}

-- `UPDATE jobs SET status = 'running' … WHERE id = ANY($2)`.
unfoldable pub mark_claimed : ℕ → ℕ → List ℕ → Db → Db
mark_claimed worker now ids d = record d {
  jobs = update_rows (λ j. elem j.id ids) (claim_row worker now) d.jobs;
}

-- A negative LIMIT is refused.
unfoldable pub run_claim : ℕ → ℕ → (ℕ → Bool) → ℤ → Db → Result (List Job)
run_claim q now locked size d =
    if ltb_ℤ size (pos 0)
    then err (pg refused)
    else ok (select_claim q now locked (pos_part size) d)

abbrev pub finish_claim : ℕ → ℕ → List Job → Exec Db (List Job)
finish_claim worker now [] = pure []
finish_claim worker now (j ∷ js) = do
  map_err (wrapf "update claimed jobs")
      (sql (λ d. (ok tt, mark_claimed worker now (map (λ k. k.id) (j ∷ js)) d)))
  pure (j ∷ js)

unfoldable pub claim_size : ℤ → ℤ → ℤ
claim_size available batch_size = if ltb_ℤ available batch_size then available else batch_size

-- The SELECT and the UPDATE.
unfoldable pub claim_some : ℕ → ℕ → (ℕ → Bool) → ℕ → ℤ → Exec Db (List Job)
claim_some q worker locked now size = do
  claimed ← map_err (wrapf "claim query") (query (run_claim q now locked size))
  finish_claim worker now claimed

-- What follows the count of the running jobs.
unfoldable pub claim_within : ℕ → ℕ → ℤ → (ℕ → Bool) → ℕ → ℤ → Exec Db (List Job)
unfolding claim_some
claim_within q worker batch_size locked now available =
    if leb_ℤ available (pos 0)
    then pure []
    else claim_some q worker locked now (claim_size available batch_size)

-- The statements between BEGIN and COMMIT.
unfoldable pub claim_rows : ℕ → ℕ → ℤ → ℤ → (ℕ → Bool) → ℕ → Exec Db (List Job)
unfolding claim_within
claim_rows q worker batch_size limit locked now = do
  running_count ←
      map_err (wrapf "count running jobs") (query (λ d. ok (count_rows (runs_in q) d.jobs)))
  claim_within q worker batch_size locked now (limit -ℤ pos running_count)

abbrev pub is_cons {ℓ} : {A : Type ℓ} → List A → Bool
is_cons [] = false
is_cons (x ∷ xs) = true

-- Without a job the transaction is rolled back.
unfoldable pub claim_batch : ℕ → ℕ → ℤ → ℤ → (ℕ → Bool) → ℕ → Exec Db (List Job)
unfolding claim_rows
claim_batch q worker batch_size limit locked now =
    transaction is_cons (claim_rows q worker batch_size limit locked now)
