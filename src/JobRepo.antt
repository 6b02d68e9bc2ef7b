-- ===== src/JobRepo.antt =====
-- backend/internal/repository/postgres/job.go: each method is one statement or one transaction on
-- the table of jobs. `now` is what NOW() gives; `locked` are the rows that other transactions hold.
pub mod Updates
pub mod Claim
use codity_assignment.Base.{
  Option, ℤ, String, ℕ, none, if◌then◌else◌, Bool, List, leb, str_eq, ◌&&◌, some, not, any_row,
  ◌==◌, leb_ℤ, true, ltb_ℤ, false, ◌||◌, pos, first_row, take, count_rows, pos_part, drop, ◌++◌,
  sort_rows, ◌∷◌, [], where_rows,
}
use codity_assignment.Domain.Job.{Job, ListFilter, ◌is◌}
use codity_assignment.Errors.{
  GoError, is_no_rows, app, pg, wrapf, not_found, no_rows, refused, unique_violation,
  foreign_key_violation,
}
use codity_assignment.Exec.{
  Exec, Result, err, map_err, ◌>>=◌, query, ok, sql, pure, missing, or_no_rows,
}
use codity_assignment.Store.{Db}

-- The enum type `retry_strategy` of the migration.
unfoldable pub is_strategy : String → Bool
is_strategy s = str_eq s "fixed" || str_eq s "linear" || str_eq s "exponential"

abbrev pub has_id : ℕ → Job → Bool
has_id i j = j.id == i

abbrev pub same_key : Option String → Option String → Bool
same_key (some a) (some b) = str_eq a b
same_key _ _ = false

unfoldable pub key_taken : Option String → List Job → Bool
key_taken k = any_row (λ j. same_key k j.idempotency_key)

-- A foreign key that is NULL, or the id of a row of the table it refers to.
abbrev pub refers {ℓ} : {A : Type ℓ} → (A → ℕ) → Option ℕ → List A → Bool
refers f none xs = true
refers f (some i) xs = any_row (λ x. f x == i) xs

unfoldable pub references_ok : Job → Db → Bool
references_ok j d =
    refers (λ q. q.id) (some j.queue_id) d.queues
    && refers (λ b. b.id) j.batch_id d.batches
    && refers (λ k. k.id) j.parent_job_id d.jobs
    && refers (λ c. c.id) j.cron_job_id d.crons

-- A nil slice is written as NULL.
abbrev not_null {ℓ} : {A : Type ℓ} → Option A → Bool
not_null none = false
not_null (some a) = true

-- The columns that are NOT NULL, the enum type, and the CHECK of the migration.
unfoldable pub columns_ok : Job → Bool
unfolding is_strategy
columns_ok j =
    not_null j.tags
    && is_strategy j.retry_strategy
    && leb_ℤ (pos 1) j.priority
    && leb_ℤ j.priority (pos 10)

-- The columns that the INSERT does not name are NULL.
abbrev pub new_row : Job → Job
new_row j = record j {
  last_error = none;
  last_error_at = none;
  claimed_by = none;
  claimed_at = none;
  started_at = none;
  completed_at = none;
}

-- INSERT INTO jobs … ON CONFLICT (idempotency_key) WHERE idempotency_key IS NOT NULL DO NOTHING.
unfoldable pub insert_job : Job → Db → Result (Unit {0}) × Db
unfolding columns_ok key_taken references_ok
insert_job j d =
    if not (columns_ok j)
    then (err (pg refused), d)
    else if key_taken j.idempotency_key d.jobs
    then (ok tt, d)
    else if any_row (has_id j.id) d.jobs
    then (err (pg unique_violation), d)
    else if not (references_ok j d)
    then (err (pg foreign_key_violation), d)
    else (ok tt, record d { jobs = d.jobs ++ new_row j ∷ [] })

unfoldable pub create : Job → Exec Db (Unit {0})
unfolding insert_job
create j = map_err (wrapf "create job") (sql (insert_job j))

unfoldable pub get_by_id : ℕ → Exec Db Job
get_by_id i =
    map_err (missing "job not found" "get job by id")
      (query (λ d. or_no_rows (first_row (has_id i) d.jobs)))

unfoldable pub get_by_idempotency_key : String → Exec Db Job
get_by_idempotency_key key =
    map_err (missing "job not found" "get job by idempotency key")
      (query (λ d. or_no_rows (first_row (λ j. same_key (some key) j.idempotency_key) d.jobs)))

-- `List`: the WHERE clause, the limit and the page.
unfoldable pub matches : ℕ → ListFilter → Job → Bool
matches q f j =
    j.queue_id == q
    && elim f.status [ none ↦ true | some s ↦ j.status is s ]
    && elim f.job_type [ none ↦ true | some t ↦ str_eq j.job_type t ]

unfoldable pub page_limit : ℤ → ℤ
page_limit limit = if leb_ℤ limit (pos 0) || ltb_ℤ (pos 200) limit then pos 50 else limit

abbrev newest_first : Job → Job → Bool
newest_first a b = leb b.created_at a.created_at

-- A negative OFFSET is refused.
unfoldable pub page_of : ℕ → ListFilter → Db → Result (List Job)
unfolding matches page_limit
page_of q f d =
    if ltb_ℤ f.offset (pos 0)
    then err (pg refused)
    else ok (
        take (pos_part (page_limit f.limit))
          (drop (pos_part f.offset) (sort_rows newest_first (where_rows (matches q f) d.jobs))))

unfoldable pub list_jobs : ℕ → ListFilter → Exec Db (List Job × ℕ)
unfolding page_of
list_jobs q f = do
  total ← map_err (wrapf "count jobs") (query (λ d. ok (count_rows (matches q f) d.jobs)))
  jobs ← map_err (wrapf "list jobs") (query (page_of q f))
  pure (jobs, total)
