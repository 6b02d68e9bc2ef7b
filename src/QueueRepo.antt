-- ===== src/QueueRepo.antt =====
-- backend/internal/repository/postgres/queue.go: the table of queues.
pub mod Laws
use codity_assignment.Domain.Project.{Project}
use codity_assignment.Base.{
  ℕ, String, Bool, List, none, if◌then◌else◌, any_row, ◌==◌, some, ltb_ℤ, update_rows, map,
  count_rows, ◌&&◌, ◌||◌, not, first_row, where_rows, eq_ℤ, leb_ℤ, str_eq, pos, sort_rows, ◌++◌,
  ◌∷◌, [],
}
use codity_assignment.Domain.Queue.{Queue, Stats}
use codity_assignment.Domain.Job.{
  Status, pending, scheduled, ◌is◌, running, succeeded, failed, dead, cancelled,
}
use codity_assignment.Store.{Db}
use codity_assignment.Errors.{
  GoError, is_unique_violation, wrapf, app, not_found, already_exists, pg, refused,
  unique_violation, foreign_key_violation,
}
use codity_assignment.Exec.{
  Exec, map_err, Result, sql, missing, query, err, ok, or_no_rows, ◌>>=◌, raise, pure,
}
use codity_assignment.JobRepo.{is_strategy, refers}

abbrev pub queue_has_id : ℕ → Queue → Bool
queue_has_id i q = q.id == i

-- The CHECK constraints and the enum type of the columns.
unfoldable pub queue_columns_ok : Queue → Bool
queue_columns_ok q =
    is_strategy q.retry_strategy
    && leb_ℤ (pos 1) q.priority
    && leb_ℤ q.priority (pos 10)
    && ltb_ℤ (pos 0) q.concurrency
    && leb_ℤ (pos 0) q.max_retries
    && ltb_ℤ (pos 0) q.retry_delay_sec
    && ltb_ℤ (pos 0) q.visibility_timeout_sec
    && ltb_ℤ (pos 0) q.job_timeout_sec

-- UNIQUE (project_id, name).
abbrev pub same_name : Queue → Queue → Bool
same_name a b = a.project_id == b.project_id && str_eq a.name b.name

unfoldable pub insert_queue : Queue → Db → Result (Unit {0}) × Db
unfolding queue_columns_ok
insert_queue q d =
    if not (queue_columns_ok q)
    then (err (pg refused), d)
    else if any_row (queue_has_id q.id) d.queues || any_row (same_name q) d.queues
    then (err (pg unique_violation), d)
    else if not (
        any_row (λ (p : Project). p.id == q.project_id) d.projects
        && refers (λ (r : Queue). r.id) q.dlq_queue_id d.queues)
    then (err (pg foreign_key_violation), d)
    else (ok tt, record d { queues = d.queues ++ q ∷ [] })

-- A unique violation becomes AlreadyExists, any other error is wrapped.
abbrev pub taken : String → String → GoError → GoError
taken what context e = if is_unique_violation e then app already_exists what else wrapf context e

unfoldable pub create : Queue → Exec Db (Unit {0})
unfolding insert_queue
create q = map_err (taken "queue name already exists" "create queue") (sql (insert_queue q))

unfoldable pub get_by_id : ℕ → Exec Db Queue
get_by_id i =
    map_err (missing "queue not found" "get queue by id")
      (query (λ d. or_no_rows (first_row (queue_has_id i) d.queues)))

unfoldable pub get_by_name : ℕ → String → Exec Db Queue
get_by_name p name =
    map_err (missing "queue not found" "get queue by name")
      (query (λ d. or_no_rows (first_row (λ q. q.project_id == p && str_eq q.name name) d.queues)))

-- ORDER BY priority, name: `before` is the collation of the database on names.
unfoldable pub queue_before : (String → String → Bool) → Queue → Queue → Bool
queue_before before a b =
    ltb_ℤ a.priority b.priority || (eq_ℤ a.priority b.priority && before a.name b.name)

unfoldable pub list_by_project_id : (String → String → Bool) → ℕ → Exec Db (List Queue)
unfolding queue_before
list_by_project_id before p = map_err (wrapf "list queues") (
    query
      (λ d. ok (sort_rows (queue_before before) (where_rows (λ q. q.project_id == p) d.queues))))

unfoldable pub list_active_prioritized : (String → String → Bool) → Exec Db (List Queue)
unfolding queue_before
list_active_prioritized before =
    map_err (wrapf "list active queues") (
      query
        (λ d. ok (sort_rows (queue_before before) (where_rows (λ q. not q.is_paused) d.queues))))

abbrev change_queue : (Queue → Bool) → (Queue → Queue) → Db → Db
change_queue p f d = record d { queues = update_rows p f d.queues }

-- The columns that UPDATE sets: not the project, the pause flag or the DLQ flag.
abbrev written : Queue → Queue → Queue
written q r = record q {
  id = r.id;
  project_id = r.project_id;
  is_paused = r.is_paused;
  is_dlq = r.is_dlq;
  created_at = r.created_at;
}

-- Another queue of the project that has the new name.
abbrev name_clash : Queue → Queue → List Queue → Bool
name_clash q r rows = any_row (λ o. not (o.id == r.id) && same_name (written q r) o) rows

-- The number of rows is the result.
unfoldable pub update_queue : Queue → Db → Result ℕ × Db
unfolding queue_columns_ok
update_queue q d = elim (first_row (queue_has_id q.id) d.queues) [
  | none ↦ (ok 0, d)
  | some r ↦
      if not (queue_columns_ok q)
      then (err (pg refused), d)
      else if name_clash q r d.queues
      then (err (pg unique_violation), d)
      else if not (refers (λ (o : Queue). o.id) q.dlq_queue_id d.queues)
      then (err (pg foreign_key_violation), d)
      else (ok 1, change_queue (queue_has_id q.id) (written q) d)
]

-- `if tag.RowsAffected() == 0 { return NotFound("queue") }`.
abbrev some_row : ℕ → Exec Db (Unit {0})
some_row count = if count == 0 then raise (app not_found "queue not found") else pure tt

unfoldable pub update : Queue → Exec Db (Unit {0})
unfolding update_queue
update q = do count ← map_err (wrapf "update queue") (sql (update_queue q)); some_row count

unfoldable pub set_paused : ℕ → Bool → ℕ → Exec Db (Unit {0})
set_paused i paused now = do
  count ← map_err (wrapf "set queue paused") (
      sql (λ d. (
        ok (count_rows (queue_has_id i) d.queues),
        change_queue (queue_has_id i) (λ q. record q { is_paused = paused; updated_at = now }) d,
      )))
  some_row count

-- ON DELETE CASCADE takes the jobs, the cron jobs and the batches of the queue with it, and a
-- reference to it as DLQ becomes NULL. (No job of another queue refers to those rows.)
abbrev forget_dlq : ℕ → Queue → Queue
forget_dlq i q = record q {
  dlq_queue_id = elim q.dlq_queue_id [ none ↦ none | some k ↦ if k == i then none else some k ];
}

abbrev delete_queue : ℕ → Db → Db
delete_queue i d = record d {
  queues = map (forget_dlq i) (where_rows (λ q. not (queue_has_id i q)) d.queues);
  jobs = where_rows (λ j. not (j.queue_id == i)) d.jobs;
  crons = where_rows (λ c. not (c.queue_id == i)) d.crons;
  batches = where_rows (λ b. not (b.queue_id == i)) d.batches;
}

unfoldable pub delete : ℕ → Exec Db (Unit {0})
delete i = do
  count ←
      map_err (wrapf "delete queue")
        (sql (λ d. (ok (count_rows (queue_has_id i) d.queues), delete_queue i d)))
  some_row count

abbrev count_in : ℕ → Status → Db → ℕ
count_in i s d = count_rows (λ j. j.queue_id == i && j.status is s) d.jobs

unfoldable pub stats_of : ℕ → Db → Stats
stats_of i d = record {
  queue_id = i;
  pending_count = count_in i pending d;
  scheduled_count = count_in i scheduled d;
  running_count = count_in i running d;
  succeeded_count = count_in i succeeded d;
  failed_count = count_in i failed d;
  dead_count = count_in i dead d;
  cancelled_count = count_in i cancelled d;
}

unfoldable pub get_stats : ℕ → Exec Db Stats
unfolding stats_of
get_stats i = map_err (wrapf "get queue stats") (query (λ d. ok (stats_of i d)))
