-- ===== src/CronRepo.antt =====
-- backend/internal/repository/postgres/cron.go: the table of cron jobs.
use codity_assignment.Base.{
  ℕ, Option, String, Bool, some, ◌&&◌, where_rows, List, none, update_rows, if◌then◌else◌, false,
  ◌==◌, leb, not, first_row, str_eq, true, map, count_rows, sort_rows, any_row, ◌||◌, ◌++◌, ◌∷◌, [],
}
use codity_assignment.Domain.Cron.{CronJob}
use codity_assignment.Store.{Db}
use codity_assignment.Exec.{
  Exec, sql, Result, ◌>>=◌, map_err, missing, raise, ok, err, query, or_no_rows, pure,
}
use codity_assignment.Domain.Job.{Job}
use codity_assignment.Errors.{
  wrapf, app, pg, not_found, refused, unique_violation, foreign_key_violation,
}
use codity_assignment.QueueRepo.{taken, queue_has_id}
use codity_assignment.JobRepo.{is_strategy}

abbrev pub cron_has_id : ℕ → CronJob → Bool
cron_has_id i c = c.id == i

-- The enum type of the column, or NULL.
unfoldable pub cron_columns_ok : CronJob → Bool
cron_columns_ok c = elim c.retry_strategy [ none ↦ true | some s ↦ is_strategy s ]

-- UNIQUE (queue_id, name).
abbrev pub same_cron_name : CronJob → CronJob → Bool
same_cron_name a b = a.queue_id == b.queue_id && str_eq a.name b.name

-- The INSERT does not name last_fired_at.
unfoldable pub insert_cron : CronJob → Db → Result (Unit {0}) × Db
unfolding cron_columns_ok
insert_cron c d =
    if not (cron_columns_ok c)
    then (err (pg refused), d)
    else if any_row (cron_has_id c.id) d.crons || any_row (same_cron_name c) d.crons
    then (err (pg unique_violation), d)
    else if not (any_row (queue_has_id c.queue_id) d.queues)
    then (err (pg foreign_key_violation), d)
    else (ok tt, record d { crons = d.crons ++ record c { last_fired_at = none } ∷ [] })

unfoldable pub create : CronJob → Exec Db (Unit {0})
unfolding insert_cron
create c = map_err (taken "cron job name already exists" "create cron job") (sql (insert_cron c))

unfoldable pub get_by_id : ℕ → Exec Db CronJob
get_by_id i =
    map_err (missing "cron job not found" "get cron by id")
      (query (λ d. or_no_rows (first_row (cron_has_id i) d.crons)))

unfoldable pub list_by_queue_id : (String → String → Bool) → ℕ → Exec Db (List CronJob)
list_by_queue_id before q = map_err (wrapf "list cron jobs") (
    query (λ d.
      ok (sort_rows (λ a b. before a.name b.name) (where_rows (λ c. c.queue_id == q) d.crons))))

-- `next_fire_at <= now`, where NULL is never less.
abbrev pub fires_by : Option ℕ → ℕ → Bool
fires_by none now = false
fires_by (some t) now = leb t now

abbrev pub is_due_cron : ℕ → CronJob → Bool
is_due_cron now c = c.is_active && fires_by c.next_fire_at now

abbrev earlier_fire : Option ℕ → Option ℕ → Bool
earlier_fire none t = false
earlier_fire (some s) none = true
earlier_fire (some s) (some t) = leb s t

unfoldable pub list_due : ℕ → Exec Db (List CronJob)
list_due now = map_err (wrapf "list due cron jobs") (
    query (λ d. ok (
      sort_rows (λ a b. earlier_fire a.next_fire_at b.next_fire_at)
        (where_rows (is_due_cron now) d.crons))))

abbrev change_cron : (CronJob → Bool) → (CronJob → CronJob) → Db → Db
change_cron p f d = record d { crons = update_rows p f d.crons }

-- The columns that UPDATE sets.
abbrev cron_written : CronJob → CronJob → CronJob
cron_written c r = record c {
  id = r.id;
  queue_id = r.queue_id;
  last_fired_at = r.last_fired_at;
  created_at = r.created_at;
}

unfoldable pub update_cron : CronJob → Db → Result ℕ × Db
unfolding cron_columns_ok
update_cron c d = elim (first_row (cron_has_id c.id) d.crons) [
  | none ↦ (ok 0, d)
  | some r ↦
      if not (cron_columns_ok c)
      then (err (pg refused), d)
      else if any_row (λ o. not (o.id == r.id) && same_cron_name (cron_written c r) o) d.crons
      then (err (pg unique_violation), d)
      else (ok 1, change_cron (cron_has_id c.id) (cron_written c) d)
]

abbrev some_cron : ℕ → Exec Db (Unit {0})
some_cron count = if count == 0 then raise (app not_found "cron job not found") else pure tt

unfoldable pub update : CronJob → Exec Db (Unit {0})
unfolding update_cron
update c = do count ← map_err (wrapf "update cron job") (sql (update_cron c)); some_cron count

abbrev pub fired : ℕ → ℕ → ℕ → CronJob → CronJob
fired last next now c = record c {
  last_fired_at = some last;
  next_fire_at = some next;
  updated_at = now;
}

-- The last number is NOW().
unfoldable pub update_fire_times : ℕ → ℕ → ℕ → ℕ → Exec Db (Unit {0})
update_fire_times i last next now =
    sql (λ d. (ok tt, change_cron (cron_has_id i) (fired last next now) d))

unfoldable pub set_active : ℕ → Bool → ℕ → Exec Db (Unit {0})
set_active i active now = do
  count ← sql (λ d. (
    ok (count_rows (cron_has_id i) d.crons),
    change_cron (cron_has_id i) (λ c. record c { is_active = active; updated_at = now }) d,
  ))
  some_cron count

-- ON DELETE SET NULL: the jobs that it spawned lose the reference.
abbrev forget_cron : ℕ → Job → Job
forget_cron i j = record j {
  cron_job_id = elim j.cron_job_id [ none ↦ none | some k ↦ if k == i then none else some k ];
}

abbrev delete_cron : ℕ → Db → Db
delete_cron i d = record d {
  crons = where_rows (λ c. not (cron_has_id i c)) d.crons;
  jobs = map (forget_cron i) d.jobs;
}

unfoldable pub delete : ℕ → Exec Db (Unit {0})
delete i = do
  count ←
      map_err (wrapf "delete cron job")
        (sql (λ d. (ok (count_rows (cron_has_id i) d.crons), delete_cron i d)))
  some_cron count
