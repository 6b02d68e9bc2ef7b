-- ===== src/Worker/CronEngine.antt =====
-- backend/internal/worker/cron.go. The parser of robfig/cron is a parameter: it gives the `Next` of a
-- schedule, or an error. `uuid_text` is the text of an id.
pub mod Firing
pub mod Locked
use codity_assignment.Base.{
  String, ℕ, suc, List, ◌/◌, if◌then◌else◌, ltb, ◌==◌, str_append, ◌%◌, [], ◌-◌, ◌∷◌, zero, some,
  false, pos,
}
use codity_assignment.Lock.{Redis, try_with_lock, on_store}
use codity_assignment.Store.{Db}
use codity_assignment.Domain.Cron.{CronJob}
use codity_assignment.Exec.{Result, Exec, ◌>>◌, err, ok, ◌>>=◌, pure, attempt, raise, map_err}
use codity_assignment.Retry.{second}
use codity_assignment.Domain.Job.{Job, zero_job, Status}
use codity_assignment.Errors.{wrapf}
use codity_assignment.JobService.{or_default}
use codity_assignment.JobRepo
use codity_assignment.CronRepo

abbrev pub Parser : Type 0
Parser = String → Result (ℕ → ℕ)

-- The job that a cron job spawns; what the literal does not name is the zero value.
unfoldable pub spawned_job : ℕ → CronJob → ℕ → Job
spawned_job i c now = record zero_job {
  id = i;
  queue_id = c.queue_id;
  cron_job_id = some c.id;
  job_type = c.job_type;
  payload = c.payload;
  status = Status.pending;
  priority = pos 5;
  run_at = now;
  max_retries = or_default c.max_retries (pos 0);
  retry_strategy = or_default c.retry_strategy "";
  metadata = ("spawned_by", "cron") ∷ ("cron_name", c.name) ∷ [];
  created_at = now;
  updated_at = now;
}

-- `i` is the value of `uuid.New()`, `at` is NOW().
unfoldable pub execute_fire : Parser → ℕ → CronJob → ℕ → ℕ → Exec Db (Unit {0})
unfolding spawned_job
execute_fire parse i c now at = elim (parse c.cron_expr) [
  | err e ↦ (do attempt (CronRepo.set_active c.id false at); raise e)
  | ok next ↦ (do
    map_err (wrapf "spawn job for cron") (JobRepo.create (spawned_job i c now))
    attempt (CronRepo.update_fire_times c.id now (next now) at)
    pure tt)
]

abbrev digit : ℕ → String
digit n =
    if n == 0
    then "0"
    else if n == 1
    then "1"
    else if n == 2
    then "2"
    else if n == 3
    then "3"
    else if n == 4
    then "4"
    else if n == 5
    then "5"
    else if n == 6
    then "6"
    else if n == 7
    then "7"
    else if n == 8
    then "8"
    else "9"

-- `%d`.
unfoldable pub decimal : ℕ → ℕ → String
decimal zero n = ""
decimal (suc fuel) n =
    let rest = decimal fuel (n / 10) in
    if ltb n 10 then digit n else str_append rest (digit (n % 10))

-- `now.Unix()`: the seconds since 1970, of an instant counted from the year 1.
abbrev pub unix : ℕ → ℕ
unix now = now / second - 62_135_596_800

unfoldable pub lock_name : (ℕ → String) → ℕ → ℕ → String
unfolding decimal
lock_name uuid_text i now =
    let minute = unix now / 60 in
    str_append "cron_fire:"
      (str_append (uuid_text i) (str_append ":" (decimal (suc minute) minute)))

-- What one firing takes from outside: the id of the job, the token of the lock, the clock of Redis at
-- the acquisition and at the release, and NOW().
pub record Fire : Type 0 where
  pub job_id : ℕ
  pub token : String
  pub redis_now : ℕ
  pub redis_later : ℕ
  pub at : ℕ

abbrev pub Node : Type 0
Node = Redis × Db

abbrev pub due_or_none : Result (List CronJob) → List CronJob
due_or_none (ok cs) = cs
due_or_none (err e) = []

module _ (parse : Parser) (uuid_text : ℕ → String) (lock_ttl : ℕ) where
  -- An error is logged, if it is not that the lock is held.
  unfoldable pub fire_cron : Fire → CronJob → ℕ → Exec Node (Unit {0})
  unfolding execute_fire lock_name
  fire_cron f c now = do
    attempt (
        try_with_lock (lock_name uuid_text c.id now) f.token lock_ttl f.redis_now f.redis_later
          (on_store (execute_fire parse f.job_id c now f.at)))
    pure tt

  unfoldable pub fire_each : (ℕ → Fire) → ℕ → ℕ → List CronJob → Exec Node (Unit {0})
  unfolding fire_cron
  fire_each fires now n [] = pure tt
  fire_each fires now n (c ∷ cs) = do fire_cron (fires n) c now; fire_each fires now (suc n) cs

  unfoldable pub evaluate : (ℕ → Fire) → ℕ → Exec Node (Unit {0})
  unfolding fire_each
  evaluate fires now = do
    due ← attempt (on_store (CronRepo.list_due now))
    fire_each fires now 0 (due_or_none due)
