-- ===== src/Worker/CronEngine/Firing.antt =====
-- What a firing of a cron job does to the jobs and the cron jobs.
use codity_assignment.Exec.{map_err, sql, ◌>>=◌, ◌>>◌, World, ok, err}
use codity_assignment.Worker.CronEngine.{spawned_job, execute_fire, Parser}
use codity_assignment.Base.{ℕ, ◌≡◌, arith, ◌⊎◌, refl}
use codity_assignment.Domain.Cron.{CronJob}
use codity_assignment.Store.{Db}
use codity_assignment.Errors.{pg, wrapf, refused, unreachable}
use codity_assignment.JobRepo

-- The tags of a spawned job are the nil slice, which is NULL in a column that is NOT NULL.
spawn_refused :
    (i : ℕ) (c : CronJob) (now : ℕ) (d : Db)
    → JobRepo.insert_job (spawned_job i c now) d ≡ (err (pg refused), d)
unfolding JobRepo.insert_job JobRepo.columns_ok spawned_job
spawn_refused i c now d = refl

spawn-Same :
    (i : ℕ) (c : CronJob) (now : ℕ) (w : World Db)
    → (((JobRepo.create (spawned_job i c now) w).0 ≡ err (wrapf "create job" (pg refused)))
        ⊎ ((JobRepo.create (spawned_job i c now) w).0 ≡ err (wrapf "create job" (pg unreachable))))
      × ((JobRepo.create (spawned_job i c now) w).1.db ≡ w.db)
unfolding JobRepo.create map_err sql
spawn-Same i c now w = let e = spawn_refused i c now w.db in ground arith

-- A firing of a cron job that has a schedule fails, and changes no table, whatever its queue, its
-- payload and its retry strategy: the job is not spawned, and the cron job stays due.
pub execute_fire-scheduled :
    (parse : Parser) (i : ℕ) (c : CronJob) (now at : ℕ) (next : ℕ → ℕ) (w : World Db)
    → parse c.cron_expr ≡ ok next
    → (¬ ((execute_fire parse i c now at w).0 ≡ ok tt))
      × ((execute_fire parse i c now at w).1.db ≡ w.db)
unfolding execute_fire ◌>>=◌ ◌>>◌ map_err
execute_fire-scheduled parse i c now at next w p = let k = spawn-Same i c now w in ground arith
