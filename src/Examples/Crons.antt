-- ===== src/Examples/Crons.antt =====
-- The theorems on cron jobs and on the connections at concrete values.
use codity_assignment.Base.{
  refl, String, some, [], ℕ, none, Option, ◌≡◌, true, ◌+◌, str_append, if◌then◌else◌, ◌↔◌, ◌∷◌,
  ◌==◌, false, where_rows,
}
use codity_assignment.Domain.Cron.{CronJob}
use codity_assignment.Worker.CronEngine.{Fire, execute_fire, Node, lock_name, evaluate}
use codity_assignment.Connections.{new_redis}
use codity_assignment.Exec.{World, Result, ok}
use codity_assignment.Examples.{world, tables, alone}
use codity_assignment.Errors.{GoError, pg, unreachable}
use codity_assignment.Worker.CronEngine.Locked.{evaluate-IsScheduled}
use codity_assignment.Worker.CronEngine.Firing.{execute_fire-scheduled}
use codity_assignment.Connections.Attempts.{new_redis-first}

abbrev nightly : CronJob
nightly = record {
  id = 6;
  queue_id = 1;
  name = "nightly";
  description = "";
  cron_expr = "0 0 * * *";
  timezone = "UTC";
  job_type = "email";
  payload = [];
  max_retries = none;
  retry_strategy = none;
  is_active = true;
  last_fired_at = none;
  next_fire_at = some 100;
  created_at = 0;
  updated_at = 0;
}

abbrev hourly : String → Result (ℕ → ℕ)
hourly s = ok (λ t. t + 3600)

abbrev with_strategy : CronJob
with_strategy = record nightly { retry_strategy = some "fixed" }

execute_fire-scheduled_example :
    (¬ ((execute_fire hourly 70 with_strategy 500 501 world).0 ≡ ok tt))
    × ((execute_fire hourly 70 with_strategy 500 501 world).1.db ≡ tables)
execute_fire-scheduled_example =
    execute_fire-scheduled hourly 70 with_strategy 500 501 (λ t. t + 3600) world refl

abbrev id_text : ℕ → String
id_text i = "c6"

abbrev nightly_fire : Fire
nightly_fire = record { job_id = 70; token = "t1"; redis_now = 50; redis_later = 60; at = 501 }

-- Another node holds the lock of the cron job.
abbrev held_node : World Node
held_node = record {
  db = (
    record {
      key = str_append "lock:" (lock_name id_text 6 500);
      value = "t2";
      expires_at = some 90;
    }
        ∷ [],
    tables,
  );
  calls = 0;
  down = λ n. false;
}

-- A server that answers the second attempt.
abbrev slow_start : ℕ → Option GoError
slow_start n = if n == 1 then some (pg unreachable) else none

abbrev never : ℕ → Option GoError
never n = none

new_redis-first_example : (new_redis slow_start never ≡ ok tt) ↔ (slow_start 1 ≡ none)
new_redis-first_example = new_redis-first slow_start never

abbrev node : World Node
node = record { db = ([], record tables { crons = alone nightly }); calls = 0; down = λ n. false }

abbrev firings : ℕ → Fire
firings n = nightly_fire

evaluate-IsScheduled_example : (evaluate hourly id_text 30 firings 500 node).1.db.1 ≡ node.db.1
unfolding where_rows
evaluate-IsScheduled_example =
    evaluate-IsScheduled hourly id_text 30 500 firings node ((λ t. t + 3600, refl), tt)
