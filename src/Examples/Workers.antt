-- ===== src/Examples/Workers.antt =====
-- The theorems on the pool and the executor at concrete runs.
use codity_assignment.Worker.Pool.Conserved.{amount, amount_kept}
use codity_assignment.Base.{List, pos, count_rows, Bool, [], ◌≡◌, true, ◌+◌, ◌∷◌, refl, ◌+ℤ◌, ◌-ℤ◌}
use codity_assignment.Worker.Pool.{
  Pool, start, fire, Event, submitted, submit, fire_submit, fire_close, exited, fire_receive,
  fire_exit, fire_begin, receive, fire_finish, begin, finish, fire_leave, leave, close, exit, Trace,
  next, stop,
}
use codity_assignment.Worker.Executor.{execute}
use codity_assignment.Domain.Job.{Job}
use codity_assignment.Examples.{failing, source, email_job, offline, tables, urgent_job}
use codity_assignment.Worker.Executor.Outcome.{execute_down}

abbrev events : List Event
events =
    submit email_job
    ∷ submit urgent_job
    ∷ receive 0
    ∷ begin 0
    ∷ finish 0
    ∷ leave 0
    ∷ receive 0
    ∷ begin 0
    ∷ finish 0
    ∷ leave 0
    ∷ close
    ∷ exit 0
    ∷ exit 1
    ∷ []

abbrev ended : Pool
ended = record {
  concurrency = 2;
  channel = [];
  closed = true;
  active = pos 0;
  workers = exited ∷ exited ∷ [];
  executed = email_job ∷ urgent_job ∷ [];
}

events-Trace : Trace (start 2) events ended
unfolding start fire fire_submit fire_close fire_receive fire_exit fire_begin fire_finish fire_leave
    ◌+ℤ◌ ◌-ℤ◌
events-Trace = next (submit email_job) refl (
    next (submit urgent_job) refl (
      next (receive 0) refl (
        next (begin 0) refl (
          next (finish 0) refl (
            next (leave 0) refl (
              next (receive 0) refl (
                next (begin 0) refl (
                  next (finish 0) refl (
                    next (leave 0) refl
                      (next close refl (next (exit 0) refl (next (exit 1) refl stop))))))))))))

any_job : Job → Bool
any_job j = true

amount_kept_example :
    amount any_job ended ≡ amount any_job (start 2) + count_rows any_job (submitted events)
amount_kept_example = amount_kept any_job (start 2) events ended events-Trace

execute_down_example : (execute failing source email_job 300 301 offline).1.db ≡ tables
execute_down_example = execute_down failing source email_job 300 301 offline refl
