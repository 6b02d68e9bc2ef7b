-- ===== src/Examples/Logs.antt =====
-- The theorem on log lines at two lines, the second of which the database refuses.
use codity_assignment.Base.{List, ◌∷◌, [], pos, none, false}
use codity_assignment.ExecLog.Prefix.{Added, add_logs-Added}
use codity_assignment.Exec.{World}
use codity_assignment.ExecLog.{ExecutionLog, JobExecution, LogDb, add_logs}
use codity_assignment.Examples.{tables, alone}

abbrev line : ExecutionLog
line = record {
  id = 1;
  execution_id = 5;
  job_id = 10;
  level = "info";
  message = "started";
  metadata = [];
  logged_at = 50;
}

abbrev bad_line : ExecutionLog
bad_line = record line { id = 2; level = "fatal" }

abbrev attempt_row : JobExecution
attempt_row = record {
  id = 5;
  job_id = 10;
  worker_id = 4;
  attempt = pos 1;
  status = "started";
  started_at = 40;
  completed_at = none;
  duration_ms = none;
  error_message = none;
  stack_trace = none;
  result = [];
}

abbrev log_world : World LogDb
log_world = record {
  db = record { base = tables; executions = alone attempt_row; logs = [] };
  calls = 0;
  down = λ n. false;
}

abbrev lines : List ExecutionLog
lines = line ∷ bad_line ∷ []

add_logs-Added_example :
    Added lines log_world (add_logs lines log_world).1.db.logs (add_logs lines log_world).0
add_logs-Added_example = add_logs-Added lines log_world
