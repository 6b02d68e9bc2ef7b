-- ===== src/Api/Reports.antt =====
-- backend/internal/handler/execlog/execlog.go and handler/metrics/metrics.go, and healthHandler of
-- backend/cmd/api/main.go. The errors are returned, not sent by RespondError. `parse_time` is
-- time.Parse with RFC3339.
use codity_assignment.Base.{Bool, String, Option, if◌then◌else◌, ℕ, str_eq, ◌-◌, some, none}
use codity_assignment.Exec.{Exec, Result, err, ok}
use codity_assignment.Metrics.{MetricsDb, get_system_metrics, get_snapshots}
use codity_assignment.Api.{
  Response, reply_raw, success, Params, Request, health, system, uuid_or, or_return, param, payload,
  log_lines, executions, snapshots,
}
use codity_assignment.Errors.{GoError, app, invalid_input}
use codity_assignment.ExecLog.{LogDb, list_executions, list_logs_by_job}

module _ (parse_uuid : String → Option ℕ) where
  abbrev id_in : GoError → Params → String → Result ℕ
  id_in e ps name = uuid_or e (parse_uuid (param name ps))

  unfoldable pub list_executions_of_job : Params → Exec LogDb Response
  list_executions_of_job ps =
      or_return (id_in (app invalid_input "invalid job ID") ps "jobId")
        (λ i. reply_raw (λ found. success (executions found)) (list_executions i))

  unfoldable pub list_logs : Params → Exec LogDb Response
  list_logs ps =
      or_return (id_in (app invalid_input "invalid job ID") ps "jobId")
        (λ i. reply_raw (λ found. success (log_lines found)) (list_logs_by_job i))

  abbrev time_or : Option ℕ → Result ℕ
  time_or none = err (app invalid_input "invalid since format (use RFC3339)")
  time_or (some t) = ok t

  -- 24 hours before `now`, or the time that the query names.
  abbrev since_of : (String → Option ℕ) → String → ℕ → Result ℕ
  since_of parse_time s now =
      if str_eq s "" then ok (now - 86400000000000) else time_or (parse_time s)

  unfoldable pub get_queue_metrics :
      (String → Option ℕ) → Request → Params → ℕ → Exec MetricsDb Response
  get_queue_metrics parse_time req ps now =
      or_return (id_in (app invalid_input "invalid queue ID") ps "queueId") (λ i.
        or_return (since_of parse_time (req.query_text "since") now)
          (λ since. reply_raw (λ found. success (snapshots found)) (get_snapshots i since)))

unfoldable pub get_system_metrics_of : Exec MetricsDb Response
get_system_metrics_of = reply_raw (λ m. success (system m)) get_system_metrics

-- `reachable` is whether the ping is answered; the body holds the status of the service.
unfoldable pub health_handler : Bool → Response
health_handler reachable =
    if reachable
    then success (health "ok")
    else record { status = 503; body = payload (health "degraded") }
