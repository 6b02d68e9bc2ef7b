-- ===== src/Api/JobHandler.antt =====
-- backend/internal/handler/job/handler.go.
pub mod Page
use codity_assignment.Base.{
  String, Option, if◌then◌else◌, pos, ℕ, str_eq, none, ltb_ℤ, some, ◌&&◌, leb_ℤ, ℤ,
}
use codity_assignment.Domain.Job.{
  pending, scheduled, running, succeeded, failed, dead, cancelled, ListFilter, Status,
}
use codity_assignment.Api.{
  Request, Params, uuid_param, Response, or_respond, read_body, reply, done, success, created, jobs,
  job,
}
use codity_assignment.Api.Site.{Site, Moment}
use codity_assignment.Exec.{Result, Exec, map_err, query, err}
use codity_assignment.Store.{Db}
use codity_assignment.JobService.{ListResponse}
use codity_assignment.Errors.{wrapf, pg, refused}
use codity_assignment.JobService

-- The texts of domain/job/job.go and of the enum type job_status.
unfoldable pub status_of_text : String → Option Status
status_of_text s =
    if str_eq s "pending"
    then some pending
    else if str_eq s "scheduled"
    then some scheduled
    else if str_eq s "running"
    then some running
    else if str_eq s "succeeded"
    then some succeeded
    else if str_eq s "failed"
    then some failed
    else if str_eq s "dead"
    then some dead
    else if str_eq s "cancelled"
    then some cancelled
    else none

abbrev some_text : String → Option String
some_text s = if str_eq s "" then none else some s

abbrev pub limit_of : ℤ → ℤ
limit_of l = if ltb_ℤ (pos 0) l && leb_ℤ l (pos 200) then l else pos 50

abbrev pub offset_of : ℤ → ℤ
offset_of o = if leb_ℤ (pos 0) o then o else pos 0

-- The filter of `List` but for its status.
unfoldable pub page_filter : Request → ListFilter
page_filter req = record {
  status = none;
  job_type = some_text (req.query_text "type");
  limit = limit_of (req.query_int "limit" (pos 50));
  offset = offset_of (req.query_int "offset" (pos 0));
}

module _ (site : Site) (req : Request) (at : Moment) where
  abbrev id_in : Params → String → Result ℕ
  id_in ps name = uuid_param site.parse_uuid ps name

  unfoldable pub enqueue : Params → Exec Db Response
  enqueue ps = or_respond (id_in ps "queueId") (λ i.
      read_body site.enqueue_body "malformed JSON" req
        (λ b. reply (λ j. created (job j)) (JobService.enqueue at.id i b at.now)))

  unfoldable pub get : Params → Exec Db Response
  get ps =
      or_respond (id_in ps "jobId") (λ i. reply (λ j. success (job j)) (JobService.get_by_id i))

  -- A status that is none of the enum's is refused by the server, at the query for the count.
  abbrev listed : ℕ → Option Status → Exec Db ListResponse
  listed queue_id none = map_err (wrapf "count jobs") (query (λ d. err (pg refused)))
  listed queue_id (some s) =
      JobService.list_page queue_id (record (page_filter req) { status = some s })

  unfoldable pub list : Params → Exec Db Response
  unfolding status_of_text page_filter
  list ps = or_respond (id_in ps "queueId") (λ i.
      reply (λ found. success (jobs found))
        (if str_eq (req.query_text "status") ""
          then JobService.list_page i (page_filter req)
          else listed i (status_of_text (req.query_text "status"))))

  unfoldable pub cancel : Params → Exec Db Response
  cancel ps = or_respond (id_in ps "jobId") (λ i. reply done (JobService.cancel i at.at))

  unfoldable pub retry : Params → Exec Db Response
  retry ps = or_respond (id_in ps "jobId") (λ i. reply done (JobService.retry i at.now at.at))
