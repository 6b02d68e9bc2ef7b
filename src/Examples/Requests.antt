-- ===== src/Examples/Requests.antt =====
-- The theorems on requests at concrete sites, senders and tables.
use codity_assignment.Base.{
  refl, String, List, none, some, ◌+◌, [], ℕ, true, ◌≡◌, Bool, where_rows, ◌≤◌, ◌∷◌, ◌⊎◌,
  count_rows, leb_ℤ, first_row, pos, arith, inr, any_row, map, length, pos_part, suc, ap, zero,
}
use codity_assignment.Api.{Request, param, created, job, finish, error_response, organization}
use codity_assignment.Exec.{World, ok, query, sql, map_err, ◌>>◌, ◌>>=◌, err}
use codity_assignment.Api.Site.{JobSpecBody}
use codity_assignment.Api.Serve.{serve, sender}
use codity_assignment.Access.Bearer.{auth_required, extract_bearer_token, split_blank, equal_fold}
use codity_assignment.Api.Serve.Paths.{fits, IsNamed}
use codity_assignment.Store.{Db}
use codity_assignment.Examples.{tables, request}
use codity_assignment.Examples.Sessions.{
  draws, count_chars, unary, before_login, credentials, answer, opens_anna, login_answers,
}
use codity_assignment.Api.Serve.Enqueued.{enqueue_path, serve-enqueue, member_of}
use codity_assignment.JobService.{JobResponse, to_job_response}
use codity_assignment.Domain.Batch.{Batch}
use codity_assignment.BatchRepo.{create_batch_row, insert_batch}
use codity_assignment.Api.Origins.{join_strings, split_origins, join_strings-split_origins}
use codity_assignment.Api.Serve.Guards.{has_org_role, has_project_role}
use codity_assignment.Api.JobHandler.{page_filter}
use codity_assignment.Api.Serve.Promoted.{serve-has_org_role, org_member_of}
use codity_assignment.Api.Serve.Nested.{serve-beside_queues}
use codity_assignment.Api.Routes.{Segment}
use codity_assignment.Examples.Services.{fresh_job}
use codity_assignment.JobRepo.{page_limit, page_of}
use codity_assignment.Api.Serve.Enqueuers.{serve_jobs-has_project_role}
use codity_assignment.Errors.{GoError}
use codity_assignment.Domain.Job.{Job}
use codity_assignment.Api.BatchHandler.{spec_of}
use codity_assignment.Api.BatchHandler.Specs.{create_batch-spec_of}
use codity_assignment.Api.CronHandler.Missing.{delete-missing}
use codity_assignment.Api.JobHandler.Page.{page_of-page_filter}
use codity_assignment.Text.{trim_space, is_space}
use codity_assignment.Access.{require_org_role}
use codity_assignment.OrgService.Members.{member_roles}
use codity_assignment.Api.Serve.Founder.{login-org_create}
use codity_assignment.Examples.Sites.{
  ask, site_with, site_tables, documented, any_id, org_row, some_id, moment, project_row,
}
use codity_assignment.AuthService.Tokens
use codity_assignment.AuthService
use codity_assignment.BatchService
use codity_assignment.CronService
use codity_assignment.OrgService
use codity_assignment.OrgRepo
use codity_assignment.JobService
use codity_assignment.JobRepo
use codity_assignment.ProjectRepo
use codity_assignment.QueueRepo
use codity_assignment.Domain.Org
use codity_assignment.Domain.Project
use codity_assignment.Api.CronHandler

identified :
    sender (site_with any_id) (ask "POST" (enqueue_path "11111" "1")) moment ≡ ok (3, "anna@x.io")
unfolding auth_required extract_bearer_token split_blank equal_fold
    AuthService.Tokens.validate_access_token
identified = refl

fits_documented :
    (prefix : Bool) (pattern : List Segment) (path : List String)
    → documented.matched prefix pattern path ≡ fits prefix pattern path
fits_documented prefix pattern path = refl

jobs_path-IsNamed : IsNamed (enqueue_path "11111" "1")
jobs_path-IsNamed = (refl, (refl, (refl, (refl, (refl, tt)))))

cron_path-IsNamed : IsNamed ("projects" ∷ "11111" ∷ "queues" ∷ "cron" ∷ [])
cron_path-IsNamed = (refl, (refl, (refl, (refl, tt))))

promotion_path-IsNamed : IsNamed ("orgs" ∷ "11111111" ∷ "members" ∷ "111" ∷ "role" ∷ [])
promotion_path-IsNamed = (refl, (refl, (refl, (refl, (refl, tt)))))

abbrev queued : JobResponse
queued = to_job_response (record fresh_job { created_at = 600; updated_at = 600 })

abbrev served_world : World Db
served_world = record site_tables { calls = 4 }

abbrev enqueue_request : Request
enqueue_request = ask "POST" (enqueue_path "11111" "1")

enqueued : (JobService.enqueue 20 1 request 600 served_world).0 ≡ ok queued
unfolding JobService.enqueue JobService.submit JobService.new_job JobRepo.create JobRepo.insert_job
    JobRepo.columns_ok JobRepo.is_strategy JobRepo.key_taken JobRepo.references_ok
    QueueRepo.get_by_id query sql map_err ◌>>=◌ ◌>>◌ any_row first_row
enqueued = refl

the_member :
    member_of site_tables.db 5 3
    ≡ some (record { row = project_row; user_email = "anna@x.io"; user_full_name = "Anna" })
unfolding ProjectRepo.joined where_rows first_row
the_member = refl

serve-enqueue_example :
    serve (site_with any_id) enqueue_request moment documented site_tables
    ≡ (created (job queued), (JobService.enqueue 20 1 request 600 served_world).1)
serve-enqueue_example =
    serve-enqueue (site_with any_id) enqueue_request moment documented site_tables "11111" "1" 3 5 1
      "anna@x.io" (record { row = project_row; user_email = "anna@x.io"; user_full_name = "Anna" })
      request queued fits_documented jobs_path-IsNamed (λ n. refl) refl refl identified refl
      the_member refl refl refl refl enqueued

serve_jobs-has_project_role_example :
    ((400 ≤ (serve (site_with any_id) enqueue_request moment documented site_tables).0.status)
      × ((serve (site_with any_id) enqueue_request moment documented site_tables).1.db
          ≡ site_tables.db))
    ⊎ ((user project_id : ℕ) × ((email : String) × (sender (site_with any_id) enqueue_request moment
            ≡ ok (user, email)))
        × (any_id "11111" ≡ some project_id)
        × (has_project_role Project.admin site_tables.db project_id user ≡ true))
serve_jobs-has_project_role_example =
    serve_jobs-has_project_role (site_with any_id) enqueue_request moment documented site_tables
      "11111" "1" [] fits_documented jobs_path-IsNamed (omega arith) refl

serve-beside_queues_example :
    (400
      ≤ (serve
          (site_with some_id)
          (ask "POST" ("projects" ∷ "11111" ∷ "queues" ∷ "cron" ∷ []))
          moment
          documented
          site_tables).0.status)
    × ((serve
          (site_with some_id)
          (ask "POST" ("projects" ∷ "11111" ∷ "queues" ∷ "cron" ∷ []))
          moment
          documented
          site_tables).1.db
        ≡ site_tables.db)
serve-beside_queues_example =
    serve-beside_queues (site_with some_id)
      (ask "POST" ("projects" ∷ "11111" ∷ "queues" ∷ "cron" ∷ [])) moment documented site_tables
      "11111" "cron" fits_documented cron_path-IsNamed (omega arith) refl (inr refl) refl refl

abbrev promotion : Request
promotion = ask "PUT" ("orgs" ∷ "11111111" ∷ "members" ∷ "111" ∷ "role" ∷ [])

known : sender (site_with any_id) promotion moment ≡ ok (3, "anna@x.io")
unfolding auth_required extract_bearer_token split_blank equal_fold
    AuthService.Tokens.validate_access_token
known = refl

the_org_member :
    org_member_of site_tables.db 8 3
    ≡ some (record { row = org_row; user_email = "anna@x.io"; user_full_name = "Anna" })
unfolding OrgRepo.joined where_rows first_row
the_org_member = refl

serve-has_org_role_example :
    has_org_role Org.owner
      (serve (site_with any_id) promotion moment documented site_tables).1.db
      8
      3
    ≡ true
serve-has_org_role_example =
    serve-has_org_role (site_with any_id) promotion moment documented site_tables "11111111" "111" 8
      3 "anna@x.io" (record { row = org_row; user_email = "anna@x.io"; user_full_name = "Anna" })
      fits_documented promotion_path-IsNamed (λ n. refl) refl refl known refl refl the_org_member
      refl refl refl

abbrev body : JobSpecBody
body = record {
  job_type = "email";
  payload = [];
  priority = pos 0;
  max_retries = none;
  idempotency_key = "";
}

abbrev two_jobs : Batch
two_jobs = BatchService.new_batch 21 1 "b" 2 600

create_batch-spec_of_example :
    ((BatchService.create_batch
        (λ n. 21 + n)
        1
        "b"
        (map spec_of (body ∷ body ∷ []))
        600
        site_tables).1.db.jobs
      ≡ site_tables.db.jobs)
    × (two_jobs.pending_count ≡ pos 2)
unfolding BatchService.create_batch create_batch_row insert_batch sql ◌>>◌ ◌>>=◌
    BatchService.insert_specs JobRepo.create JobRepo.insert_job JobRepo.columns_ok
    JobRepo.is_strategy spec_of map_err any_row
create_batch-spec_of_example =
    create_batch-spec_of (λ n. 21 + n) 1 600 "b" (body ∷ body ∷ []) site_tables two_jobs refl

delete-missing_example :
    ((finish
        (CronHandler.delete (site_with some_id) promotion moment (("cronId", "1") ∷ []))
        site_tables).0.status
      ≡ 500)
    × ((e : GoError) × ((CronService.delete 1 site_tables).0 ≡ err e)
        × ((error_response e).status ≡ 404))
unfolding param count_rows
delete-missing_example =
    delete-missing (site_with some_id) promotion moment (("cronId", "1") ∷ []) 1 site_tables refl
      refl refl

page_of-page_filter_example :
    let f = record (page_filter promotion) { status = none } in
    (leb_ℤ (pos 1) f.limit ≡ true)
    × (leb_ℤ f.limit (pos 200) ≡ true)
    × (leb_ℤ (pos 0) f.offset ≡ true)
    × (page_limit f.limit ≡ f.limit)
    × ((rows : List Job) × (page_of 1 f tables ≡ ok rows) × (length rows ≤ pos_part f.limit))
page_of-page_filter_example = page_of-page_filter promotion none 1 tables

join_strings-split_origins_example :
    join_strings (split_origins "http://a,http://b") ≡ "http://a,http://b"
join_strings-split_origins_example = join_strings-split_origins "http://a,http://b"

reads_unary : (i : ℕ) → any_id (unary i) ≡ some i
reads_unary zero = refl
reads_unary (suc i) = ap some (counted_unary (suc i))
  where
    counted_unary : (n : ℕ) → count_chars (unary n) ≡ n
    counted_unary zero = refl
    counted_unary (suc n) = ap suc (counted_unary n)

abbrev wanted : OrgService.OrgRequest
wanted = record { name = "Acme"; slug = "acme"; description = "" }

abbrev wanted_response : OrgService.OrgResponse
wanted_response = record {
  id = 20;
  name = "Acme";
  slug = "acme";
  description = "";
  created_at = 600;
  updated_at = 600;
  role = none;
}

abbrev founding_request : Request
founding_request = ask "POST" ("orgs" ∷ [])

org_made : (OrgService.create (λ s. s) 3 wanted 20 600 600 before_login).0 ≡ ok wanted_response
unfolding OrgService.create any_row ◌>>◌ ◌>>=◌ OrgRepo.create map_err sql OrgRepo.add_member
    trim_space is_space
org_made = refl

abbrev afterwards : World Db
afterwards = record before_login {
  db = (serve (site_with any_id) founding_request moment documented before_login).1.db;
}

login-org_create_example :
    ((serve (site_with any_id) founding_request moment documented before_login).0
      ≡ created (organization wanted_response))
    × (require_org_role (member_roles afterwards) Org.owner (ok 20) 3 ≡ ok Org.owner)
unfolding any_row
login-org_create_example =
    login-org_create (site_with any_id) founding_request moment documented credentials draws answer
      before_login before_login afterwards wanted wanted_response Org.owner opens_anna reads_unary
      fits_documented (λ n. refl) login_answers refl (omega arith) (omega arith) refl refl refl refl
      refl refl org_made refl refl
