-- ===== src/Examples/Sites.antt =====
-- A site with its readers, a router as documented, requests and tables.
use codity_assignment.Base.{
  String, ◌+◌, List, Option, none, some, [], ℕ, if◌then◌else◌, str_eq, true,
}
use codity_assignment.Api.Site.{Moment, Site}
use codity_assignment.Api.Serve.{Router}
use codity_assignment.Exec.{World, ok}
use codity_assignment.Api.{Reader, Request, no_content}
use codity_assignment.Api.Serve.Paths.{fits}
use codity_assignment.Store.{Db}
use codity_assignment.Examples.{world, tables, alone, request}
use codity_assignment.Access.Bearer.{bearer_header}
use codity_assignment.Examples.Sessions.{draws, count_chars, env, anna}
use codity_assignment.Domain.Org
use codity_assignment.Domain.Project

abbrev pub reads_as : {B : Type 0} → B → Reader B
reads_as b = record { parse = λ s. some b; check = λ x. [] }

abbrev pub unread : {B : Type 0} → Reader B
unread = record { parse = λ s. none; check = λ x. [] }

abbrev pub site_with : (String → Option ℕ) → Site
site_with parse_uuid = record {
  auth = env;
  parse_uuid = parse_uuid;
  before = λ a b. true;
  register_body = unread;
  login_body = unread;
  refresh_body = unread;
  org_body = reads_as (record { name = "Acme"; slug = "acme"; description = "" });
  org_update_body = unread;
  member_body = unread;
  role_body = reads_as Org.owner;
  project_body = unread;
  project_update_body = unread;
  queue_body = unread;
  queue_update_body = unread;
  enqueue_body = reads_as request;
  batch_body = unread;
  cron_body = unread;
}

abbrev pub any_id : String → Option ℕ
any_id s = some (count_chars s)

abbrev pub some_id : String → Option ℕ
some_id s = if str_eq s "" then none else some (count_chars s)

abbrev pub moment : Moment
moment = record { id = 20; ids = λ n. 20 + n; now = 600; at = 600; random = ok "r"; draws = draws }

abbrev pub documented : Router
documented = record { matched = fits; unrouted = record { status = 404; body = no_content } }

abbrev pub ask : String → List String → Request
ask method path = record {
  method = method;
  path = path;
  authorization = bearer_header "jwt";
  user_agent = "ua";
  ip = "ip";
  text = "{}";
  query_text = λ s. "";
  query_int = λ s n. n;
}

-- Anna is an administrator of the organization 8 and of the project 5; the queues are those of the
-- project 7.
abbrev pub org_row : Org.MemberRow
org_row = record { org_id = 8; user_id = 3; role = Org.admin; joined_at = 0 }

abbrev pub project_row : Project.MemberRow
project_row = record { project_id = 5; user_id = 3; role = Project.admin; joined_at = 0 }

abbrev pub site_tables : World Db
site_tables = record world {
  db = record tables {
    users = alone anna;
    org_members = alone org_row;
    project_members = alone project_row;
  };
}
