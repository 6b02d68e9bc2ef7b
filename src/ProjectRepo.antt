-- ===== src/ProjectRepo.antt =====
-- backend/internal/repository/postgres/project.go: the tables of projects and of their members. The
-- last argument of add_member is NOW(); `before` is the collation of the database.
use codity_assignment.Domain.Project.{Project, MemberRow, Member, Role}
use codity_assignment.Base.{
  String, Bool, ℕ, Option, List, ◌==◌, none, some, if◌then◌else◌, str_eq, ◌∷◌, first_row, ◌&&◌, not,
  any_row, [], ◌||◌, count_rows, sort_rows, update_rows, where_rows, leb, ◌++◌,
}
use codity_assignment.Errors.{
  GoError, wrapf, is_no_rows, app, not_found, unauthorized, pg, foreign_key_violation,
  unique_violation,
}
use codity_assignment.Store.{Db}
use codity_assignment.Exec.{
  Exec, Result, map_err, ◌>>=◌, raise, query, missing, ok, or_no_rows, sql, err, pure,
}
use codity_assignment.Cascade.{drop_projects, drop_rows}
use codity_assignment.Domain.User.{User}
use codity_assignment.QueueRepo.{taken}
use codity_assignment.UserRepo.{user_has_id}
use codity_assignment.OrgRepo.{org_has_id}

abbrev pub project_has_id : ℕ → Project → Bool
project_has_id i p = p.id == i

-- UNIQUE (org_id, slug).
abbrev pub same_slug : Project → Project → Bool
same_slug a b = a.org_id == b.org_id && str_eq a.slug b.slug

abbrev pub same_key : Project → Project → Bool
same_key a b = str_eq b.api_key_hash a.api_key_hash

unfoldable pub insert_project : Project → Db → Result (Unit {0}) × Db
insert_project p d =
    if any_row (project_has_id p.id) d.projects
      || any_row (same_slug p) d.projects
      || any_row (same_key p) d.projects
    then (err (pg unique_violation), d)
    else if not (any_row (org_has_id p.org_id) d.orgs)
    then (err (pg foreign_key_violation), d)
    else (ok tt, record d { projects = d.projects ++ p ∷ [] })

unfoldable pub create : Project → Exec Db (Unit {0})
unfolding insert_project
create p = map_err (taken "project slug already exists" "create project") (sql (insert_project p))

unfoldable pub get_by_id : ℕ → Exec Db Project
get_by_id i =
    map_err (missing "project not found" "get project by id")
      (query (λ d. or_no_rows (first_row (project_has_id i) d.projects)))

unfoldable pub get_by_slug : ℕ → String → Exec Db Project
get_by_slug org_id slug =
    map_err (missing "project not found" "get project by slug") (
      query
        (λ d. or_no_rows (first_row (λ p. p.org_id == org_id && str_eq p.slug slug) d.projects)))

-- No rows becomes Unauthorized, and any other error is wrapped.
abbrev invalid_key : GoError → GoError
invalid_key e =
    if is_no_rows e then app unauthorized "invalid API key" else wrapf "get project by api key" e

abbrev pub opens_with : String → Project → Bool
opens_with hash p = str_eq p.api_key_hash hash && p.is_active

unfoldable pub get_by_api_key_hash : String → Exec Db Project
get_by_api_key_hash hash =
    map_err invalid_key (query (λ d. or_no_rows (first_row (opens_with hash) d.projects)))

unfoldable pub list_by_org_id : (String → String → Bool) → ℕ → Exec Db (List Project)
list_by_org_id before org_id = map_err (wrapf "list projects by org") (
    query (λ d. ok (
      sort_rows (λ a b. before a.name b.name)
        (where_rows (λ (p : Project). p.org_id == org_id) d.projects))))

-- The columns that UPDATE sets.
abbrev pub project_written : Project → Project → Project
project_written p r = record r {
  name = p.name;
  description = p.description;
  api_key_hash = p.api_key_hash;
  api_key_prefix = p.api_key_prefix;
  is_active = p.is_active;
  updated_at = p.updated_at;
}

unfoldable pub update_project : Project → Db → Result ℕ × Db
update_project p d =
    if not (any_row (project_has_id p.id) d.projects)
    then (ok 0, d)
    else if any_row (λ o. not (o.id == p.id) && same_key p o) d.projects
    then (err (pg unique_violation), d)
    else (
      ok 1,
      record d { projects = update_rows (project_has_id p.id) (project_written p) d.projects },
    )

abbrev pub some_project : ℕ → Exec Db (Unit {0})
some_project count = if count == 0 then raise (app not_found "project not found") else pure tt

unfoldable pub update : Project → Exec Db (Unit {0})
unfolding update_project
update p = do count ← map_err (wrapf "update project") (sql (update_project p)); some_project count

unfoldable pub delete : ℕ → Exec Db (Unit {0})
unfolding drop_projects
delete i = do
  count ← map_err (wrapf "delete project") (
      sql
        (λ d. (ok (count_rows (project_has_id i) d.projects), drop_projects (project_has_id i) d)))
  some_project count

abbrev pub membership : ℕ → ℕ → MemberRow → Bool
membership project_id user_id m = m.project_id == project_id && m.user_id == user_id

-- ON CONFLICT (project_id, user_id) DO UPDATE SET role.
unfoldable pub upsert_member : MemberRow → Db → Result (Unit {0}) × Db
upsert_member m d =
    if any_row (membership m.project_id m.user_id) d.project_members
    then (
      ok tt,
      record d {
        project_members =
            update_rows (membership m.project_id m.user_id) (λ r. record r { role = m.role })
              d.project_members;
      },
    )
    else if not (any_row (project_has_id m.project_id) d.projects)
        || not (any_row (user_has_id m.user_id) d.users)
    then (err (pg foreign_key_violation), d)
    else (ok tt, record d { project_members = d.project_members ++ m ∷ [] })

unfoldable pub add_member : ℕ → ℕ → Role → ℕ → Exec Db (Unit {0})
unfolding upsert_member
add_member project_id user_id role now = map_err (wrapf "add project member") (
    sql (
      upsert_member
        (record { project_id = project_id; user_id = user_id; role = role; joined_at = now })))

abbrev beside : List User → MemberRow → Option Member
beside users m = elim (first_row (user_has_id m.user_id) users) [
  | none ↦ none
  | some u ↦ some (record { row = m; user_email = u.email; user_full_name = u.full_name })
]

abbrev kept : Option Member → List Member → List Member
kept none ms = ms
kept (some m) ms = m ∷ ms

-- JOIN users.
unfoldable pub joined : List User → List MemberRow → List Member
joined users [] = []
joined users (m ∷ ms) = kept (beside users m) (joined users ms)

abbrev pub first_of : {A : Type 0} → List A → Option A
first_of [] = none
first_of (x ∷ xs) = some x

unfoldable pub get_member : ℕ → ℕ → Exec Db Member
unfolding joined
get_member project_id user_id = map_err (missing "project member not found" "get project member") (
    query (λ d.
      or_no_rows
        (first_of (joined d.users (where_rows (membership project_id user_id) d.project_members)))))

unfoldable pub list_members : ℕ → Exec Db (List Member)
unfolding joined
list_members project_id = map_err (wrapf "list project members") (
    query (λ d. ok (
      sort_rows (λ a b. leb a.joined_at b.joined_at)
        (joined d.users
          (where_rows (λ (m : MemberRow). m.project_id == project_id) d.project_members)))))

abbrev some_member : ℕ → Exec Db (Unit {0})
some_member count = if count == 0 then raise (app not_found "project member not found") else pure tt

unfoldable pub update_member_role : ℕ → ℕ → Role → Exec Db (Unit {0})
update_member_role project_id user_id role = do
  count ← map_err (wrapf "update project member role") (
      sql (λ d. (
        ok (count_rows (membership project_id user_id) d.project_members),
        record d {
          project_members =
              update_rows (membership project_id user_id) (λ r. record r { role = role })
                d.project_members;
        },
      )))
  some_member count

unfoldable pub remove_member : ℕ → ℕ → Exec Db (Unit {0})
remove_member project_id user_id = do
  count ← map_err (wrapf "remove project member") (
      sql (λ d. (
        ok (count_rows (membership project_id user_id) d.project_members),
        record d { project_members = drop_rows (membership project_id user_id) d.project_members },
      )))
  some_member count
