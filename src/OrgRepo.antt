-- ===== src/OrgRepo.antt =====
-- backend/internal/repository/postgres/org.go: the tables of organizations and of their members. The
-- last argument of add_member is NOW(); `before` is the collation of the database.
use codity_assignment.Domain.Org.{Organization, MemberRow, Member, Role}
use codity_assignment.Cascade.{drop_orgs, drop_rows}
use codity_assignment.Base.{
  ℕ, List, Option, String, if◌then◌else◌, Bool, none, some, first_row, ◌∷◌, any_row, ◌==◌, [], ◌&&◌,
  ◌||◌, update_rows, count_rows, str_eq, sort_rows, leb, where_rows, not, ◌++◌,
}
use codity_assignment.Errors.{
  GoError, wrapf, is_foreign_key_violation, app, not_found, pg, unique_violation,
  foreign_key_violation,
}
use codity_assignment.Exec.{
  Exec, Result, ◌>>=◌, map_err, missing, sql, query, raise, ok, or_no_rows, err, pure,
}
use codity_assignment.Store.{Db}
use codity_assignment.Domain.User.{User}
use codity_assignment.QueueRepo.{taken}
use codity_assignment.UserRepo.{user_has_id}

abbrev pub org_has_id : ℕ → Organization → Bool
org_has_id i o = o.id == i

-- UNIQUE (slug).
unfoldable pub insert_org : Organization → Db → Result (Unit {0}) × Db
insert_org o d =
    if any_row (org_has_id o.id) d.orgs
      || any_row (λ (r : Organization). str_eq r.slug o.slug) d.orgs
    then (err (pg unique_violation), d)
    else (ok tt, record d { orgs = d.orgs ++ o ∷ [] })

unfoldable pub create : Organization → Exec Db (Unit {0})
unfolding insert_org
create o = map_err (taken "organization slug already exists" "create org") (sql (insert_org o))

unfoldable pub get_by_id : ℕ → Exec Db Organization
get_by_id i =
    map_err (missing "organization not found" "get org by id")
      (query (λ d. or_no_rows (first_row (org_has_id i) d.orgs)))

unfoldable pub get_by_slug : String → Exec Db Organization
get_by_slug slug =
    map_err (missing "organization not found" "get org by slug")
      (query (λ d. or_no_rows (first_row (λ o. str_eq o.slug slug) d.orgs)))

abbrev pub membership : ℕ → ℕ → MemberRow → Bool
membership org_id user_id m = m.org_id == org_id && m.user_id == user_id

unfoldable pub list_by_user_id : (String → String → Bool) → ℕ → Exec Db (List Organization)
list_by_user_id before user_id = map_err (wrapf "list orgs by user") (
    query (λ d. ok (
      sort_rows (λ a b. before a.name b.name)
        (where_rows (λ o. any_row (membership o.id user_id) d.org_members) d.orgs))))

abbrev org_written : Organization → Organization → Organization
org_written o r = record r { name = o.name; description = o.description; updated_at = o.updated_at }

abbrev some_org : ℕ → Exec Db (Unit {0})
some_org count = if count == 0 then raise (app not_found "organization not found") else pure tt

unfoldable pub update : Organization → Exec Db (Unit {0})
update o = do
  count ← map_err (wrapf "update org") (
      sql (λ d. (
        ok (count_rows (org_has_id o.id) d.orgs),
        record d { orgs = update_rows (org_has_id o.id) (org_written o) d.orgs },
      )))
  some_org count

unfoldable pub delete : ℕ → Exec Db (Unit {0})
unfolding drop_orgs
delete i = do
  count ←
      map_err (wrapf "delete org")
        (sql (λ d. (ok (count_rows (org_has_id i) d.orgs), drop_orgs (org_has_id i) d)))
  some_org count

-- ON CONFLICT (org_id, user_id) DO UPDATE SET role.
unfoldable pub upsert_member : MemberRow → Db → Result (Unit {0}) × Db
upsert_member m d =
    if any_row (membership m.org_id m.user_id) d.org_members
    then (
      ok tt,
      record d {
        org_members =
            update_rows (membership m.org_id m.user_id) (λ r. record r { role = m.role })
              d.org_members;
      },
    )
    else if not (any_row (org_has_id m.org_id) d.orgs)
        || not (any_row (user_has_id m.user_id) d.users)
    then (err (pg foreign_key_violation), d)
    else (ok tt, record d { org_members = d.org_members ++ m ∷ [] })

abbrev pub unknown_user : GoError → GoError
unknown_user e =
    if is_foreign_key_violation e then app not_found "user not found" else wrapf "add org member" e

unfoldable pub add_member : ℕ → ℕ → Role → ℕ → Exec Db (Unit {0})
unfolding upsert_member
add_member org_id user_id role now = map_err unknown_user (
    sql
      (upsert_member (record { org_id = org_id; user_id = user_id; role = role; joined_at = now })))

abbrev beside : List User → MemberRow → Option Member
beside users m = elim (first_row (user_has_id m.user_id) users) [
  | none ↦ none
  | some u ↦ some (record { row = m; user_email = u.email; user_full_name = u.full_name })
]

abbrev kept : Option Member → List Member → List Member
kept none ms = ms
kept (some m) ms = m ∷ ms

-- JOIN users.
unfoldable pub joined : List User → List MemberRow → List Member
joined users [] = []
joined users (m ∷ ms) = kept (beside users m) (joined users ms)

abbrev pub first_of : {A : Type 0} → List A → Option A
first_of [] = none
first_of (x ∷ xs) = some x

unfoldable pub get_member : ℕ → ℕ → Exec Db Member
unfolding joined
get_member org_id user_id = map_err (missing "organization member not found" "get org member") (
    query (λ d.
      or_no_rows
        (first_of (joined d.users (where_rows (membership org_id user_id) d.org_members)))))

unfoldable pub list_members : ℕ → Exec Db (List Member)
unfolding joined
list_members org_id = map_err (wrapf "list org members") (
    query (λ d. ok (
      sort_rows (λ a b. leb a.joined_at b.joined_at)
        (joined d.users (where_rows (λ (m : MemberRow). m.org_id == org_id) d.org_members)))))

abbrev some_member : ℕ → Exec Db (Unit {0})
some_member count =
    if count == 0 then raise (app not_found "organization member not found") else pure tt

unfoldable pub update_member_role : ℕ → ℕ → Role → Exec Db (Unit {0})
update_member_role org_id user_id role = do
  count ← map_err (wrapf "update member role") (
      sql (λ d. (
        ok (count_rows (membership org_id user_id) d.org_members),
        record d {
          org_members =
              update_rows (membership org_id user_id) (λ r. record r { role = role }) d.org_members;
        },
      )))
  some_member count

unfoldable pub remove_member : ℕ → ℕ → Exec Db (Unit {0})
remove_member org_id user_id = do
  count ← map_err (wrapf "remove org member") (
      sql (λ d. (
        ok (count_rows (membership org_id user_id) d.org_members),
        record d { org_members = drop_rows (membership org_id user_id) d.org_members },
      )))
  some_member count
