-- ===== src/OrgService/Members.antt =====
-- What the statements on organizations and their members do to the tables.
use codity_assignment.Domain.Org.{Organization, MemberRow, owner, Role, Member}
use codity_assignment.Store.{Db}
use codity_assignment.Base.{
  ℕ, List, ◌≡◌, where_rows, arith, any_row, false, ◌++◌, ◌∷◌, [], Bool, suc, true, refl, inl, inr,
  ==-refl, first_row, some, Bool-cases,
}
use codity_assignment.Errors.{GoError}
use codity_assignment.Exec.{◌>>=◌, ok, err, sql, map_err, World, Result, query}
use codity_assignment.Cascade.{drop_rows}
use codity_assignment.UserRepo.{user_has_id}
use codity_assignment.Access.{require_org_role, org_level}
use codity_assignment.Domain.User.{User}
use codity_assignment.OrgRepo

pub insert-orgs :
    (o : Organization) (d : Db)
    → (OrgRepo.insert_org o d).0 ≡ ok tt
    → (any_row (OrgRepo.org_has_id o.id) d.orgs ≡ false)
      × ((OrgRepo.insert_org o d).1 ≡ record d { orgs = d.orgs ++ o ∷ [] })
unfolding OrgRepo.insert_org
insert-orgs o d h = ground arith

pub insert_refused :
    (o : Organization) (d : Db) {e : GoError}
    → (OrgRepo.insert_org o d).0 ≡ err e
    → (OrgRepo.insert_org o d).1 ≡ d
unfolding OrgRepo.insert_org
insert_refused o d h = ground arith

pub upsert_kept : (m : MemberRow) (d : Db) → (OrgRepo.upsert_member m d).1.orgs ≡ d.orgs
unfolding OrgRepo.upsert_member
upsert_kept m d = ground arith

pub delete-orgs :
    (i : ℕ) (w : World Db)
    → w.down w.calls ≡ false
    → (OrgRepo.delete i w).1.db.orgs ≡ drop_rows (OrgRepo.org_has_id i) w.db.orgs
unfolding OrgRepo.delete ◌>>=◌ map_err sql
delete-orgs i w up = rw up (ground arith)

pub sql_up :
    {A : Type 0} (f : Db → Result A × Db) (w : World Db)
    → w.down w.calls ≡ false
    → sql f w ≡ ((f w.db).0, record w { db = (f w.db).1; calls = suc w.calls })
unfolding sql
sql_up f w up = rw up refl

pub drop_none :
    {A : Type 0} (p : A → Bool) (xs : List A) (x : A)
    → any_row p xs ≡ false
    → p x ≡ true
    → drop_rows p (xs ++ x ∷ []) ≡ xs
unfolding where_rows any_row
drop_none p [] x h k = rw k refl
drop_none p (y ∷ ys) x h k = ground (arith, drop_none p ys x)

abbrev role_in : Result Member → Result Role
role_in (err e) = err e
role_in (ok m) = ok m.role

-- What the middleware reads from the repository.
abbrev pub member_roles : World Db → ℕ → ℕ → Result Role
member_roles w org_id user_id = role_in (OrgRepo.get_member org_id user_id w).0

only_match :
    {A : Type 0} (p : A → Bool) (xs : List A) (x : A)
    → any_row p xs ≡ false
    → p x ≡ true
    → where_rows p (xs ++ x ∷ []) ≡ x ∷ []
unfolding where_rows any_row
only_match p [] x h k = rw k refl
only_match p (y ∷ ys) x h k = ground (arith, only_match p ys x)

known_user :
    (p : User → Bool) (us : List User)
    → any_row p us ≡ true
    → (u : User) × (first_row p us ≡ some u)
unfolding any_row first_row
known_user p [] h = absurd (cc)
known_user p (u ∷ us) h = elim (Bool-cases (p u)) [
  | inl e ↦ (u, rw e refl)
  | inr e ↦ let (v, f) = known_user p us (ground arith) in (v, rw e f)
]

joined_one :
    (us : List User) (m : MemberRow) (u : User)
    → first_row (user_has_id m.user_id) us ≡ some u
    → OrgRepo.joined us (m ∷ [])
      ≡ record { row = m; user_email = u.email; user_full_name = u.full_name } ∷ []
unfolding OrgRepo.joined
joined_one us m u h = ground arith

pub owner_passes :
    (reader : ℕ → ℕ → Result Role) (least : Role) (i u : ℕ)
    → reader i u ≡ ok owner
    → require_org_role reader least (ok i) u ≡ ok owner
unfolding require_org_role org_level
owner_passes reader Role.owner i u h = ground arith
owner_passes reader Role.admin i u h = ground arith
owner_passes reader Role.member i u h = ground arith

-- A user with one membership of an organization is found with its role.
pub sole_role :
    (m : MemberRow) (ms : List MemberRow) (w : World Db)
    → any_row (OrgRepo.membership m.org_id m.user_id) ms ≡ false
    → w.db.org_members ≡ ms ++ m ∷ []
    → any_row (user_has_id m.user_id) w.db.users ≡ true
    → w.down w.calls ≡ false
    → member_roles w m.org_id m.user_id ≡ ok m.role
unfolding OrgRepo.get_member OrgRepo.joined map_err query sql
sole_role m ms w fresh rows user up =
    let (u, found) = known_user (user_has_id m.user_id) w.db.users user in
    let own : OrgRepo.membership m.org_id m.user_id m ≡ true =
      rw (==-refl m.org_id) (==-refl m.user_id) in
    rw up (
      rw rows (
        rw (only_match (OrgRepo.membership m.org_id m.user_id) ms m fresh own)
          (rw (joined_one w.db.users m u found) refl)))
