-- ===== src/Api/Serve/Guards.antt =====
-- What one chain of guards has established when it lets a request pass: it reads only, and each
-- guard is met.
use codity_assignment.Base.{
  refl, where_rows, any_row, ℕ, Bool, ◌&&◌, List, leb, String, ◌≡◌, ◌∷◌, some, [], true, arith,
  Option-cases, inl, inr, ◌⊎◌, ◌∙◌, subst,
}
use codity_assignment.Store.{Db}
use codity_assignment.Api.Site.{Site, Moment}
use codity_assignment.Api.{Request, Params, uuid_param, param, Response, error_response}
use codity_assignment.Api.Routes.{Guard, org_role, project_role, signed_in}
use codity_assignment.Api.Serve.{run_guard, sender, role_of, pass_guards, or_next}
use codity_assignment.Domain.User.{User}
use codity_assignment.Exec.{query, sql, World, map_err, ok, ◌>>=◌, Result, err, Exec}
use codity_assignment.Access.{project_level, org_level, require_org_role, require_project_role}
use codity_assignment.Exec.Laws.{wrapped_query-ok, row_of}
use codity_assignment.Errors.{GoError}
use codity_assignment.OrgRepo
use codity_assignment.ProjectRepo
use codity_assignment.Domain.Org
use codity_assignment.Domain.Project

-- Some row of the table gives the user at least the role.
unfoldable pub has_org_role : Org.Role → Db → ℕ → ℕ → Bool
has_org_role least d org_id user =
    any_row
      (λ (m : Org.MemberRow).
        OrgRepo.membership org_id user m && leb (org_level least) (org_level m.role))
      d.org_members

unfoldable pub has_project_role : Project.Role → Db → ℕ → ℕ → Bool
has_project_role least d project_id user =
    any_row
      (λ (m : Project.MemberRow).
        ProjectRepo.membership project_id user m
        && leb (project_level least) (project_level m.role))
      d.project_members

org_row :
    (p q : Org.MemberRow → Bool) (us : List User) (rows : List Org.MemberRow) (m : Org.Member)
    → OrgRepo.first_of (OrgRepo.joined us (where_rows p rows)) ≡ some m
    → q m.row ≡ true
    → any_row (λ r. p r && q r) rows ≡ true
unfolding OrgRepo.joined where_rows any_row
org_row p q us [] m h k = cc
org_row p q us (r ∷ rows) m h k = ground (arith, org_row p q us rows m)

project_row :
    (p q : Project.MemberRow → Bool) (us : List User) (rows : List Project.MemberRow)
    (m : Project.Member)
    → ProjectRepo.first_of (ProjectRepo.joined us (where_rows p rows)) ≡ some m
    → q m.row ≡ true
    → any_row (λ r. p r && q r) rows ≡ true
unfolding ProjectRepo.joined where_rows any_row
project_row p q us [] m h k = cc
project_row p q us (r ∷ rows) m h k = ground (arith, project_row p q us rows m)

org_found :
    (i u : ℕ) (w : World Db) (m : Org.Member) (least : Org.Role)
    → (OrgRepo.get_member i u w).0 ≡ ok m
    → leb (org_level least) (org_level m.role) ≡ true
    → has_org_role least w.db i u ≡ true
unfolding OrgRepo.get_member has_org_role
org_found i u w m least h k =
    let (found, same) = wrapped_query-ok _ _ w h in
    org_row (OrgRepo.membership i u) (λ r. leb (org_level least) (org_level r.role)) w.db.users
      w.db.org_members m (row_of _ m found) k

project_found :
    (i u : ℕ) (w : World Db) (m : Project.Member) (least : Project.Role)
    → (ProjectRepo.get_member i u w).0 ≡ ok m
    → leb (project_level least) (project_level m.role) ≡ true
    → has_project_role least w.db i u ≡ true
unfolding ProjectRepo.get_member has_project_role
project_found i u w m least h k =
    let (found, same) = wrapped_query-ok _ _ w h in
    project_row (ProjectRepo.membership i u) (λ r. leb (project_level least) (project_level r.role))
      w.db.users w.db.project_members m (row_of _ m found) k

org_passes :
    (i u v : ℕ) (least : Org.Role) (r : Result Org.Member)
    → role_of
        (λ (x : Org.Role). u)
        (require_org_role (λ o t. role_of (λ (m : Org.Member). m.role) r) least (ok i) u)
      ≡ ok v
    → (m : Org.Member) × (r ≡ ok m) × (leb (org_level least) (org_level m.role) ≡ true) × (u ≡ v)
unfolding require_org_role
org_passes i u v least (err e) h = absurd (cc)
org_passes i u v least (ok m) h = (m, refl, ground arith, ground arith)

project_passes :
    (i u v : ℕ) (least : Project.Role) (r : Result Project.Member)
    → role_of
        (λ (x : Project.Role). u)
        (require_project_role (λ o t. role_of (λ (m : Project.Member). m.role) r) least (ok i) u)
      ≡ ok v
    → (m : Project.Member) × (r ≡ ok m)
      × (leb (project_level least) (project_level m.role) ≡ true)
      × (u ≡ v)
unfolding require_project_role
project_passes i u v least (err e) h = absurd (cc)
project_passes i u v least (ok m) h = (m, refl, ground arith, ground arith)

module _ (site : Site) (req : Request) (at : Moment) where
  -- The guard lets the user `u` pass, who is then `v`.
  abbrev pub Admits : Guard → Params → Db → ℕ → ℕ → Type 0
  Admits signed_in ps d u v = (email : String) × (sender site req at ≡ ok (v, email))
  Admits (org_role least) ps d u v =
      (u ≡ v)
      × ((i : ℕ) × (site.parse_uuid (param "orgId" ps) ≡ some i)
          × (has_org_role least d i u ≡ true))
  Admits (project_role least) ps d u v =
      (u ≡ v)
      × ((i : ℕ) × (site.parse_uuid (param "projectId" ps) ≡ some i)
          × (has_project_role least d i u ≡ true))

  abbrev pub Passes : List Guard → Params → Db → ℕ → ℕ → Type 0
  Passes [] ps d u v = u ≡ v
  Passes (g ∷ gs) ps d u v = (t : ℕ) × Admits g ps d u t × Passes gs ps d t v

  -- A guard reads only.
  db-run_guard :
      (g : Guard) (ps : Params) (u : ℕ) (w : World Db)
      → (run_guard site req at g ps u w).1.db ≡ w.db
  unfolding run_guard OrgRepo.get_member ProjectRepo.get_member query sql map_err ◌>>=◌ uuid_param
  db-run_guard signed_in ps u w = refl
  db-run_guard (org_role least) ps u w = ground arith
  db-run_guard (project_role least) ps u w = ground arith

  run_guard-Admits :
      (g : Guard) (ps : Params) (u v : ℕ) (w : World Db)
      → (run_guard site req at g ps u w).0 ≡ ok v
      → Admits g ps w.db u v
  unfolding run_guard uuid_param ◌>>=◌
  run_guard-Admits signed_in ps u v w h = by_identity (sender site req at) h
    where
      by_identity :
          (r : Result (ℕ × String))
          → role_of (λ (i : ℕ × String). i.0) r ≡ ok v
          → (email : String) × (r ≡ ok (v, email))
      by_identity (err e) h = absurd (cc)
      by_identity (ok (i, email)) h = (email, cc)
  run_guard-Admits (org_role least) ps u v w h =
      elim (Option-cases (site.parse_uuid (param "orgId" ps))) [
        | inl missing ↦ absurd (ground arith)
        | inr (i, given) ↦
            let (m, found, enough, same) =
              org_passes i u v least (OrgRepo.get_member i u w).0 (ground arith) in
            (same, (i, given, org_found i u w m least found enough))
      ]
  run_guard-Admits (project_role least) ps u v w h =
      elim (Option-cases (site.parse_uuid (param "projectId" ps))) [
        | inl missing ↦ absurd (ground arith)
        | inr (i, given) ↦
            let (m, found, enough, same) =
              project_passes i u v least (ProjectRepo.get_member i u w).0 (ground arith) in
            (same, (i, given, project_found i u w m least found enough))
      ]

  -- The request is answered by RespondError, and nothing has changed.
  abbrev pub Refused : World Db → Result Response × World Db → Type 0
  Refused w x = (e : GoError) × (x.0 ≡ ok (error_response e)) × (x.1.db ≡ w.db)

  -- It is refused, or what follows runs for the user that the guards leave, on the same tables.
  abbrev pub Outcome :
      List Guard
      → Params
      → (ℕ → Exec Db Response)
      → ℕ
      → World Db
      → Result Response × World Db
      → Type 0
  Outcome gs ps next u w x =
      Refused w x
      ⊎ ((v : ℕ) × Passes gs ps w.db u v
          × ((later : World Db) × (later.db ≡ w.db) × (x ≡ next v later)))

  after_guard :
      (g : Guard) (gs : List Guard) (ps : Params) (next : ℕ → Exec Db Response) (u : ℕ)
      (w w' : World Db) (r : Result ℕ)
      → w'.db ≡ w.db
      → ((t : ℕ) → r ≡ ok t → Admits g ps w.db u t)
      → ((t : ℕ) → Outcome gs ps next t w' (pass_guards site req at gs ps next t w'))
      → Outcome (g ∷ gs) ps next u w (or_next site req at (pass_guards site req at gs ps next) r w')
  after_guard g gs ps next u w w' (err e) same admits go = inl (e, refl, same)
  after_guard g gs ps next u w w' (ok t) same admits go = elim (go t) [
    | inl (e, answer, kept) ↦ inl (e, answer, kept ∙ same)
    | inr (v, passes, (later, kept, answer)) ↦ inr (
      v,
      (t, admits t refl, subst (λ d. Passes gs ps d t v) same passes),
      (later, kept ∙ same, answer),
    )
  ]

  pub pass_guards-Outcome :
      (gs : List Guard) (ps : Params) (next : ℕ → Exec Db Response) (u : ℕ) (w : World Db)
      → Outcome gs ps next u w (pass_guards site req at gs ps next u w)
  unfolding pass_guards ◌>>=◌
  pass_guards-Outcome [] ps next u w = inr (u, refl, (w, refl, refl))
  pass_guards-Outcome (g ∷ gs) ps next u w =
      let (r, w') = run_guard site req at g ps u w in
      after_guard g gs ps next u w w' r (db-run_guard g ps u w)
        (λ t h. run_guard-Admits g ps u t w h) (λ t. pass_guards-Outcome gs ps next t w')
