-- ===== src/Api/Serve/Promoted.antt =====
-- The role that a member of an organization may give, through the API.
use codity_assignment.Base.{
  refl, any_row, ℕ, update_rows, Option, where_rows, List, ◌≡◌, false, some, arith, ◌&&◌, leb, suc,
  true, ◌∷◌, [], String, Bool, ap, ◌∙◌, subst, sym,
}
use codity_assignment.Store.{Db}
use codity_assignment.Api.Site.{Site, Moment}
use codity_assignment.Exec.{map_err, query, sql, ◌>>=◌, ◌>>◌, World, ok, Result}
use codity_assignment.Api.{Request, uuid_param, Params, param, read_body, finish, reply, Response}
use codity_assignment.Access.{org_level, require_org_role}
use codity_assignment.Api.Serve.{run_guard, handle, serve, run, Router, sender}
use codity_assignment.Domain.User.{User}
use codity_assignment.Api.Routes.{org_role, routes, org_member_role, Segment, signed_in}
use codity_assignment.Api.Serve.Guards.{has_org_role}
use codity_assignment.Api.Serve.Paths.{
  fits, with_method, IsNamed, begins, serve_named, named_router,
}
use codity_assignment.Api.Serve.Enqueued.{pass_one, signed_passes}
use codity_assignment.Access.Bearer.{equal_fold}
use codity_assignment.OrgService
use codity_assignment.OrgRepo
use codity_assignment.Domain.Org
use codity_assignment.Api.OrgHandler

-- The member that the middleware reads.
abbrev pub org_member_of : Db → ℕ → ℕ → Option Org.Member
org_member_of d i u =
    OrgRepo.first_of (OrgRepo.joined d.users (where_rows (OrgRepo.membership i u) d.org_members))

module _ (site : Site) (req : Request) (at : Moment) where
  org_admin_passes :
      (ps : Params) (i u : ℕ) (m : Org.Member) (w : World Db)
      → site.parse_uuid (param "orgId" ps) ≡ some i
      → org_member_of w.db i u ≡ some m
      → m.role ≡ Org.admin
      → w.down w.calls ≡ false
      → run_guard site req at (org_role Org.admin) ps u w ≡ (ok u, record w { calls = suc w.calls })
  unfolding run_guard uuid_param OrgRepo.get_member map_err query sql ◌>>=◌ require_org_role
  org_admin_passes ps i u m w h k a up = rw h (rw up (rw k (rw a refl)))

promoted_row :
    (i u : ℕ) (us : List User) (rows : List Org.MemberRow) (m : Org.Member)
    → OrgRepo.first_of (OrgRepo.joined us (where_rows (OrgRepo.membership i u) rows)) ≡ some m
    → any_row
        (λ (r : Org.MemberRow).
          OrgRepo.membership i u r && leb (org_level Org.owner) (org_level r.role))
        (update_rows (OrgRepo.membership i u) (λ r. record r { role = Org.owner }) rows)
      ≡ true
unfolding any_row update_rows where_rows OrgRepo.joined org_level
promoted_row i u us [] m h = absurd (cc)
promoted_row i u us (r ∷ rows) m h = ground (arith, promoted_row i u us rows m)

role_written :
    (i u : ℕ) (w : World Db)
    → w.down w.calls ≡ false
    → (OrgService.update_member_role i u Org.owner w).1.db.org_members
      ≡ update_rows (OrgRepo.membership i u) (λ r. record r { role = Org.owner }) w.db.org_members
unfolding OrgService.update_member_role OrgRepo.update_member_role OrgRepo.get_member map_err query
    sql ◌>>=◌ ◌>>◌
role_written i u w up = rw up (ground arith)

abbrev promoting : Request → String → String → Request
promoting req o v = record req { method = "PUT"; path = "orgs" ∷ o ∷ "members" ∷ v ∷ "role" ∷ [] }

module _ (site : Site) (req : Request) (at : Moment) where
  role_given :
      (o v : String) (i u t : ℕ) (w : World Db)
      → site.parse_uuid o ≡ some i
      → site.parse_uuid v ≡ some u
      → site.role_body.parse req.text ≡ some Org.owner
      → site.role_body.check Org.owner ≡ []
      → (handle site req at org_member_role (("orgId", o) ∷ ("userId", v) ∷ []) t w).1
        ≡ (OrgService.update_member_role i u Org.owner w).1
  unfolding handle OrgHandler.update_member_role uuid_param param read_body reply
  role_given o v i u t w h k body fields = rw h (rw k (rw body (rw fields refl)))

module _ (site : Site) (req : Request) (at : Moment) (o v : String) where
  member_passes :
      (unrouted : Response) (i u : ℕ) (email : String) (m : Org.Member) (w : World Db)
      → w.down w.calls ≡ false
      → sender site req at ≡ ok (u, email)
      → site.parse_uuid o ≡ some i
      → org_member_of w.db i u ≡ some m
      → m.role ≡ Org.admin
      → run site (promoting req o v) at (named_router unrouted) routes 0 w
        ≡ handle site
            (promoting req o v)
            at
            org_member_role
            (("orgId", o) ∷ ("userId", v) ∷ [])
            u
            (record w { calls = suc w.calls })
  unfolding run routes param begins equal_fold
  member_passes unrouted i u email m w up signed given found admin =
      pass_one site (promoting req o v) at signed_in _ _ 0 u w w
        (signed_passes site (promoting req o v) at _ 0 u email w signed)
      ∙ pass_one site (promoting req o v) at (org_role Org.admin) _ _ u u w
          (record w { calls = suc w.calls })
          (org_admin_passes site (promoting req o v) at _ i u m w given found admin up)

-- An administrator of an organization who asks for the role of an owner for themselves has it
-- afterwards, where the database answers, paths fit as documented, and no part of the path is empty.
pub serve-has_org_role :
    (site : Site) (req : Request) (at : Moment) (router : Router) (w : World Db) (o v : String)
    (i u : ℕ) (email : String) (m : Org.Member)
    → ((prefix : Bool) (pattern : List Segment) (path : List String)
        → router.matched prefix pattern path ≡ fits prefix pattern path)
    → IsNamed req.path
    → ((n : ℕ) → w.down n ≡ false)
    → req.method ≡ "PUT"
    → req.path ≡ "orgs" ∷ o ∷ "members" ∷ v ∷ "role" ∷ []
    → sender site req at ≡ ok (u, email)
    → site.parse_uuid o ≡ some i
    → site.parse_uuid v ≡ some u
    → org_member_of w.db i u ≡ some m
    → m.role ≡ Org.admin
    → site.role_body.parse req.text ≡ some Org.owner
    → site.role_body.check Org.owner ≡ []
    → has_org_role Org.owner (serve site req at router w).1.db i u ≡ true
unfolding serve finish has_org_role
serve-has_org_role site req at router w o v i u email m documented named up put path signed given
      self found admin body fields =
    let w1 : World Db = record w { calls = suc w.calls } in
    let there =
      member_passes site req at o v router.unrouted i u email m w (up _) signed given found admin in
    let tables =
      ap (λ (y : Result Response × World Db). y.1.db.org_members) there
      ∙ ap (λ (x : World Db). x.db.org_members)
          (role_given site (promoting req o v) at o v i u u w1 given self body fields)
      ∙ role_written i u w1 (up _) in
    let has = λ (rows : List Org.MemberRow).
      any_row
        (λ (r : Org.MemberRow).
          OrgRepo.membership i u r && leb (org_level Org.owner) (org_level r.role))
        rows
      ≡ true in
    let shown = subst has (sym tables) (promoted_row i u w.db.users w.db.org_members m found) in
    subst (λ (y : Response × World Db). has y.1.db.org_members)
      (sym (serve_named site req at router w documented named))
      (subst (λ r. has (serve site r at (named_router router.unrouted) w).1.db.org_members)
        (sym (with_method req "PUT" _ put path)) shown)
