-- ===== src/Api/Serve/Founder.antt =====
-- From the login to the first organization, through the API.
use codity_assignment.Base.{
  refl, ◌∷◌, [], ℕ, String, ◌≡◌, some, Bool, true, ◌≤◌, ◌<◌, List, false, str_eq, any_row, ap, ◌∙◌,
  subst, sym,
}
use codity_assignment.Api.Site.{Site, Moment}
use codity_assignment.Api.Serve.{serve, handle, run, Router, sender, pass_guards}
use codity_assignment.Api.{
  Request, finish, read_body, reply, Response, Params, created, organization, uuid_or, answered,
}
use codity_assignment.Api.Routes.{routes, org_create, signed_in, Segment}
use codity_assignment.AuthService.{LoginRequest, Draws, LoginResponse, login}
use codity_assignment.OrgService.{OrgRequest, OrgResponse}
use codity_assignment.Exec.{World, ok, Result}
use codity_assignment.Store.{Db}
use codity_assignment.AuthService.Tokens.{Claims}
use codity_assignment.Api.Serve.Paths.{
  fits, with_method, begins, serve_named, IsNamed, named_router,
}
use codity_assignment.Api.Serve.Enqueued.{pass_one, signed_passes}
use codity_assignment.Retry.{add_time}
use codity_assignment.Access.Bearer.{bearer_header, auth_required, equal_fold}
use codity_assignment.Access.{require_org_role}
use codity_assignment.OrgService.Members.{member_roles}
use codity_assignment.Errors.{app, invalid_input}
use codity_assignment.AuthService.RoundTrip.{login-auth_required}
use codity_assignment.OrgService.Creator.{create-owner}
use codity_assignment.OrgService
use codity_assignment.OrgRepo
use codity_assignment.Domain.Org
use codity_assignment.Api.OrgHandler

module _ (site : Site) (req : Request) (at : Moment) where
  founded :
      (ps : Params) (u : ℕ) (b : OrgRequest) (o : OrgResponse) (w : World Db)
      → site.org_body.parse req.text ≡ some b
      → site.org_body.check b ≡ []
      → (OrgService.create site.auth.to_lower u b at.id at.now at.at w).0 ≡ ok o
      → finish (handle site req at org_create ps u) w ≡ (
        created (organization o),
        (OrgService.create site.auth.to_lower u b at.id at.now at.at w).1,
      )
  unfolding finish handle OrgHandler.create read_body reply
  founded ps u b o w text fields h = rw text (rw fields (rw h refl))

module _ (site : Site) (req : Request) (at : Moment) where
  abbrev founding : Request
  founding = record req { method = "POST"; path = "orgs" ∷ [] }

  founder_passes :
      (unrouted : Response) (u : ℕ) (email : String) (w : World Db)
      → sender site req at ≡ ok (u, email)
      → run site founding at (named_router unrouted) routes 0 w
        ≡ handle site founding at org_create [] u w
  unfolding run routes pass_guards begins equal_fold
  founder_passes unrouted u email w signed =
      pass_one site founding at signed_in _ _ 0 u w w
        (signed_passes site founding at _ 0 u email w signed)

-- A user who has logged in sends the access token with a request for a new organization that the
-- service accepts: the answer is 201 with the organization, and the middleware lets the user pass
-- as its owner from then on, for every least role, while the tables stay so. It is assumed that the
-- token is still valid, that what was signed is parsed as valid between its two instants, that the
-- text of an id is parsed as the id, that no member refers yet to the new id, that the database
-- answers, and that paths fit as documented.
pub login-org_create :
    (site : Site) (req : Request) (at : Moment) (router : Router) (credentials : LoginRequest)
    (draws : Draws) (session : LoginResponse) (before w later : World Db) (b : OrgRequest)
    (o : OrgResponse) (least : Org.Role)
    → ((secret t : String) (c : Claims) (key : Bool → Result String) (now : ℕ)
        → site.auth.sign secret c ≡ ok t
        → key true ≡ ok secret
        → c.not_before ≤ now
        → now < c.expires_at
        → site.auth.parse_claims key now t ≡ ok (c, true))
    → ((i : ℕ) → site.parse_uuid (site.auth.uuid_text i) ≡ some i)
    → ((prefix : Bool) (pattern : List Segment) (path : List String)
        → router.matched prefix pattern path ≡ fits prefix pattern path)
    → ((n : ℕ) → w.down n ≡ false)
    → (login site.auth credentials draws before).0 ≡ ok session
    → str_eq session.access_token "" ≡ false
    → site.auth.numeric_date draws.signed_at ≤ at.now
    → at.now < site.auth.numeric_date (add_time draws.signed_at site.auth.access_ttl)
    → req.authorization ≡ bearer_header session.access_token
    → req.method ≡ "POST"
    → req.path ≡ "orgs" ∷ []
    → site.org_body.parse req.text ≡ some b
    → site.org_body.check b ≡ []
    → any_row (OrgRepo.membership at.id session.user.id) w.db.org_members ≡ false
    → (OrgService.create site.auth.to_lower session.user.id b at.id at.now at.at w).0 ≡ ok o
    → later.db ≡ (serve site req at router w).1.db
    → later.down later.calls ≡ false
    → ((serve site req at router w).0 ≡ created (organization o))
      × (require_org_role (member_roles later) least (ok o.id) session.user.id ≡ ok Org.owner)
unfolding serve finish
login-org_create site req at router credentials draws session before w later b o least opens reads
      documented up entered text from until header post path body fields fresh made kept up' =
    let read = λ (s : String). uuid_or (app invalid_input "uuid") (site.parse_uuid s) in
    let signed =
      ap (λ h. auth_required site.auth read h at.now) header
      ∙ login-auth_required site.auth read credentials draws session at.now before opens
          (λ i. ap (uuid_or (app invalid_input "uuid")) (reads i)) entered text from until in
    let made_by = OrgService.create site.auth.to_lower session.user.id b at.id at.now at.at w in
    let answer =
      ap (λ (y : Result Response × World Db). (answered y.0, y.1))
        (founder_passes site req at router.unrouted session.user.id session.user.email w signed)
      ∙ founded site (founding site req at) at [] session.user.id b o w body fields made in
    let whole : serve site req at router w ≡ (created (organization o), made_by.1) =
      serve_named site req at router w documented (subst IsNamed (sym path) (refl, tt))
      ∙ ap (λ r. serve site r at (named_router router.unrouted) w)
          (with_method req "POST" ("orgs" ∷ []) post path)
      ∙ answer in
    (
      ap (λ (y : Response × World Db). y.0) whole,
      create-owner site.auth.to_lower session.user.id b at.id at.now at.at o least w later fresh up
          made (kept ∙ ap (λ (y : Response × World Db). y.1.db) whole) up',
    )
