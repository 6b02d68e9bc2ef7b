-- ===== src/Api/Serve/Paths.antt =====
-- Which paths fit a pattern, as the HTTP framework documents it: a group fits every path that begins
-- with its prefix, a route the whole path; a parameter takes one part.
use Prim.Native.Char.{code}
use codity_assignment.Base.{
  [], inl, inr, refl, String, Bool, Option, List, some, ◌∷◌, none, ◌≤◌, ◌≡◌, ◌⊎◌, inr,
  if◌then◌else◌, str_eq, ap, fun_ext, ◌∙◌, true, All, ℕ, false, ◌==◌, ◌&&◌,
}
use codity_assignment.Api.Site.{Site, Moment}
use codity_assignment.Api.{Request, Params, error_response, finish, Response, answered}
use codity_assignment.Api.Routes.{Segment, routes, fixed, variable, Registration, group, route}
use codity_assignment.Api.Serve.{Router, serve, run}
use codity_assignment.Errors.{GoError}
use codity_assignment.Exec.{World, Result, Exec}
use codity_assignment.Errors.Status.{respond_error_status}
use codity_assignment.Store.{Db}
use codity_assignment.Api.Serve.Admission.{Arrives, run-Arrives}
use codity_assignment.Access.Bearer.{equal_fold, small}

abbrev pub captured : String → String → Option Params → Option Params
captured name value none = none
captured name value (some ps) = some ((name, value) ∷ ps)

-- The text goes on from the prefix, whatever the case of its letters.
unfoldable pub begins : String → String → Bool
begins String.[] s = true
begins (String.◌∷◌ c t) String.[] = false
begins (String.◌∷◌ c t) (String.◌∷◌ d s) = small (code c) == small (code d) && begins t s

test_begins : begins "queues" "QueuesX" ≡ true
unfolding begins
test_begins = refl

-- The last fixed part of a group may be a prefix of the part of the path; a parameter is not empty.
-- The case of letters is ignored, since the application sets no CaseSensitive. `path` are the parts
-- of the path below the prefix of the API, without a final slash, since it sets no StrictRouting.
unfoldable pub fits : Bool → List Segment → List String → Option Params
unfolding begins equal_fold
fits prefix [] [] = some []
fits prefix [] (s ∷ path) = if prefix then some [] else none
fits prefix (fixed t ∷ []) (s ∷ path) =
    let rest = fits prefix [] path in
    if prefix
    then (if begins t s then some [] else none)
    else (if equal_fold t s then rest else none)
fits prefix (fixed t ∷ u ∷ p) (s ∷ path) =
    let rest = fits prefix (u ∷ p) path in if equal_fold t s then rest else none
fits prefix (variable n ∷ p) (s ∷ path) =
    let rest = fits prefix p path in if str_eq s "" then none else captured n s rest
fits prefix (_ ∷ _) [] = none

-- The same where no part of the path is empty.
abbrev pub fits_named : Bool → List Segment → List String → Option Params
fits_named prefix [] [] = some []
fits_named prefix [] (s ∷ path) = if prefix then some [] else none
fits_named prefix (fixed t ∷ []) (s ∷ path) =
    let rest = fits_named prefix [] path in
    if prefix
    then (if begins t s then some [] else none)
    else (if equal_fold t s then rest else none)
fits_named prefix (fixed t ∷ u ∷ p) (s ∷ path) =
    let rest = fits_named prefix (u ∷ p) path in if equal_fold t s then rest else none
fits_named prefix (variable n ∷ p) (s ∷ path) = captured n s (fits_named prefix p path)
fits_named prefix (_ ∷ _) [] = none

abbrev pub IsNamed : List String → Type 0
IsNamed = All (λ s. str_eq s "" ≡ false)

fits-named :
    (prefix : Bool) (p : List Segment) (path : List String)
    → IsNamed path
    → fits prefix p path ≡ fits_named prefix p path
unfolding fits
fits-named prefix [] [] h = refl
fits-named prefix [] (s ∷ path) h = refl
fits-named prefix (fixed t ∷ []) (s ∷ path) h = rw (fits-named prefix [] path h.1) refl
fits-named prefix (fixed t ∷ u ∷ p) (s ∷ path) h = rw (fits-named prefix (u ∷ p) path h.1) refl
fits-named prefix (variable n ∷ p) (s ∷ path) h = rw (h.0, fits-named prefix p path h.1) refl
fits-named prefix (fixed t ∷ []) [] h = refl
fits-named prefix (fixed t ∷ u ∷ p) [] h = refl
fits-named prefix (variable n ∷ p) [] h = refl

module _ (site : Site) (req : Request) (at : Moment) (router : Router) where
  refused_status : (e : GoError) → 400 ≤ (error_response e).status
  unfolding error_response
  refused_status e = let (a, b, c, d) = respond_error_status e in d

  -- Turned away with nothing changed, or answered by the handler that the request arrives at.
  pub serve-Arrives :
      (w : World Db)
      → 400 ≤ router.unrouted.status
      → ((400 ≤ (serve site req at router w).0.status) × ((serve site req at router w).1.db ≡ w.db))
        ⊎ ((x : Result Response × World Db) × (serve site req at router w ≡ (answered x.0, x.1))
            × Arrives site req at router routes 0 w.db x)
  unfolding serve finish
  serve-Arrives w h = elim (run-Arrives site req at router routes 0 w) [
    | inr arrives ↦ inr (run site req at router routes 0 w, refl, arrives)
    | inl (inl (e, answer, kept)) ↦ inl (rw answer (refused_status e), kept)
    | inl (inr (answer, kept)) ↦ inl (rw answer h, kept)
  ]

abbrev pub named_router : Response → Router
named_router unrouted = record { matched = fits_named; unrouted = unrouted }

-- Requests are served alike by routers that match the path of the request alike.
run_alike :
    (site : Site) (req : Request) (at : Moment) (router : Router)
    → ((prefix : Bool) (p : List Segment)
        → router.matched prefix p req.path ≡ fits_named prefix p req.path)
    → (rs : List Registration) (user : ℕ)
    → run site req at router rs user ≡ run site req at (named_router router.unrouted) rs user
unfolding run
run_alike site req at router h [] user = refl
run_alike site req at router h (group p gs ∷ rs) user =
    rw (h true p, fun_ext (run_alike site req at router h rs)) refl
run_alike site req at router h (route m p gs e ∷ rs) user =
    rw (h false p, fun_ext (run_alike site req at router h rs)) refl

-- The framework, on a path that has no empty part.
pub serve_named :
    (site : Site) (req : Request) (at : Moment) (router : Router) (w : World Db)
    → ((prefix : Bool) (p : List Segment) (path : List String)
        → router.matched prefix p path ≡ fits prefix p path)
    → IsNamed req.path
    → serve site req at router w ≡ serve site req at (named_router router.unrouted) w
unfolding serve
serve_named site req at router w documented named =
    ap (λ (m : Exec Db Response). finish m w)
      (run_alike site req at router
        (λ prefix p. documented prefix p req.path ∙ fits-named prefix p req.path named) routes 0)

pub with_path :
    (req : Request) (path : List String) → req.path ≡ path → req ≡ record req { path = path }
with_path req path h = ap (λ s. record req { path = s }) h

pub with_method :
    (req : Request) (method : String) (path : List String)
    → req.method ≡ method
    → req.path ≡ path
    → req ≡ record req { method = method; path = path }
with_method req method path h e =
    ap (λ s. record req { method = s }) h ∙ ap (λ s. record req { method = method; path = s }) e
