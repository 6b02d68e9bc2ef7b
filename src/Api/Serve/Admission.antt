-- ===== src/Api/Serve/Admission.antt =====
-- What the middleware has established when a handler runs: a request is turned away with nothing
-- changed, or every guard of the groups that fit its path, and of its route, is met.
use codity_assignment.Base.{
  refl, List, Option, ℕ, ◌⊎◌, inl, some, ◌≡◌, ◌∷◌, inr, subst, none, ◌∙◌, true, sym, str_eq, false,
  [],
}
use codity_assignment.Api.Site.{Site, Moment}
use codity_assignment.Api.{Request, Params, Response}
use codity_assignment.Api.Serve.{Router, run, through, handle, for_method}
use codity_assignment.Api.Routes.{Guard, Registration, Endpoint, group, route}
use codity_assignment.Exec.{World, Result, ok}
use codity_assignment.Store.{Db}
use codity_assignment.Api.Serve.Guards.{pass_guards-Outcome, Passes, Refused}

module _ (site : Site) (req : Request) (at : Moment) where
  abbrev pub Met : List Guard → Option Params → ℕ → Db → (ℕ → Type 0) → Type 0
  Met gs none u d P = P u
  Met gs (some ps) u d P = (v : ℕ) × Passes site req at gs ps d u v × P v

  abbrev pub Ends :
      List Guard → Endpoint → Option Params → ℕ → Db → Result Response × World Db → Type 0 → Type 0
  Ends gs e none u d x rest = rest
  Ends gs e (some ps) u d x rest =
      (v : ℕ) × Passes site req at gs ps d u v
      × ((later : World Db) × (later.db ≡ d) × (x ≡ handle site req at e ps v later))

  module _ (router : Router) where
    -- The guards on the way, and the handler that answers with `x`, on the tables `d`.
    unfoldable pub Arrives : List Registration → ℕ → Db → Result Response × World Db → Type 0
    Arrives [] u d x = ⊥
    Arrives (group p gs ∷ rs) u d x =
        Met gs (router.matched true p req.path) u d (λ v. Arrives rs v d x)
    Arrives (route m p gs e ∷ rs) u d x =
        Ends gs e (for_method (str_eq m req.method) (router.matched false p req.path)) u d x
          (Arrives rs u d x)

    abbrev pub TurnedAway : World Db → Result Response × World Db → Type 0
    TurnedAway w x = Refused site req at w x ⊎ ((x.0 ≡ ok router.unrouted) × (x.1.db ≡ w.db))

    away_from :
        (w w' : World Db) (x : Result Response × World Db)
        → w'.db ≡ w.db
        → TurnedAway w' x
        → TurnedAway w x
    away_from w w' x same (inl (e, answer, kept)) = inl (e, answer, kept ∙ same)
    away_from w w' x same (inr (answer, kept)) = inr (answer, kept ∙ same)

    group_case :
        (gs : List Guard) (o : Option Params) (rs : List Registration) (u : ℕ) (w : World Db)
        → ((v : ℕ) (w' : World Db)
            → TurnedAway w' (run site req at router rs v w')
              ⊎ Arrives rs v w'.db (run site req at router rs v w'))
        → let x =
            through site req at router gs
              (run site req at router rs)
              (λ ps. run site req at router rs)
              o
              u
              w in
          TurnedAway w x ⊎ Met gs o u w.db (λ v. Arrives rs v w.db x)
    group_case gs none rs u w go = go u w
    group_case gs (some ps) rs u w go =
        elim (pass_guards-Outcome site req at gs ps (run site req at router rs) u w) [
          | inl refused ↦ inl (inl refused)
          | inr (v, passes, (later, kept, answer)) ↦ elim (go v later) [
            | inl away ↦ inl (
                subst (TurnedAway w) (sym answer)
                  (away_from w later (run site req at router rs v later) kept away))
            | inr arrives ↦ inr (
              v,
              passes,
              subst (λ x. Arrives rs v w.db x) (sym answer)
                  (subst (λ d. Arrives rs v d (run site req at router rs v later)) kept arrives),
            )
          ]
        ]

    route_case :
        (gs : List Guard) (e : Endpoint) (o : Option Params) (rs : List Registration) (u : ℕ)
        (w : World Db)
        → (TurnedAway w (run site req at router rs u w)
            ⊎ Arrives rs u w.db (run site req at router rs u w))
        → let x =
            through site req at router gs
              (run site req at router rs)
              (handle site req at e)
              o
              u
              w in
          TurnedAway w x ⊎ Ends gs e o u w.db x (Arrives rs u w.db x)
    route_case gs e none rs u w go = go
    route_case gs e (some ps) rs u w go =
        elim (pass_guards-Outcome site req at gs ps (handle site req at e ps) u w) [
          | inl refused ↦ inl (inl refused)
          | inr reached ↦ inr reached
        ]

    pub run-Arrives :
        (rs : List Registration) (u : ℕ) (w : World Db)
        → TurnedAway w (run site req at router rs u w)
          ⊎ Arrives rs u w.db (run site req at router rs u w)
    unfolding run Arrives
    run-Arrives [] u w = inl (inr (refl, refl))
    run-Arrives (group p gs ∷ rs) u w =
        group_case gs (router.matched true p req.path) rs u w (run-Arrives rs)
    run-Arrives (route m p gs e ∷ rs) u w =
        route_case gs e (for_method (str_eq m req.method) (router.matched false p req.path)) rs u w
          (run-Arrives rs u w)
