-- ===== src/AuthService/Login.antt =====
-- What a login that succeeds has gone through and has left.
use codity_assignment.AuthService.Tokens.{
  Env, hash_refresh_token, generate_access_token, generate_refresh_token,
}
use codity_assignment.Exec.{ok, Result, map_err, World, err, lift, ◌>>◌, Exec, ◌>>=◌, sql, pure}
use codity_assignment.Domain.User.{User}
use codity_assignment.AuthService.{
  open_session, LoginRequest, Draws, LoginResponse, to_user_dto, new_token, login, unauthorized_as,
  admit,
}
use codity_assignment.Errors.{GoError, app_caused, internal, wrapf}
use codity_assignment.Base.{
  String, ◌≡◌, arith, ap, sym, ◌∙◌, refl, quot, first_row, str_eq, some, true, subst,
}
use codity_assignment.Store.{Db}
use codity_assignment.Exec.Laws.{
  bind-ok, map_err-ok, wrapped_sql-ok, wrapped_query-ok, row_of, ok_injective,
}
use codity_assignment.Retry.{second}
use codity_assignment.Text.{trim_space}
use codity_assignment.UserRepo

lifted-ok :
    {A : Type 0} (g : GoError → GoError) (r : Result A) (w : World Db) {a : A}
    → (map_err g (lift r) w).0 ≡ ok a
    → (r ≡ ok a) × ((map_err g (lift r) w).1 ≡ w)
unfolding map_err
lifted-ok g r w h = ground arith

-- Two values that may fail, and a statement that is given them.
module _ {A B R : Type 0} (g1 g2 g3 g4 : GoError → GoError) where
  abbrev chain :
      Result A → Result B → (A → B → Db → Result (Unit {0}) × Db) → (A → B → R) → Exec Db R
  chain r1 r2 f k = map_err g1 (lift r1) >>= λ a.
      map_err g2 (lift r2) >>= λ b. map_err g3 (map_err g4 (sql (f a b))) >>= λ _. pure (k a b)

  chain-ok :
      (r1 : Result A) (r2 : Result B) (f : A → B → Db → Result (Unit {0}) × Db) (k : A → B → R)
      (w : World Db) (resp : R)
      → (chain r1 r2 f k w).0 ≡ ok resp
      → (a : A) × ((b : B) × ((r1 ≡ ok a)
            × (r2 ≡ ok b)
            × (resp ≡ k a b)
            × (f a b w.db ≡ (ok tt, (chain r1 r2 f k w).1.db))))
  unfolding ◌>>=◌ map_err
  chain-ok (err e) r2 f k w resp h = absurd (cc)
  chain-ok (ok a) (err e) f k w resp h = absurd (cc)
  chain-ok (ok a) (ok b) f k w resp h =
      let statement : Exec Db (Unit {0}) = map_err g3 (map_err g4 (sql (f a b))) in
      let (u, done, same, last) = bind-ok statement (λ _. pure (k a b)) w h in
      let (inner, kept) = map_err-ok g3 (map_err g4 (sql (f a b))) w done in
      let (result, after) = wrapped_sql-ok g4 (f a b) w inner in
      let end : (f a b w.db).1 ≡ ((statement >>= λ _. pure (k a b)) w).1.db = sym (
        ap (λ (p : Result R × World Db). p.1.db) same ∙ ap (λ (v : World Db). v.db) kept ∙ after) in
      (a, (b, (refl, refl, sym (ok_injective _ _ last), λ i. (result i, end i))))

module _ (env : Env) where
  pair_ok :
      (r : Result String) (p : String × String)
      → generate_refresh_token env r ≡ ok p
      → (r ≡ ok p.0) × (p.1 ≡ hash_refresh_token env p.0)
  unfolding generate_refresh_token hash_refresh_token
  pair_ok (err e) p h = absurd (cc)
  pair_ok (ok raw) p h =
      let e = ok_injective (raw, env.sha256_hex raw) p h in
      (
        ap (λ (q : String × String). ok q.0) e,
        ap (λ (q : String × String). q.1) (sym e)
            ∙ ap (λ (q : String × String). env.sha256_hex q.0) e,
      )

  -- What holds of a session that was opened for a user.
  abbrev Opened : User → LoginRequest → Draws → LoginResponse → Db → Db → Type 0
  Opened u req draws resp before after =
      (generate_access_token env u.id u.email draws.signed_at ≡ ok resp.access_token)
      × (draws.raw ≡ ok resp.refresh_token)
      × (resp.user ≡ to_user_dto u)
      × ((UserRepo.insert_token
            (new_token env u.id (hash_refresh_token env resp.refresh_token) req draws) before)
          ≡ (ok tt, after))

  open_session-ok :
      (u : User) (req : LoginRequest) (draws : Draws) (resp : LoginResponse) (w : World Db)
      → (open_session env u req draws w).0 ≡ ok resp
      → Opened u req draws resp w.db (open_session env u req draws w).1.db
  unfolding open_session ◌>>◌ UserRepo.create_token
  open_session-ok u req draws resp w h =
      let (access, (pair, (signed, drawn, answer, stored))) =
        chain-ok (app_caused internal "could not generate access token")
          (app_caused internal "could not generate refresh token")
          (app_caused internal "could not store refresh token") (wrapf "create refresh token")
          (generate_access_token env u.id u.email draws.signed_at)
          (generate_refresh_token env draws.raw)
          (λ _ p. UserRepo.insert_token (new_token env u.id p.1 req draws))
          (λ a p. record {
            access_token = a;
            refresh_token = p.0;
            expires_in = quot env.access_ttl second;
            user = to_user_dto u;
          })
          w resp h in
      let (raw, hash) = pair_ok draws.raw pair drawn in
      (
        signed ∙ ap (λ (r : LoginResponse). ok r.access_token) (sym answer),
        raw ∙ ap (λ (r : LoginResponse). ok r.refresh_token) (sym answer),
        ap (λ (r : LoginResponse). r.user) answer,
        ap (λ x. UserRepo.insert_token (new_token env u.id x req draws) w.db)
              (ap (λ (r : LoginResponse). hash_refresh_token env r.refresh_token) answer ∙ sym hash)
            ∙ stored,
      )

  admit-ok :
      (req : LoginRequest) (draws : Draws) (u : User) (resp : LoginResponse) (w : World Db)
      → (admit env req draws u w).0 ≡ ok resp
      → (u.is_active ≡ true)
        × (env.same_password u.password_hash req.password ≡ true)
        × (admit env req draws u w ≡ open_session env u req draws w)
  admit-ok req draws u resp w h = ground arith

  -- A login succeeds only for the first user with the given email, where that user is active and the
  -- password is the user's. It returns the user and a signed access token, and stores the hash of the
  -- refresh token that it returns, and nothing else.
  pub login-ok :
      (req : LoginRequest) (draws : Draws) (resp : LoginResponse) (w : World Db)
      → (login env req draws w).0 ≡ ok resp
      → (u : User) × ((first_row
              (λ (v : User). str_eq v.email (env.db_lower (env.to_lower (trim_space req.email))))
              w.db.users
            ≡ some u)
          × (u.is_active ≡ true)
          × (env.same_password u.password_hash req.password ≡ true)
          × Opened u req draws resp w.db (login env req draws w).1.db)
  unfolding login UserRepo.get_by_email
  login-ok req draws resp w h =
      let (u, found, same, rest) =
        bind-ok
          (map_err (unauthorized_as "invalid credentials")
            (UserRepo.get_by_email env.db_lower (env.to_lower (trim_space req.email))))
          (admit env req draws) w h in
      let (inner, kept) =
        map_err-ok (unauthorized_as "invalid credentials")
          (UserRepo.get_by_email env.db_lower (env.to_lower (trim_space req.email))) w found in
      let (row, before) = wrapped_query-ok _ _ w inner in
      let w' =
        (map_err (unauthorized_as "invalid credentials")
          (UserRepo.get_by_email env.db_lower (env.to_lower (trim_space req.email))) w).1 in
      let (active, password, run) = admit-ok req draws u resp w' rest in
      let opened =
        open_session-ok u req draws resp w'
          (sym (ap (λ (p : Result LoginResponse × World Db). p.0) run) ∙ rest) in
      let kept' : w'.db ≡ w.db = ap (λ (v : World Db). v.db) kept ∙ before in
      let after : (open_session env u req draws w').1.db ≡ (login env req draws w).1.db =
        ap (λ (p : Result LoginResponse × World Db). p.1.db) (sym run ∙ sym same) in
      (
        u,
        (
          row_of _ u row,
          active,
          password,
          subst (λ d. Opened u req draws resp d (login env req draws w).1.db) kept'
              (subst (Opened u req draws resp w'.db) after opened),
        ),
      )
