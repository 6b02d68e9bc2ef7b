-- ===== src/AuthService/RoundTrip.antt =====
-- What a client can do with the two tokens that a login gave it.
use codity_assignment.AuthService.Tokens.{
  Env, hash_refresh_token, generate_access_token, claims_of, key_for, validate_access_token, Claims,
}
use mathlib.Core.List.{Memᴰ}
use codity_assignment.AuthService.{
  refresh, to_user_dto, LoginRequest, Draws, LoginResponse, login, UserDto, new_token,
}
use codity_assignment.Domain.User.{RefreshToken, User, is_valid, is_expired}
use codity_assignment.Base.{
  ℕ, String, first_row, ◌≡◌, any_row, Bool, List, false, true, some, str_eq, arith, ◌++◌, ◌∷◌, [],
  Bool-cases, inl, ◌≤◌, refl, inr, ◌<◌, suc, quot, ap, sym, ◌∙◌, eq_iff,
}
use codity_assignment.Access.Bearer.{auth_required, bearer_header, extract_bearer_token-header}
use codity_assignment.Exec.{map_err, query, Result, ok, sql, ◌>>=◌, World}
use codity_assignment.Store.{Db}
use codity_assignment.Retry.{add_time, second}
use codity_assignment.AuthService.Login.{login-ok}
use codity_assignment.Tables.{Distinct, first-mem}
use codity_assignment.UserRepo

signed_as :
    (env : Env) (i : ℕ) (email : String) (at : ℕ) (t : String)
    → generate_access_token env i email at ≡ ok t
    → env.sign env.secret (claims_of env i email at) ≡ ok t
unfolding generate_access_token
signed_as env i email at t h = ground arith

validated :
    (env : Env) (t : String) (now : ℕ) (c : Claims)
    → env.parse_claims (key_for env) now t ≡ ok (c, true)
    → validate_access_token env t now ≡ ok c
unfolding validate_access_token
validated env t now c h = rw h refl

-- The access token of a login, sent in the header, carries the request on as the user that logged in,
-- as long as it is valid. It is assumed that what was signed with a secret is parsed with it as valid
-- between its two instants, and that the text of an id is parsed as the id.
pub login-auth_required :
    (env : Env) (parse_uuid : String → Result ℕ) (req : LoginRequest) (draws : Draws)
    (resp : LoginResponse) (now : ℕ) (w : World Db)
    → ((secret t : String) (c : Claims) (key : Bool → Result String) (at : ℕ)
        → env.sign secret c ≡ ok t
        → key true ≡ ok secret
        → c.not_before ≤ at
        → at < c.expires_at
        → env.parse_claims key at t ≡ ok (c, true))
    → ((i : ℕ) → parse_uuid (env.uuid_text i) ≡ ok i)
    → (login env req draws w).0 ≡ ok resp
    → str_eq resp.access_token "" ≡ false
    → env.numeric_date draws.signed_at ≤ now
    → now < env.numeric_date (add_time draws.signed_at env.access_ttl)
    → auth_required env parse_uuid (bearer_header resp.access_token) now
      ≡ ok (resp.user.id, resp.user.email)
unfolding auth_required to_user_dto
login-auth_required env parse_uuid req draws resp now w opens reads h text from until =
    let (u, (found, active, password, (signed, drawn, user, stored))) =
      login-ok env req draws resp w h in
    let c = claims_of env u.id u.email draws.signed_at in
    let valid = validated env resp.access_token now c (
      opens env.secret resp.access_token c (key_for env) now
        (signed_as env u.id u.email draws.signed_at resp.access_token signed) refl from until) in
    rw (extract_bearer_token-header resp.access_token text)
      (rw valid (rw (reads u.id) (ap (λ (v : UserDto). ok (v.id, v.email)) (sym user))))

first-append :
    {A : Type 0} (p : A → Bool) (xs : List A) (x : A)
    → any_row p xs ≡ false
    → p x ≡ true
    → first_row p (xs ++ x ∷ []) ≡ some x
unfolding first_row any_row
first-append p [] x h k = rw k refl
first-append p (y ∷ ys) x h k = ground (arith, first-append p ys x)

first-Mem : {A : Type 0} (p : A → Bool) (xs : List A) (x : A) → first_row p xs ≡ some x → Memᴰ x xs
unfolding first_row
first-Mem p [] x h = absurd (cc)
first-Mem p (y ∷ ys) x h = elim (Bool-cases (p y)) [
  | inl e ↦ Memᴰ.head (ground arith)
  | inr e ↦ Memᴰ.tail (first-Mem p ys x (ground arith))
]

new_row_of :
    (t : RefreshToken) (d d' : Db)
    → UserRepo.insert_token t d ≡ (ok tt, d')
    → (any_row (λ (o : RefreshToken). str_eq o.token_hash t.token_hash) d.refresh_tokens ≡ false)
      × (d' ≡ record d { refresh_tokens = d.refresh_tokens ++ t ∷ [] })
unfolding UserRepo.insert_token
new_row_of t d d' h = ground arith

token_stored :
    (t : RefreshToken) (d d' : Db)
    → UserRepo.insert_token t d ≡ (ok tt, d')
    → (first_row (λ (o : RefreshToken). str_eq o.token_hash t.token_hash) d'.refresh_tokens
        ≡ some t)
      × (d'.users ≡ d.users)
token_stored t d d' h =
    let (fresh, made) = new_row_of t d d' h in
    (
      ap
            (λ (e : Db).
              first_row (λ (o : RefreshToken). str_eq o.token_hash t.token_hash) e.refresh_tokens)
            made
          ∙ first-append (λ (o : RefreshToken). str_eq o.token_hash t.token_hash) d.refresh_tokens t
              fresh ((eq_iff t.token_hash t.token_hash).1 refl),
      ap (λ (e : Db). e.users) made,
    )

fresh_valid :
    (t : RefreshToken) (now : ℕ) → t.revoked ≡ false → now ≤ t.expires_at → is_valid t now ≡ true
unfolding is_valid is_expired
fresh_valid t now r e = ground arith

refresh_valid :
    (env : Env) (raw : String) (now at : ℕ) (w : World Db) (rt : RefreshToken) (u : User)
    (access : String)
    → first_row (λ t. str_eq t.token_hash (hash_refresh_token env raw)) w.db.refresh_tokens
      ≡ some rt
    → is_valid rt now ≡ true
    → first_row (UserRepo.user_has_id rt.user_id) w.db.users ≡ some u
    → u.is_active ≡ true
    → generate_access_token env u.id u.email at ≡ ok access
    → w.down w.calls ≡ false
    → w.down (suc w.calls) ≡ false
    → (refresh env raw now at w).0
      ≡ ok (record { access_token = access; expires_in = quot env.access_ttl second })
unfolding refresh UserRepo.get_by_hash UserRepo.get_by_id map_err query sql ◌>>=◌
refresh_valid env raw now at w rt u access f v g a s up up' =
    rw up (rw f (rw v (rw up' (rw g (rw a (rw s refl))))))

-- The refresh token of a login is exchanged for a new access token of the same user, at any time up
-- to its end, where the tables are still those of the login, the database answers and the token is
-- signed. The users of the table have different ids.
pub login-refresh :
    (env : Env) (req : LoginRequest) (draws : Draws) (resp : LoginResponse) (now at : ℕ)
    (access : String) (w later : World Db)
    → Distinct (λ (u : User). u.id) w.db.users
    → (login env req draws w).0 ≡ ok resp
    → later.db ≡ (login env req draws w).1.db
    → later.down later.calls ≡ false
    → later.down (suc later.calls) ≡ false
    → now ≤ add_time draws.stored_at env.refresh_ttl
    → generate_access_token env resp.user.id resp.user.email at ≡ ok access
    → (refresh env resp.refresh_token now at later).0
      ≡ ok (record { access_token = access; expires_in = quot env.access_ttl second })
unfolding to_user_dto new_token
login-refresh env req draws resp now at access w later distinct h kept up up' before sign =
    let (u, (found, active, password, (signed, drawn, user, stored))) =
      login-ok env req draws resp w h in
    let t = new_token env u.id (hash_refresh_token env resp.refresh_token) req draws in
    let (row, users) = token_stored t w.db (login env req draws w).1.db stored in
    let same =
      first-mem (λ (v : User). v.id) u w.db.users distinct (first-Mem _ w.db.users u found) in
    refresh_valid env resp.refresh_token now at later t u access
      (ap
          (λ (d : Db).
            first_row (λ (o : RefreshToken). str_eq o.token_hash t.token_hash) d.refresh_tokens)
          kept
        ∙ row)
      (fresh_valid t now refl before)
      (ap (λ (d : Db). first_row (UserRepo.user_has_id u.id) d.users) kept
        ∙ ap (first_row (UserRepo.user_has_id u.id)) users
        ∙ same)
      active (ap (λ (v : UserDto). generate_access_token env v.id v.email at) (sym user) ∙ sign) up
      up'
