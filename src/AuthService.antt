-- ===== src/AuthService.antt =====
-- backend/internal/service/auth/service.go and token.go. bcrypt, the JWT library, the hash of a
-- refresh token, and the functions of Go and of the database that make a text small are parameters.
pub mod Tokens
pub mod Login
pub mod RoundTrip
pub mod Sessions
use codity_assignment.Domain.User.{User, RefreshToken, is_valid}
use codity_assignment.Base.{String, ℕ, ℤ, if◌then◌else◌, false, not, true, quot, pos}
use codity_assignment.AuthService.Tokens.{
  Env, hash_refresh_token, generate_access_token, generate_refresh_token,
}
use codity_assignment.Exec.{Exec, Result, ◌>>=◌, err, map_err, pure, attempt, raise, ok, lift, ◌>>◌}
use codity_assignment.Errors.{GoError, app, unauthorized, wrapf, app_caused, internal}
use codity_assignment.Retry.{add_time, second}
use codity_assignment.Store.{Db}
use codity_assignment.Text.{trim_space}
use codity_assignment.UserRepo

-- RegisterRequest, LoginRequest and the caller of Login.
pub record RegisterRequest : Type 0 where
  pub email : String
  pub password : String
  pub full_name : String

pub record LoginRequest : Type 0 where
  pub email : String
  pub password : String
  pub user_agent : String
  pub ip : String

pub record UserDto : Type 0 where
  pub id : ℕ
  pub email : String
  pub full_name : String
  pub created_at : ℕ

pub record LoginResponse : Type 0 where
  pub access_token : String
  pub refresh_token : String
  pub expires_in : ℤ
  pub user : UserDto

pub record RefreshResponse : Type 0 where
  pub access_token : String
  pub expires_in : ℤ

unfoldable pub to_user_dto : User → UserDto
to_user_dto u = record {
  id = u.id;
  email = u.email;
  full_name = u.full_name;
  created_at = u.created_at;
}

-- What one login takes from outside: `uuid.New()`, the random text of the refresh token, and the clock
-- at the signature, at the computation of the expiry and at the creation.
pub record Draws : Type 0 where
  pub token_id : ℕ
  pub raw : Result String
  pub signed_at : ℕ
  pub stored_at : ℕ
  pub created_at : ℕ

abbrev pub unauthorized_as : String → GoError → GoError
unauthorized_as m e = app unauthorized m

module _ (env : Env) where
  unfoldable pub register : RegisterRequest → ℕ → ℕ → Exec Db UserDto
  unfolding to_user_dto
  register req i now = do
    hash ← map_err (wrapf "hash password") (lift (env.generate_hash req.password))
    let u : User = record {
      id = i;
      email = env.to_lower (trim_space req.email);
      password_hash = hash;
      full_name = trim_space req.full_name;
      is_active = true;
      created_at = now;
      updated_at = now;
    }
    UserRepo.create u
    pure (to_user_dto u)

  -- The record that Login stores.
  unfoldable pub new_token : ℕ → String → LoginRequest → Draws → RefreshToken
  new_token user_id hash req draws = record {
    id = draws.token_id;
    user_id = user_id;
    token_hash = hash;
    expires_at = add_time draws.stored_at env.refresh_ttl;
    revoked = false;
    user_agent = req.user_agent;
    ip_address = req.ip;
    created_at = draws.created_at;
  }

  -- Login, from the generation of the access token on.
  unfoldable pub open_session : User → LoginRequest → Draws → Exec Db LoginResponse
  unfolding generate_access_token generate_refresh_token new_token to_user_dto
  open_session u req draws = do
    access ←
        map_err (app_caused internal "could not generate access token")
          (lift (generate_access_token env u.id u.email draws.signed_at))
    pair ←
        map_err (app_caused internal "could not generate refresh token")
          (lift (generate_refresh_token env draws.raw))
    map_err (app_caused internal "could not store refresh token")
        (UserRepo.create_token (new_token u.id pair.1 req draws))
    pure (record {
      access_token = access;
      refresh_token = pair.0;
      expires_in = quot env.access_ttl second;
      user = to_user_dto u;
    })

  -- Login, once the user is found.
  abbrev pub admit : LoginRequest → Draws → User → Exec Db LoginResponse
  admit req draws u =
      if not u.is_active
      then raise (app unauthorized "account is deactivated")
      else if not (env.same_password u.password_hash req.password)
      then raise (app unauthorized "invalid credentials")
      else open_session u req draws

  unfoldable pub login : LoginRequest → Draws → Exec Db LoginResponse
  unfolding open_session
  login req draws = do
    u ←
        map_err (unauthorized_as "invalid credentials")
          (UserRepo.get_by_email env.db_lower (env.to_lower (trim_space req.email)))
    admit req draws u

  abbrev only_active : User → Exec Db User
  only_active u =
      if not u.is_active then raise (app unauthorized "user account no longer active") else pure u

  unfoldable pub refresh : String → ℕ → ℕ → Exec Db RefreshResponse
  unfolding hash_refresh_token is_valid generate_access_token
  refresh raw now signed_at = do
    rt ←
        map_err (unauthorized_as "invalid refresh token")
          (UserRepo.get_by_hash (hash_refresh_token env raw))
    if not (is_valid rt now)
        then raise (app unauthorized "refresh token has expired or been revoked")
        else (do
          u ←
              map_err (unauthorized_as "user account no longer active")
                (UserRepo.get_by_id rt.user_id)
          active ← only_active u
          access ←
              map_err (app_caused internal "could not generate access token")
                (lift (generate_access_token env active.id active.email signed_at))
          pure (record { access_token = access; expires_in = quot env.access_ttl second }))

  abbrev revoke_found : Result RefreshToken → Exec Db (Unit {0})
  revoke_found (err e) = pure tt
  revoke_found (ok rt) = UserRepo.revoke_by_id rt.id

  unfoldable pub logout : String → Exec Db (Unit {0})
  unfolding hash_refresh_token
  logout raw = do
    found ← attempt (UserRepo.get_by_hash (hash_refresh_token env raw))
    revoke_found found

unfoldable pub logout_all : ℕ → Exec Db (Unit {0})
logout_all user_id = UserRepo.revoke_all_for_user user_id
