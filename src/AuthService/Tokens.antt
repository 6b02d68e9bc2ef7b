-- ===== src/AuthService/Tokens.antt =====
-- backend/internal/service/auth/token.go, and the parts of the environment that the authentication
-- relies on. An instant that goes into a token is rounded by `numeric_date`.
use codity_assignment.Base.{String, ℕ, Bool, if◌then◌else◌, ℤ, not}
use codity_assignment.Exec.{Result, on_error, err, ok}
use codity_assignment.Retry.{add_time}
use codity_assignment.Errors.{wrapf, errorf}

pub record Claims : Type 0 where
  pub subject : String
  pub issued_at : ℕ
  pub expires_at : ℕ
  pub not_before : ℕ
  pub issuer : String
  pub uid : String
  pub email : String

-- The configuration of the tokens, and the functions of other packages. `parse_claims` is
-- ParseWithClaims: it is given the callback that chooses the key by whether the method is an HMAC,
-- and the clock; with the claims it returns `token.Valid`.
pub record Env : Type 0 where
  pub secret : String
  pub access_ttl : ℤ
  pub refresh_ttl : ℤ
  pub to_lower : String → String
  pub db_lower : String → String
  pub uuid_text : ℕ → String
  pub generate_hash : String → Result String
  pub same_password : String → String → Bool
  pub sha256_hex : String → String
  pub numeric_date : ℕ → ℕ
  pub sign : String → Claims → Result String
  pub parse_claims : (Bool → Result String) → ℕ → String → Result (Claims × Bool)

abbrev wrapped : {A : Type 0} → String → Result A → Result A
wrapped m = on_error (wrapf m)

module _ (env : Env) where
  abbrev pub claims_of : ℕ → String → ℕ → Claims
  claims_of user_id email now = record {
    subject = env.uuid_text user_id;
    issued_at = env.numeric_date now;
    expires_at = env.numeric_date (add_time now env.access_ttl);
    not_before = env.numeric_date now;
    issuer = "job-scheduler";
    uid = env.uuid_text user_id;
    email = email;
  }

  unfoldable pub generate_access_token : ℕ → String → ℕ → Result String
  generate_access_token user_id email now =
      wrapped "sign access token" (env.sign env.secret (claims_of user_id email now))

  -- The callback that gives the key.
  abbrev pub key_for : Bool → Result String
  key_for is_hmac = if not is_hmac then err (errorf "unexpected signing method") else ok env.secret

  abbrev checked : Claims × Bool → Result Claims
  checked (c, valid) = if not valid then err (errorf "invalid token claims") else ok c

  abbrev pub claims_in : Result (Claims × Bool) → Result Claims
  claims_in (err e) = err e
  claims_in (ok parsed) = checked parsed

  unfoldable pub validate_access_token : String → ℕ → Result Claims
  validate_access_token token now =
      claims_in (wrapped "parse token" (env.parse_claims key_for now token))

  unfoldable pub hash_refresh_token : String → String
  hash_refresh_token raw = env.sha256_hex raw

  -- The raw token and its hash; `raw` is the text of the random bytes.
  unfoldable pub generate_refresh_token : Result String → Result (String × String)
  generate_refresh_token raw = elim (wrapped "generate random bytes" raw) [
    | err e ↦ err e
    | ok r ↦ ok (r, env.sha256_hex r)
  ]
