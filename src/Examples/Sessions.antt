-- ===== src/Examples/Sessions.antt =====
-- The theorems on sessions at a concrete user, and functions that stand for the libraries.
use Prim.Native.String.{String, [], ◌∷◌}
use codity_assignment.AuthService.Tokens.{Env, Claims, generate_access_token}
use codity_assignment.Domain.User.{User}
use codity_assignment.Base.{
  refl, ◌≡◌, pos, true, ℕ, Bool, suc, eq_iff, if◌then◌else◌, str_eq, false, ◌&&◌, ◌≤◌, zero, ap,
  arith, leb, ==→eq, ◌<◌, ◌==◌, ltb, ◌∙◌, sym, first_row, any_row, quot,
}
use codity_assignment.Exec.{World, Result, err, ok, ◌>>=◌, map_err, query, ◌>>◌}
use codity_assignment.AuthService.{login, LoginResponse, Draws, LoginRequest, refresh, logout}
use codity_assignment.Store.{Db, empty_db}
use codity_assignment.Access.Bearer.{auth_required, bearer_header}
use codity_assignment.AuthService.RoundTrip.{login-auth_required, login-refresh}
use codity_assignment.Errors.{errorf, GoError, app, unauthorized}
use codity_assignment.Examples.{alone}
use codity_assignment.Exec.Laws.{ok_injective}
use codity_assignment.Text.{trim_space, is_space}
use codity_assignment.Retry.{second}
use codity_assignment.AuthService.Sessions.{logout-refresh}
use codity_assignment.UserRepo

abbrev pub anna : User
anna = record {
  id = 3;
  email = "anna@x.io";
  password_hash = "secret";
  full_name = "Anna";
  is_active = true;
  created_at = 0;
  updated_at = 0;
}

-- The text of an id: as many characters as its number.
abbrev pub unary : ℕ → String
unary zero = []
unary (suc n) = "1" ∷ unary n

abbrev pub count_chars : String → ℕ
count_chars [] = 0
count_chars (c ∷ s) = suc (count_chars s)

abbrev pub parse_unary : String → Result ℕ
parse_unary s = ok (count_chars s)

parse-unary : (i : ℕ) → parse_unary (unary i) ≡ ok i
parse-unary zero = refl
parse-unary (suc i) = ap (λ (n : ℕ). ok (suc n)) (chars i)
  where
    chars : (n : ℕ) → count_chars (unary n) ≡ n
    chars zero = refl
    chars (suc n) = ap suc (chars n)

-- The only claims that the stand-in for the JWT library signs.
abbrev pub anna_claims : Claims
anna_claims = record {
  subject = "111";
  issued_at = 500;
  expires_at = 1400;
  not_before = 500;
  issuer = "job-scheduler";
  uid = "111";
  email = "anna@x.io";
}

abbrev pub same_claims : Claims → Bool
same_claims c =
    (str_eq c.subject "111" && c.issued_at == 500)
    && (c.expires_at == 1400 && c.not_before == 500)
    && (str_eq c.issuer "job-scheduler" && str_eq c.uid "111" && str_eq c.email "anna@x.io")

abbrev pub sign_anna : String → Claims → Result String
sign_anna secret c =
    if str_eq secret "s" && same_claims c then ok "jwt" else err (errorf "unknown claims")

abbrev pub with_key : Result String → Bool
with_key (err e) = false
with_key (ok s) = str_eq s "s"

abbrev pub parse_anna : (Bool → Result String) → ℕ → String → Result (Claims × Bool)
parse_anna key now t =
    if (with_key (key true) && str_eq t "jwt") && (leb 500 now && ltb now 1400)
    then ok (anna_claims, true)
    else err (errorf "token is malformed")

abbrev pub env : Env
env = record {
  secret = "s";
  access_ttl = pos 900;
  refresh_ttl = pos 9000;
  to_lower = λ s. s;
  db_lower = λ s. s;
  uuid_text = unary;
  generate_hash = λ s. ok s;
  same_password = λ h p. str_eq h p;
  sha256_hex = λ s. s;
  numeric_date = λ n. n;
  sign = sign_anna;
  parse_claims = parse_anna;
}

claims-same : (c : Claims) → same_claims c ≡ true → c ≡ anna_claims
claims-same c h =
    let p1 = (eq_iff c.subject "111").0 (ground arith) in
    let p2 = ==→eq c.issued_at 500 (ground arith) in
    let p3 = ==→eq c.expires_at 1400 (ground arith) in
    let p4 = ==→eq c.not_before 500 (ground arith) in
    let p5 = (eq_iff c.issuer "job-scheduler").0 (ground arith) in
    let p6 = (eq_iff c.uid "111").0 (ground arith) in
    let p7 = (eq_iff c.email "anna@x.io").0 (ground arith) in
    λ i. record {
      subject = p1 i;
      issued_at = p2 i;
      expires_at = p3 i;
      not_before = p4 i;
      issuer = p5 i;
      uid = p6 i;
      email = p7 i;
    }

chosen :
    {A : Type 0} (b : Bool) (x y : A) (e : GoError)
    → (if b then ok x else err e) ≡ ok y
    → (b ≡ true) × (x ≡ y)
chosen true x y e h = (refl, ok_injective x y h)
chosen false x y e h = absurd (cc)

all_pass :
    (a b c d : Bool) → a ≡ true → b ≡ true → c ≡ true → d ≡ true → ((a && b) && (c && d)) ≡ true
all_pass a b c d h k l m = ground arith

pub opens_anna :
    (secret t : String) (c : Claims) (key : Bool → Result String) (at : ℕ)
    → sign_anna secret c ≡ ok t
    → key true ≡ ok secret
    → c.not_before ≤ at
    → at < c.expires_at
    → parse_anna key at t ≡ ok (c, true)
opens_anna secret t c key at signed given from until =
    let (test, text) = chosen (str_eq secret "s" && same_claims c) "jwt" t _ signed in
    let same = claims-same c (ground arith) in
    let at_key : with_key (key true) ≡ true = ap with_key given ∙ ground arith in
    let start : 500 ≤ at = omega (arith, ap (λ (d : Claims). d.not_before) same, from) in
    let end : at < 1400 = omega (arith, ap (λ (d : Claims). d.expires_at) same, until) in
    let pass =
      all_pass (with_key (key true)) (str_eq t "jwt") (leb 500 at) (ltb at 1400) at_key
        ((eq_iff t "jwt").1 (sym text)) (ground arith) (ground arith) in
    rw pass (ap (λ d. ok (d, true)) (sym same))

abbrev pub draws : Draws
draws = record { token_id = 40; raw = ok "r1"; signed_at = 500; stored_at = 500; created_at = 500 }

abbrev pub credentials : LoginRequest
credentials = record { email = " anna@x.io"; password = "secret"; user_agent = "ua"; ip = "ip" }

abbrev pub before_login : World Db
before_login = record { db = record empty_db { users = alone anna }; calls = 0; down = λ n. false }

abbrev pub answer : LoginResponse
answer = record {
  access_token = "jwt";
  refresh_token = "r1";
  expires_in = pos 0;
  user = record { id = 3; email = "anna@x.io"; full_name = "Anna"; created_at = 0 };
}

pub login_answers : (login env credentials draws before_login).0 ≡ ok answer
unfolding login ◌>>=◌ map_err UserRepo.get_by_email query first_row trim_space is_space ◌>>◌
    UserRepo.create_token any_row quot
login_answers = refl

login-auth_required_example :
    auth_required env parse_unary (bearer_header "jwt") 600 ≡ ok (3, "anna@x.io")
login-auth_required_example =
    login-auth_required env parse_unary credentials draws answer 600 before_login opens_anna
      parse-unary login_answers refl (omega arith) (omega arith)

abbrev logged_in : World Db
logged_in = (login env credentials draws before_login).1

login-refresh_example :
    (refresh env "r1" 700 500 logged_in).0
    ≡ ok (record { access_token = "jwt"; expires_in = quot (pos 900) second })
unfolding login ◌>>=◌ map_err UserRepo.get_by_email query first_row trim_space is_space ◌>>◌
    UserRepo.create_token any_row generate_access_token
login-refresh_example =
    login-refresh env credentials draws answer 700 500 "jwt" before_login logged_in (refl, tt)
      login_answers refl refl refl (omega arith) refl

logout-refresh_example :
    (m : String) × ((refresh env "r1" 700 700 (logout env "r1" logged_in).1).0
      ≡ err (app unauthorized m))
unfolding login ◌>>=◌ map_err UserRepo.get_by_email query first_row trim_space is_space ◌>>◌
    UserRepo.create_token any_row generate_access_token logout UserRepo.get_by_hash
    UserRepo.revoke_by_id
logout-refresh_example = logout-refresh env "r1" 700 700 logged_in refl refl
