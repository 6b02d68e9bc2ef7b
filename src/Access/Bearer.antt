-- ===== src/Access/Bearer.antt =====
-- backend/internal/middleware/auth.go: extractBearerToken and AuthRequired. A header that is not
-- there reads as the empty text.
use Prim.Native.String.{String, [], ◌∷◌}
use Prim.Native.Char.{Char, code}
use codity_assignment.AuthService.Tokens.{Env, Claims, validate_access_token}
use codity_assignment.Exec.{Result, ok, err}
use codity_assignment.Base.{
  str_eq, ◌≡◌, ℕ, if◌then◌else◌, Option, Bool, leb, none, false, some, true, ◌==◌, ◌&&◌, not, refl,
  ◌+◌, Bool-cases, inr, inl, eq_iff,
}
use codity_assignment.Errors.{GoError, app, unauthorized}

-- The small letter of a capital one of ASCII.
abbrev pub small : ℕ → ℕ
small n = if leb 65 n && leb n 90 then n + 32 else n

-- `strings.EqualFold`, where one text has no letter that folds to one outside ASCII.
unfoldable pub equal_fold : String → String → Bool
equal_fold [] [] = true
equal_fold [] (d ∷ t) = false
equal_fold (c ∷ s) [] = false
equal_fold (c ∷ s) (d ∷ t) = small (code c) == small (code d) && equal_fold s t

abbrev in_front : Char → Option (String × String) → Option (String × String)
in_front c none = none
in_front c (some (before, after)) = some (c ∷ before, after)

-- `strings.SplitN(header, " ", 2)`: what stands before and after the first blank.
unfoldable pub split_blank : String → Option (String × String)
split_blank [] = none
split_blank (c ∷ s) =
    let rest = split_blank s in if code c == 32 then some ([], s) else in_front c rest

abbrev scheme_error : GoError
scheme_error = app unauthorized "authorization header must be 'Bearer <token>'"

abbrev bearer_of : Option (String × String) → Result String
bearer_of none = err scheme_error
bearer_of (some (scheme, token)) =
    if not (equal_fold scheme "Bearer")
    then err scheme_error
    else if str_eq token ""
    then err (app unauthorized "token is empty")
    else ok token

unfoldable pub extract_bearer_token : String → Result String
unfolding equal_fold split_blank
extract_bearer_token header =
    if str_eq header ""
    then err (app unauthorized "authorization header missing")
    else bearer_of (split_blank header)

-- The identity that the request carries on, or the error that RespondError sends. `parse_uuid` is
-- `uuid.Parse`.
module _ (env : Env) (parse_uuid : String → Result ℕ) where
  abbrev identified : Claims → Result ℕ → Result (ℕ × String)
  identified c (err e) = err (app unauthorized "malformed token subject")
  identified c (ok i) = ok (i, c.email)

  abbrev pub identity : Result Claims → Result (ℕ × String)
  identity (err e) = err (app unauthorized "invalid or expired token")
  identity (ok c) = identified c (parse_uuid c.uid)

  abbrev with_token : ℕ → Result String → Result (ℕ × String)
  with_token now (err e) = err e
  with_token now (ok token) = identity (validate_access_token env token now)

  unfoldable pub auth_required : String → ℕ → Result (ℕ × String)
  unfolding extract_bearer_token validate_access_token
  auth_required header now = with_token now (extract_bearer_token header)

-- The header of a client that holds a token.
abbrev pub bearer_header : String → String
bearer_header token = "B" ∷ "e" ∷ "a" ∷ "r" ∷ "e" ∷ "r" ∷ " " ∷ token

split-bearer_header : (token : String) → split_blank (bearer_header token) ≡ some ("Bearer", token)
unfolding split_blank
split-bearer_header token = refl

header_text : (token : String) → str_eq (bearer_header token) "" ≡ false
header_text token = elim (Bool-cases (str_eq (bearer_header token) "")) [
  | inr e ↦ e
  | inl e ↦ absurd (let same = (eq_iff (bearer_header token) "").0 e in cc)
]

bearer_fold : equal_fold "Bearer" "Bearer" ≡ true
unfolding equal_fold
bearer_fold = refl

extract_bearer_token-parts :
    (header scheme token : String)
    → str_eq header "" ≡ false
    → split_blank header ≡ some (scheme, token)
    → equal_fold scheme "Bearer" ≡ true
    → str_eq token "" ≡ false
    → extract_bearer_token header ≡ ok token
unfolding extract_bearer_token
extract_bearer_token-parts header scheme token h s f t = rw h (rw s (rw f (rw t refl)))

-- A token that is not empty is read back from the header of a client that holds it.
pub extract_bearer_token-header :
    (token : String)
    → str_eq token "" ≡ false
    → extract_bearer_token (bearer_header token) ≡ ok token
extract_bearer_token-header token h =
    extract_bearer_token-parts (bearer_header token) "Bearer" token (header_text token)
      (split-bearer_header token) bearer_fold h
