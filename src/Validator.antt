-- ===== src/Validator.antt =====
-- The rules of backend/pkg/validator/validator.go, and the test of the configuration in
-- backend/internal/config/config.go.
pub mod Slugs
use Prim.Native.String.{String, [], ◌∷◌}
use Prim.Native.Char.{Char, code}
use codity_assignment.Base.{
  Bool, ℕ, leb, false, not, true, if◌then◌else◌, ltb, ◌&&◌, ◌==◌, str_eq, suc, ◌||◌, ◌+◌,
}
use codity_assignment.Exec.{Result, err, ok}
use codity_assignment.Text.{is_space}
use codity_assignment.Errors.{errorf}

-- A small letter, a digit or a hyphen.
unfoldable pub is_slug_char : Char → Bool
is_slug_char c = let n = code c in (leb 97 n && leb n 122) || (leb 48 n && leb n 57) || n == 45

unfoldable pub all_slug_chars : String → Bool
unfolding is_slug_char
all_slug_chars [] = true
all_slug_chars (c ∷ s) = is_slug_char c && all_slug_chars s

abbrev pub not_hyphen : Char → Bool
not_hyphen c = not (code c == 45)

-- The last character of c ∷ s is no hyphen.
unfoldable pub ends_well : Char → String → Bool
ends_well c [] = not_hyphen c
ends_well c (d ∷ s) = ends_well d s

unfoldable pub validate_slug : String → Bool
unfolding all_slug_chars ends_well
validate_slug [] = false
validate_slug (c ∷ s) = all_slug_chars (c ∷ s) && (not_hyphen c && ends_well c s)

-- `len(strings.Fields(s))`, with whether the character before stands in a field.
unfoldable pub count_fields : Bool → String → ℕ
count_fields within [] = 0
count_fields within (c ∷ s) =
    if is_space c
    then count_fields false s
    else (if within then count_fields true s else suc (count_fields true s))

unfoldable pub validate_cron_expr : String → Bool
unfolding count_fields
validate_cron_expr s = let n = count_fields false s in n == 5 || n == 6

-- `len(s)`: the bytes of the text in UTF-8.
unfoldable pub byte_length : String → ℕ
byte_length [] = 0
byte_length (c ∷ s) =
    let n = code c in
    (if ltb n 128 then 1 else if ltb n 2048 then 2 else if ltb n 65536 then 3 else 4)
    + byte_length s

-- The secret of the tokens, and the user and the name of the database.
unfoldable pub validate_config : String → String → String → Result (Unit {0})
unfolding byte_length
validate_config secret user db_name =
    if str_eq secret ""
    then err (errorf "JWT_SECRET must be set")
    else if ltb (byte_length secret) 32
    then err (errorf "JWT_SECRET must be at least 32 characters")
    else if str_eq user ""
    then err (errorf "POSTGRES_USER must be set")
    else if str_eq db_name ""
    then err (errorf "POSTGRES_DB must be set")
    else ok tt
