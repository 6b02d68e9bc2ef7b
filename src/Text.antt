-- ===== src/Text.antt =====
-- `strings.TrimSpace`, on the white space of Unicode.
use Prim.Native.String.{String, [], ◌∷◌}
use Prim.Native.Char.{Char, code}
use codity_assignment.Base.{Bool, ◌≡◌, if◌then◌else◌, refl, true, leb, not, ◌&&◌, ◌||◌, ◌==◌}

unfoldable pub is_space : Char → Bool
is_space c =
    let n = code c in
    (leb 9 n && leb n 13)
    || n == 32
    || n == 133
    || n == 160
    || n == 5760
    || (leb 8192 n && leb n 8202)
    || n == 8232
    || n == 8233
    || n == 8239
    || n == 8287
    || n == 12288

unfoldable pub trim_left : String → String
trim_left [] = []
trim_left (c ∷ s) = if is_space c then trim_left s else c ∷ s

abbrev pub push_front : Char → String → String
push_front c [] = if is_space c then [] else c ∷ []
push_front c (d ∷ s) = c ∷ d ∷ s

unfoldable pub trim_right : String → String
trim_right [] = []
trim_right (c ∷ s) = push_front c (trim_right s)

unfoldable pub trim_space : String → String
unfolding trim_left trim_right
trim_space s = trim_right (trim_left s)

-- The first character is no white space.
abbrev pub starts_clean : String → Bool
starts_clean [] = true
starts_clean (c ∷ s) = not (is_space c)

-- The last character is no white space.
abbrev pub ends_clean : String → Bool
ends_clean [] = true
ends_clean (c ∷ []) = not (is_space c)
ends_clean (c ∷ d ∷ s) = ends_clean (d ∷ s)

test_trim : trim_space "  a b\n" ≡ "a b"
unfolding trim_space trim_left trim_right is_space
test_trim = refl
