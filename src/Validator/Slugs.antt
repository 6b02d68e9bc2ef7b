-- ===== src/Validator/Slugs.antt =====
-- The services trim the slug of a request; a valid slug stays as it is.
use Prim.Native.String.{String, [], ◌∷◌}
use Prim.Native.Char.{Char, code}
use codity_assignment.Text.{is_space, trim_left, trim_right, trim_space, push_front}
use codity_assignment.Validator.{is_slug_char, validate_slug, all_slug_chars}
use codity_assignment.Base.{◌≡◌, true, false, arith, ap, refl, ◌∙◌, ◌≤◌}

slug_range : (c : Char) → is_slug_char c ≡ true → (45 ≤ code c) × (code c ≤ 122)
unfolding is_slug_char
slug_range c h = ground arith

slug_not_space : (c : Char) → is_slug_char c ≡ true → is_space c ≡ false
unfolding is_space
slug_not_space c h = let (low, high) = slug_range c h in ground arith

trim_left-slug : (s : String) → all_slug_chars s ≡ true → trim_left s ≡ s
unfolding trim_left all_slug_chars
trim_left-slug [] h = refl
trim_left-slug (c ∷ s) h = let n = slug_not_space c (ground arith) in rw n refl

push_back : (c : Char) (s : String) → is_space c ≡ false → push_front c s ≡ c ∷ s
push_back c [] h = rw h refl
push_back c (d ∷ s) h = refl

trim_right-slug : (s : String) → all_slug_chars s ≡ true → trim_right s ≡ s
unfolding trim_right all_slug_chars
trim_right-slug [] h = refl
trim_right-slug (c ∷ s) h =
    let n = slug_not_space c (ground arith) in
    ap (push_front c) (trim_right-slug s (ground arith)) ∙ push_back c s n

-- A slug that passes the validation is not changed by the trimming of the services.
pub trim-slug : (s : String) → validate_slug s ≡ true → trim_space s ≡ s
unfolding validate_slug trim_space
trim-slug [] h = absurd (cc)
trim-slug (c ∷ s) h =
    let clean : all_slug_chars (c ∷ s) ≡ true = ground arith in
    ap trim_right (trim_left-slug (c ∷ s) clean) ∙ trim_right-slug (c ∷ s) clean
