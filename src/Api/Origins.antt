-- ===== src/Api/Origins.antt =====
-- The allowed origins: `strings.Split(…, ",")` of backend/internal/config/config.go, and joinStrings
-- of backend/cmd/api/main.go.
use Prim.Native.String.{String, [], ◌∷◌, ◌++◌}
use Prim.Native.Char.{Char, code}
use text.Mathlib.TextEquality.{Char-path}
use text.Mathlib.TextLemmas.{nil-append, cons-append, append-nil, append_assoc}
use codity_assignment.Base.{
  List, if◌then◌else◌, ◌==◌, ◌≡◌, sym, true, ◌∙◌, Bool-cases, inl, ap, inr, ==→eq,
}

abbrev cut_at : Char → String × List String → String × List String
cut_at c (s, parts) = if code c == 44 then ([], List.◌∷◌ s parts) else (c ∷ s, parts)

-- The part before the first comma, and those after it.
unfoldable pub split_parts : String → String × List String
split_parts [] = ([], List.[])
split_parts (c ∷ s) = cut_at c (split_parts s)

unfoldable pub split_origins : String → List String
unfolding split_parts
split_origins s = List.◌∷◌ (split_parts s).0 (split_parts s).1

-- The loop of joinStrings, after its first round.
unfoldable pub join_rest : String → List String → String
join_rest result List.[] = result
join_rest result (List.◌∷◌ s ss) = join_rest ((result ++ ",") ++ s) ss

unfoldable pub join_strings : List String → String
unfolding join_rest
join_strings List.[] = ""
join_strings (List.◌∷◌ s ss) = join_rest ("" ++ s) ss

abbrev tail_text : List String → String
tail_text List.[] = []
tail_text (List.◌∷◌ s ss) = "," ++ (s ++ tail_text ss)

join_rest-tail_text :
    (result : String) (ss : List String) → join_rest result ss ≡ result ++ tail_text ss
unfolding join_rest
join_rest-tail_text result List.[] = sym (append-nil result)
join_rest-tail_text result (List.◌∷◌ s ss) =
    join_rest-tail_text ((result ++ ",") ++ s) ss
    ∙ append_assoc (result ++ ",") s (tail_text ss)
    ∙ append_assoc result "," (s ++ tail_text ss)

comma : (c : Char) → (code c == 44) ≡ true → (s : String) → "," ++ s ≡ c ∷ s
comma c h s =
    cons-append _ [] s ∙ rw nil-append (ap (λ d. d ∷ s) (sym (Char-path c _ (==→eq _ _ h))))

cut_kept :
    (c : Char) (p : String × List String)
    → (cut_at c p).0 ++ tail_text (cut_at c p).1 ≡ c ∷ (p.0 ++ tail_text p.1)
cut_kept c (s, parts) = elim (Bool-cases (code c == 44)) [
  | inl h ↦ rw h (nil-append _ ∙ comma c h (s ++ tail_text parts))
  | inr h ↦ rw h (cons-append c s (tail_text parts))
]

parts_kept : (s : String) → (split_parts s).0 ++ tail_text (split_parts s).1 ≡ s
unfolding split_parts
parts_kept [] = nil-append _
parts_kept (c ∷ s) = cut_kept c (split_parts s) ∙ ap (λ t. c ∷ t) (parts_kept s)

-- The origins that the middleware is given are the text of the configuration, whatever it holds.
pub join_strings-split_origins : (s : String) → join_strings (split_origins s) ≡ s
unfolding join_strings split_origins
join_strings-split_origins s =
    join_rest-tail_text ("" ++ (split_parts s).0) (split_parts s).1
    ∙ ap (λ t. t ++ tail_text (split_parts s).1) (nil-append (split_parts s).0)
    ∙ parts_kept s
