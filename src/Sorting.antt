-- ===== src/Sorting.antt =====
-- Of `where_rows`, `sort_rows` and `take`: selection and sorting: what survives, what comes first.
use mathlib.Core.List.{Memᴰ}
use codity_assignment.Base.{
  Bool, sort_rows, where_rows, List, insert_sorted, ℕ, take, All, ◌∷◌, ◌≡◌, suc, [], subst, true,
  ◌⊎◌, Bool-cases, false, inl, ap, zero, length, sym, ◌∙◌, inr, refl,
}

module _ {ℓ κ} {A : Type ℓ} (P : A → Type κ) where
  pub All-take : (n : ℕ) (xs : List A) → All P xs → All P (take n xs)
  All-take zero xs h = tt
  All-take (suc n) [] h = tt
  All-take (suc n) (x ∷ xs) h = (h.0, All-take n xs h.1)

  pub All-mem : (x : A) (xs : List A) → Memᴰ x xs → All P xs → P x
  All-mem x [] m h = elim m [ ]
  All-mem x (y ∷ xs) (Memᴰ.head e) h = subst P (sym e) h.0
  All-mem x (y ∷ xs) (Memᴰ.tail m) h = All-mem x xs m h.1

  pub All-where : (p : A → Bool) (xs : List A) → All P xs → All P (where_rows p xs)
  unfolding where_rows
  All-where p [] h = tt
  All-where p (x ∷ xs) h = elim (Bool-cases (p x)) [
    | inl e ↦ rw e (h.0, All-where p xs h.1)
    | inr e ↦ rw e (All-where p xs h.1)
  ]

  pub All-insert_sorted :
      (le : A → A → Bool) (x : A) (xs : List A) → P x → All P xs → All P (insert_sorted le x xs)
  unfolding insert_sorted
  All-insert_sorted le x [] px h = (px, tt)
  All-insert_sorted le x (y ∷ ys) px h = elim (Bool-cases (le x y)) [
    | inl e ↦ rw e (px, h)
    | inr e ↦ rw e (h.0, All-insert_sorted le x ys px h.1)
  ]

  pub All-sort_rows : (le : A → A → Bool) (xs : List A) → All P xs → All P (sort_rows le xs)
  unfolding sort_rows
  All-sort_rows le [] h = tt
  All-sort_rows le (x ∷ xs) h =
      All-insert_sorted le x (sort_rows le xs) h.0 (All-sort_rows le xs h.1)

module _ {ℓ κ μ} {A : Type ℓ} (P : A → Type κ) (Q : A → Type μ) where
  pub All-both : (xs : List A) → All P xs → All Q xs → All (λ x. P x × Q x) xs
  All-both [] h k = tt
  All-both (x ∷ xs) h k = ((h.0, k.0), All-both xs h.1 k.1)

  pub All-imp : (xs : List A) → ((x : A) → P x → Q x) → All P xs → All Q xs
  All-imp [] f h = tt
  All-imp (x ∷ xs) f h = (f x h.0, All-imp xs f h.1)

module _ {ℓ} {A : Type ℓ} where
  -- Every row that the test passes is selected, and only those.
  pub where_rows-pass : (p : A → Bool) (xs : List A) → All (λ x. p x ≡ true) (where_rows p xs)
  unfolding where_rows
  where_rows-pass p [] = tt
  where_rows-pass p (x ∷ xs) = elim (Bool-cases (p x)) [
    | inl e ↦ rw e (e, where_rows-pass p xs)
    | inr e ↦ rw e (where_rows-pass p xs)
  ]

  pub mem-where_rows :
      (p : A → Bool) (x : A) (xs : List A) → Memᴰ x xs → p x ≡ true → Memᴰ x (where_rows p xs)
  unfolding where_rows
  mem-where_rows p x [] m h = elim m [ ]
  mem-where_rows p x (y ∷ xs) (Memᴰ.head e) h = rw (ap p (sym e) ∙ h) (Memᴰ.head e)
  mem-where_rows p x (y ∷ xs) (Memᴰ.tail m) h = elim (Bool-cases (p y)) [
    | inl e ↦ rw e (Memᴰ.tail (mem-where_rows p x xs m h))
    | inr e ↦ rw e (mem-where_rows p x xs m h)
  ]

  mem-insert_self :
      (le : A → A → Bool) (x y : A) (xs : List A) → x ≡ y → Memᴰ x (insert_sorted le y xs)
  unfolding insert_sorted
  mem-insert_self le x y [] e = Memᴰ.head e
  mem-insert_self le x y (z ∷ xs) e = elim (Bool-cases (le y z)) [
    | inl q ↦ rw q (Memᴰ.head e)
    | inr q ↦ rw q (Memᴰ.tail (mem-insert_self le x y xs e))
  ]

  mem-insert_sorted :
      (le : A → A → Bool) (x y : A) (xs : List A) → Memᴰ x xs → Memᴰ x (insert_sorted le y xs)
  unfolding insert_sorted
  mem-insert_sorted le x y [] m = elim m [ ]
  mem-insert_sorted le x y (z ∷ xs) (Memᴰ.head e) = elim (Bool-cases (le y z)) [
    | inl q ↦ rw q (Memᴰ.tail (Memᴰ.head e))
    | inr q ↦ rw q (Memᴰ.head e)
  ]
  mem-insert_sorted le x y (z ∷ xs) (Memᴰ.tail m) = elim (Bool-cases (le y z)) [
    | inl q ↦ rw q (Memᴰ.tail (Memᴰ.tail m))
    | inr q ↦ rw q (Memᴰ.tail (mem-insert_sorted le x y xs m))
  ]

  pub mem-sort_rows :
      (le : A → A → Bool) (x : A) (xs : List A) → Memᴰ x xs → Memᴰ x (sort_rows le xs)
  unfolding sort_rows
  mem-sort_rows le x [] m = elim m [ ]
  mem-sort_rows le x (y ∷ xs) (Memᴰ.head e) = mem-insert_self le x y (sort_rows le xs) e
  mem-sort_rows le x (y ∷ xs) (Memᴰ.tail m) =
      mem-insert_sorted le x y (sort_rows le xs) (mem-sort_rows le x xs m)

  -- Each element stands before all that follow it.
  abbrev pub Sorted : (A → A → Bool) → List A → Type 0
  Sorted le [] = Unit
  Sorted le (x ∷ xs) = All (λ y. le x y ≡ true) xs × Sorted le xs

  -- An element is taken, or it stands behind all that are taken, of which there are n.
  pub take_first :
      (le : A → A → Bool) (n : ℕ) (xs : List A) (x : A)
      → Sorted le xs
      → Memᴰ x xs
      → Memᴰ x (take n xs) ⊎ (All (λ y. le y x ≡ true) (take n xs) × (length (take n xs) ≡ n))
  take_first le zero xs x s m = inr (tt, refl)
  take_first le (suc n) [] x s m = elim m [ ]
  take_first le (suc n) (y ∷ xs) x s (Memᴰ.head e) = inl (Memᴰ.head e)
  take_first le (suc n) (y ∷ xs) x s (Memᴰ.tail m) = elim (take_first le n xs x s.1 m) [
    | inl t ↦ inl (Memᴰ.tail t)
    | inr (a, l) ↦ inr ((All-mem (λ z. le y z ≡ true) x xs m s.0, a), ap suc l)
  ]

  -- A total and transitive order sorts.
  module _ (le : A → A → Bool) (total : (x y : A) → le x y ≡ false → le y x ≡ true)
      (trans : (x y z : A) → le x y ≡ true → le y z ≡ true → le x z ≡ true) where
    All-le :
        (x y : A) (ys : List A)
        → le x y ≡ true
        → All (λ z. le y z ≡ true) ys
        → All (λ z. le x z ≡ true) ys
    All-le x y [] h a = tt
    All-le x y (z ∷ zs) h a = (trans x y z h a.0, All-le x y zs h a.1)

    insert_sorted-Sorted : (x : A) (ys : List A) → Sorted le ys → Sorted le (insert_sorted le x ys)
    unfolding insert_sorted
    insert_sorted-Sorted x [] s = (tt, tt)
    insert_sorted-Sorted x (y ∷ ys) s = elim (Bool-cases (le x y)) [
      | inl q ↦ rw q ((q, All-le x y ys q s.0), s)
      | inr q ↦ rw q (
        All-insert_sorted (λ z. le y z ≡ true) le x ys (total x y q) s.0,
        insert_sorted-Sorted x ys s.1,
      )
    ]

    pub sort_rows-Sorted : (xs : List A) → Sorted le (sort_rows le xs)
    unfolding sort_rows
    sort_rows-Sorted [] = tt
    sort_rows-Sorted (x ∷ xs) = insert_sorted-Sorted x (sort_rows le xs) (sort_rows-Sorted xs)
