-- ===== src/Tables.antt =====
-- Laws of the table operations: counting, updating and looking up rows.
use mathlib.Core.List.{Memᴰ}
use codity_assignment.Base.{
  List, ℕ, count_rows, first_row, update_rows, ◌==◌, Bool, length, any_row, ◌∷◌, ◌≤◌, ◌≡◌, map,
  true, [], arith, false, ap, ◌+◌, Bool-cases, suc, refl, inl, inr, Option, some, subst, elem,
  if◌then◌else◌, none, ==→eq, sym, ◌∙◌, ==-refl,
}

module _ {ℓ} {A : Type ℓ} where
  -- Where an update touches no row that counts, and turns each touched row into at most one that
  -- counts, the count grows by at most the touched rows.
  pub count-update-le :
      (p q : A → Bool) (f : A → A) (xs : List A)
      → count_rows p (update_rows q f xs) ≤ count_rows p xs + count_rows q xs
  unfolding count_rows update_rows
  count-update-le p q f [] = omega arith
  count-update-le p q f (x ∷ xs) = ground (arith, count-update-le p q f xs)

  -- An update that keeps what a test says of each row keeps its count.
  pub count-update_same :
      (p q : A → Bool) (f : A → A) (xs : List A)
      → ((x : A) → q x ≡ true → p (f x) ≡ p x)
      → count_rows p (update_rows q f xs) ≡ count_rows p xs
  unfolding count_rows update_rows
  count-update_same p q f [] h = refl
  count-update_same p q f (x ∷ xs) h = ground (arith, h x, count-update_same p q f xs h)

  -- An update of no row.
  pub update-none :
      (p : A → Bool) (f : A → A) (xs : List A) → count_rows p xs ≡ 0 → update_rows p f xs ≡ xs
  unfolding count_rows update_rows
  update-none p f [] h = refl
  update-none p f (x ∷ xs) h = ground (arith, update-none p f xs)

  -- The row that a query finds after an update, where the update keeps what the query looks for.
  pub first-update :
      (p q : A → Bool) (f : A → A) (xs : List A)
      → ((x : A) → p (f x) ≡ p x)
      → first_row p (update_rows q f xs) ≡ elim (first_row p xs) [
        | Option.none ↦ none
        | Option.some x ↦ some (if q x then f x else x)
      ]
  unfolding first_row update_rows
  first-update p q f [] h = refl
  first-update p q f (x ∷ xs) h = ground (arith, h x, first-update p q f xs h)

  -- The row that a query finds after an update of the rows that it looks for.
  pub first-update_hit :
      (p : A → Bool) (f : A → A) (xs : List A) (x : A)
      → ((y : A) → p (f y) ≡ p y)
      → first_row p xs ≡ some x
      → first_row p (update_rows p f xs) ≡ some (f x)
  unfolding first_row update_rows
  first-update_hit p f [] x h e = absurd (cc)
  first-update_hit p f (y ∷ ys) x h e = ground (arith, h y, first-update_hit p f ys x h)

  pub count-none : (p : A → Bool) (xs : List A) → any_row p xs ≡ false → count_rows p xs ≡ 0
  unfolding count_rows any_row
  count-none p [] h = refl
  count-none p (x ∷ xs) h = ground (arith, count-none p xs)

  pub length-map {κ} : {B : Type κ} (f : A → B) (xs : List A) → length (map f xs) ≡ length xs
  length-map f [] = refl
  length-map f (x ∷ xs) = ap suc (length-map f xs)

  -- The rows of a table have different ids.
  abbrev pub Distinct : (A → ℕ) → List A → Type 0
  Distinct key [] = Unit
  Distinct key (x ∷ xs) = (any_row (λ y. key y == key x) xs ≡ false) × Distinct key xs

  count_key :
      (key : A → ℕ) (i : ℕ) (xs : List A) → Distinct key xs → count_rows (λ x. key x == i) xs ≤ 1
  unfolding count_rows
  count_key key i [] d = omega arith
  count_key key i (x ∷ xs) d = elim (Bool-cases (key x == i)) [
    | inl e ↦ rw e (
        omega (
          arith,
          count-none (λ y. key y == i) xs
              (subst (λ k. any_row (λ y. key y == k) xs ≡ false) (==→eq _ _ e) d.0),
        ))
    | inr e ↦ rw e (count_key key i xs d.1)
  ]

  count_elem-cons :
      (key : A → ℕ) (i : ℕ) (is : List ℕ) (xs : List A)
      → count_rows (λ x. elem (key x) (i ∷ is)) xs
        ≤ count_rows (λ x. key x == i) xs + count_rows (λ x. elem (key x) is) xs
  unfolding count_rows elem
  count_elem-cons key i is [] = omega arith
  count_elem-cons key i is (x ∷ xs) = ground (arith, count_elem-cons key i is xs)

  count_elem-nil : (key : A → ℕ) (xs : List A) → count_rows (λ x. elem (key x) []) xs ≡ 0
  unfolding count_rows elem
  count_elem-nil key [] = refl
  count_elem-nil key (x ∷ xs) = count_elem-nil key xs

  -- At most as many rows are named by a list of ids as the list is long.
  pub count_elem-le :
      (key : A → ℕ) (is : List ℕ) (xs : List A)
      → Distinct key xs
      → count_rows (λ x. elem (key x) is) xs ≤ length is
  count_elem-le key [] xs d = omega (arith, count_elem-nil key xs)
  count_elem-le key (i ∷ is) xs d =
      omega (arith, count_elem-cons key i is xs, count_key key i xs d, count_elem-le key is xs d)

  pub any-update :
      (p q : A → Bool) (f : A → A) (xs : List A)
      → ((x : A) → p (f x) ≡ p x)
      → any_row p (update_rows q f xs) ≡ any_row p xs
  unfolding any_row update_rows
  any-update p q f [] h = refl
  any-update p q f (x ∷ xs) h = ground (arith, h x, any-update p q f xs h)

  -- An update leaves the key of each row alone, so it keeps the keys distinct.
  pub update-Distinct :
      (key : A → ℕ) (q : A → Bool) (f : A → A) (xs : List A)
      → ((x : A) → key (f x) ≡ key x)
      → Distinct key xs
      → Distinct key (update_rows q f xs)
  unfolding update_rows
  update-Distinct key q f [] h d = tt
  update-Distinct key q f (x ∷ xs) h d = (
    any-update (λ y. key y == key (if q x then f x else x)) q f xs
          (λ y. ap (λ k. k == key (if q x then f x else x)) (h y))
        ∙ subst (λ k. any_row (λ y. key y == k) xs ≡ false) (sym same) d.0,
    update-Distinct key q f xs h d.1,
  )
    where
      same : key (if q x then f x else x) ≡ key x
      same = ground (arith, h x)

  any-none : (p : A → Bool) (x : A) (xs : List A) → Memᴰ x xs → any_row p xs ≡ false → p x ≡ false
  unfolding any_row
  any-none p x [] m h = elim m [ ]
  any-none p x (y ∷ xs) (Memᴰ.head e) h = ap p e ∙ ground arith
  any-none p x (y ∷ xs) (Memᴰ.tail m) h = any-none p x xs m (ground arith)

  -- Where the ids are distinct, a row of the table is the one that a query by its id finds.
  pub first-mem :
      (key : A → ℕ) (x : A) (xs : List A)
      → Distinct key xs
      → Memᴰ x xs
      → first_row (λ y. key y == key x) xs ≡ some x
  unfolding first_row
  first-mem key x [] d m = elim m [ ]
  first-mem key x (y ∷ xs) d (Memᴰ.head e) =
      rw (ap (λ z. key z == key x) (sym e)) (rw (==-refl (key x)) (ap some (sym e)))
  first-mem key x (y ∷ xs) d (Memᴰ.tail m) =
      rw (other (any-none (λ z. key z == key y) x xs m d.0)) (first-mem key x xs d.1 m)
    where
      other : (key x == key y) ≡ false → (key y == key x) ≡ false
      other h = ground arith

-- What holds of each row after an update holds of every row of the updated table.
pub mem-update {ℓ κ} :
    {A : Type ℓ} (P : A → Type κ) (p : A → Bool) (f : A → A) (x : A) (xs : List A)
    → ((y : A) → P (if p y then f y else y))
    → Memᴰ x (update_rows p f xs)
    → P x
unfolding update_rows
mem-update P p f x [] h m = elim m [ ]
mem-update P p f x (y ∷ xs) h (Memᴰ.head e) = subst P (sym e) (h y)
mem-update P p f x (y ∷ xs) h (Memᴰ.tail m) = mem-update P p f x xs h m
