-- ===== src/Exec/Atomic.antt =====
-- Operations that read only, and operations whose failure leaves the store as it was.
use codity_assignment.Exec.Laws.{db-query}
use codity_assignment.Exec.{
  sql, ◌>>◌, Result, Exec, map_err, ◌>>=◌, pure, query, attempt, World, continue, err, ok, on_error,
  raise,
}
use codity_assignment.Errors.{GoError}
use codity_assignment.Base.{◌≡◌, ◌∙◌, refl, arith, Bool, if◌then◌else◌}

-- Whatever it returns, the store is the same.
abbrev pub Reads : {S A : Type 0} → Exec S A → Type 0
Reads {S} m = (w : World S) → (m w).1.db ≡ w.db

-- If it returns an error, the store is the same.
abbrev pub Atomic : {S A : Type 0} → Exec S A → Type 0
Atomic {S} m = (w : World S) (e : GoError) → (m w).0 ≡ err e → (m w).1.db ≡ w.db

pub raise-Atomic : (S A : Type 0) (e : GoError) → Atomic {S = S} {A = A} (raise e)
raise-Atomic S A e w e' h = refl

module _ {S A : Type 0} where
  pub pure-Atomic : (a : A) → Atomic {S = S} (pure a)
  pure-Atomic a w e h = absurd (cc)

  pub if-Atomic : (b : Bool) (m n : Exec S A) → Atomic m → Atomic n → Atomic (if b then m else n)
  if-Atomic Bool.true m n p q = p
  if-Atomic Bool.false m n p q = q

  pub Reads-Atomic : (m : Exec S A) → Reads m → Atomic m
  Reads-Atomic m r w e h = r w

  pub query-Reads : (f : S → Result A) → Reads (query f)
  query-Reads f w = db-query f w

  pub map_err-Reads : (g : GoError → GoError) (m : Exec S A) → Reads m → Reads (map_err g m)
  unfolding map_err
  map_err-Reads g m r w = r w

  pub attempt-Reads : (m : Exec S A) → Reads m → Reads (attempt m)
  attempt-Reads m r w = r w

  pub map_err-Atomic : (g : GoError → GoError) (m : Exec S A) → Atomic m → Atomic (map_err g m)
  unfolding map_err
  map_err-Atomic g m r w e h = by_result (m w).0 (r w) h
    where
      by_result :
          (x : Result A)
          → ((e' : GoError) → x ≡ err e' → (m w).1.db ≡ w.db)
          → on_error g x ≡ err e
          → (m w).1.db ≡ w.db
      by_result (ok a) k h = absurd (cc)
      by_result (err e') k h = k e' refl

  -- A statement that changes nothing when it fails.
  pub sql-Atomic :
      (f : S → Result A × S)
      → ((d : S) (e : GoError) → (f d).0 ≡ err e → (f d).1 ≡ d)
      → Atomic (sql f)
  unfolding sql
  sql-Atomic f k w e h = let s = k w.db e in ground arith

module _ {S A B : Type 0} where
  pub bind-Reads :
      (m : Exec S A) (f : A → Exec S B) → Reads m → ((a : A) → Reads (f a)) → Reads (m >>= f)
  unfolding ◌>>=◌
  bind-Reads m f r k w = by_result (m w).0 ∙ r w
    where
      by_result : (x : Result A) → (continue x f (m w).1).1.db ≡ (m w).1.db
      by_result (ok a) = k a (m w).1
      by_result (err e) = refl

  -- First a read, then an operation whose failure changes nothing.
  pub read_bind-Atomic :
      (m : Exec S A) (f : A → Exec S B) → Reads m → ((a : A) → Atomic (f a)) → Atomic (m >>= f)
  unfolding ◌>>=◌
  read_bind-Atomic m f r k w e h = by_result (m w).0 h ∙ r w
    where
      by_result :
          (x : Result A)
          → (continue x f (m w).1).0 ≡ err e
          → (continue x f (m w).1).1.db ≡ (m w).1.db
      by_result (ok a) h = k a (m w).1 e h
      by_result (err e') h = refl

  -- An operation whose failure changes nothing, then one that does not fail.
  pub bind_pure-Atomic : (m : Exec S A) (g : A → B) → Atomic m → Atomic (m >>= λ a. pure (g a))
  unfolding ◌>>=◌
  bind_pure-Atomic m g k w e h = by_result (m w).0 (k w) h
    where
      by_result :
          (x : Result A)
          → ((e' : GoError) → x ≡ err e' → (m w).1.db ≡ w.db)
          → (continue x (λ a. pure (g a)) (m w).1).0 ≡ err e
          → (continue x (λ a. pure (g a)) (m w).1).1.db ≡ w.db
      by_result (ok a) k h = absurd (cc)
      by_result (err e') k h = k e' refl

  pub then_pure-Atomic : (m : Exec S A) (b : B) → Atomic m → Atomic (m >> pure b)
  unfolding ◌>>◌
  then_pure-Atomic m b k = bind_pure-Atomic m (λ _. b) k
