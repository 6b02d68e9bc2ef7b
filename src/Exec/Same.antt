-- ===== src/Exec/Same.antt =====
-- Operations that leave a part of the store as it was, whatever they return.
use codity_assignment.Exec.{
  pure, Exec, ◌>>=◌, ◌>>◌, map_err, sql, Result, World, raise, query, attempt, lift, continue, ok,
  err,
}
use codity_assignment.Errors.{GoError}
use codity_assignment.Base.{◌≡◌, ap, arith, ◌∙◌}
use codity_assignment.Exec.Laws.{db-query}

module _ {S X : Type 0} (part : S → X) where
  abbrev pub Same : {A : Type 0} → Exec S A → Type 0
  Same m = (w : World S) → part (m w).1.db ≡ part w.db

  pub pure-Same : {A : Type 0} (a : A) → Same (pure a)
  pure-Same a w = λ i. part w.db

  pub raise-Same : (A : Type 0) (e : GoError) → Same {A = A} (raise e)
  raise-Same A e w = λ i. part w.db

  pub attempt-Same : {A : Type 0} (m : Exec S A) → Same m → Same (attempt m)
  attempt-Same m h w = h w

  pub lift-Same : {A : Type 0} (r : Result A) → Same (lift r)
  lift-Same r w = λ i. part w.db

  pub map_err-Same :
      {A : Type 0} (g : GoError → GoError) (m : Exec S A) → Same m → Same (map_err g m)
  unfolding map_err
  map_err-Same g m h w = h w

  pub query-Same : {A : Type 0} (f : S → Result A) → Same (query f)
  query-Same f w = ap part (db-query f w)

  pub sql-Same :
      {A : Type 0} (f : S → Result A × S) → ((d : S) → part (f d).1 ≡ part d) → Same (sql f)
  unfolding sql
  sql-Same f h w = let k = h w.db in ground arith

  pub bind-Same :
      {A B : Type 0} (m : Exec S A) (f : A → Exec S B)
      → Same m
      → ((a : A) → Same (f a))
      → Same (m >>= f)
  unfolding ◌>>=◌
  bind-Same {A = A} {B = B} m f h k w = by_result (m w).0 ∙ h w
    where
      by_result : (r : Result A) → part (continue r f (m w).1).1.db ≡ part (m w).1.db
      by_result (ok a) = k a (m w).1
      by_result (err e) = λ i. part (m w).1.db

  pub then-Same : {A B : Type 0} (m : Exec S A) (n : Exec S B) → Same m → Same n → Same (m >> n)
  unfolding ◌>>◌
  then-Same m n h k = bind-Same m (λ _. n) h (λ _. k)
