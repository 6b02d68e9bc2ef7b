-- ===== src/Exec/Laws.antt =====
-- Inversion of the operations of the monad: what a run that returned a value has gone through.
use codity_assignment.Exec.{
  sql, query, map_err, transaction, ◌>>=◌, Exec, Result, World, ok, err, continue, or_no_rows,
}
use codity_assignment.Errors.{GoError, pg, unreachable}
use codity_assignment.Base.{◌≡◌, arith, ap, suc, ◌∙◌, refl, ◌⊎◌, Bool, false, Option, some}

module _ {S A B : Type 0} where
  pub bind-ok :
      (m : Exec S A) (f : A → Exec S B) (w : World S) {b : B}
      → ((m >>= f) w).0 ≡ ok b
      → (a : A) × ((m w).0 ≡ ok a) × ((m >>= f) w ≡ f a (m w).1) × ((f a (m w).1).0 ≡ ok b)
  unfolding ◌>>=◌
  bind-ok m f w {b} h = by_result (m w).0 (m w).1 h
    where
      by_result :
          (r : Result A) (w' : World S)
          → (continue r f w').0 ≡ ok b
          → (a : A) × (r ≡ ok a) × (continue r f w' ≡ f a w') × ((f a w').0 ≡ ok b)
      by_result (ok a) w' h = (a, refl, refl, h)
      by_result (err e) w' h = absurd (cc)

module _ {S A : Type 0} where
  pub sql-ok :
      (f : S → Result A × S) (w : World S) {a : A}
      → (sql f w).0 ≡ ok a
      → ((f w.db).0 ≡ ok a) × ((sql f w).1.db ≡ (f w.db).1)
  unfolding sql
  sql-ok f w h = ground arith

  -- A statement that fails is refused by the server, or by the statement itself.
  pub sql-err :
      (f : S → Result A × S) (w : World S) {e : GoError}
      → (sql f w).0 ≡ err e
      → (((e ≡ pg unreachable) × ((sql f w).1.db ≡ w.db))
          ⊎ (((f w.db).0 ≡ err e) × ((sql f w).1.db ≡ (f w.db).1)))
  unfolding sql
  sql-err f w h = ground arith

  pub map_err-ok :
      (g : GoError → GoError) (m : Exec S A) (w : World S) {a : A}
      → (map_err g m w).0 ≡ ok a
      → ((m w).0 ≡ ok a) × ((map_err g m w).1 ≡ (m w).1)
  unfolding map_err
  map_err-ok g m w h = ground arith

  pub query-ok :
      (f : S → Result A) (w : World S) {a : A}
      → (query f w).0 ≡ ok a
      → (f w.db ≡ ok a) × ((query f w).1.db ≡ w.db)
  unfolding query
  query-ok f w h = ground arith

  -- A query changes nothing.
  pub db-query : (f : S → Result A) (w : World S) → (query f w).1.db ≡ w.db
  unfolding query
  db-query f w = ground arith

  pub wrapped_query-ok :
      (g : GoError → GoError) (f : S → Result A) (w : World S) {a : A}
      → (map_err g (query f) w).0 ≡ ok a
      → (f w.db ≡ ok a) × ((map_err g (query f) w).1.db ≡ w.db)
  wrapped_query-ok g f w h =
      let (r, e) = map_err-ok g (query f) w h in
      let (v, d) = query-ok f w r in (v, ap (λ (u : World S). u.db) e ∙ d)

  pub wrapped_sql-ok :
      (g : GoError → GoError) (f : S → Result A × S) (w : World S) {a : A}
      → (map_err g (sql f) w).0 ≡ ok a
      → ((f w.db).0 ≡ ok a) × ((map_err g (sql f) w).1.db ≡ (f w.db).1)
  wrapped_sql-ok g f w h =
      let (r, e) = map_err-ok g (sql f) w h in
      let (v, d) = sql-ok f w r in (v, ap (λ (u : World S). u.db) e ∙ d)

  -- A transaction that returns a value has kept what its body wrote, or has undone it where the
  -- value is not one to keep.
  pub transaction-ok :
      (keep : A → Bool) (m : Exec S A) (w : World S) {a : A}
      → (transaction keep m w).0 ≡ ok a
      → let begun : World S = record w { calls = suc w.calls } in
        ((m begun).0 ≡ ok a)
        × (((transaction keep m w).1.db ≡ (m begun).1.db)
            ⊎ ((keep a ≡ false) × ((transaction keep m w).1.db ≡ w.db)))
  unfolding transaction
  transaction-ok keep m w h = ground arith

  -- A transaction that fails, at any of its statements or at its commit, has changed nothing.
  pub transaction-err :
      (keep : A → Bool) (m : Exec S A) (w : World S) {e : GoError}
      → (transaction keep m w).0 ≡ err e
      → (transaction keep m w).1.db ≡ w.db
  unfolding transaction
  transaction-err keep m w h = ground arith

-- The row that a query for one row returned is the one that it looked for.
pub row_of : {A : Type 0} → (o : Option A) (a : A) → or_no_rows o ≡ ok a → o ≡ some a
row_of Option.none a r = absurd (cc)
row_of (Option.some p) a r = cc

pub ok_injective : {A : Type 0} (a b : A) → ok a ≡ ok b → a ≡ b
ok_injective a b h = cc
