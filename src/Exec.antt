-- ===== src/Exec.antt =====
-- The monad of the operations: they read and write a store, may fail, and keep what they wrote
-- before a failure. Each call of the database may be refused by the environment: `down n` says
-- whether the n-th call fails to reach the server.
pub mod Laws
pub mod Atomic
pub mod Same
use codity_assignment.Errors.{GoError, wrapf, pg, unreachable, no_rows, is_no_rows, app, not_found}
use codity_assignment.Base.{suc, ℕ, Bool, if◌then◌else◌, String, Option, some, zero, none, not}

pub data Result (A : Type 0) : Type 0 where
  ok : A → Result A
  err : GoError → Result A

pub record World (S : Type 0) : Type 0 where
  pub db : S
  pub calls : ℕ
  pub down : ℕ → Bool

abbrev pub Exec : Type 0 → Type 0 → Type 0
Exec S A = World S → Result A × World S

-- `if err != nil { return f(err) }`.
abbrev pub on_error : {A : Type 0} → (GoError → GoError) → Result A → Result A
on_error f (ok a) = ok a
on_error f (err e) = err (f e)

module _ {S A : Type 0} where
  abbrev pub pure : A → Exec S A
  pure a w = (ok a, w)

  abbrev pub raise : GoError → Exec S A
  raise e w = (err e, w)

  abbrev pub lift : Result A → Exec S A
  lift r w = (r, w)

  -- `x, err := m()`: the caller looks at the error itself.
  abbrev pub attempt : Exec S A → Exec S (Result A)
  attempt m w = let (r, w') = m w in (ok r, w')

  -- One statement, on a store that it may read and write. A refused statement changes nothing.
  unfoldable pub sql : (S → Result A × S) → Exec S A
  sql f w =
      let called : World S = record w { calls = suc w.calls } in
      if w.down w.calls
      then (err (pg unreachable), called)
      else (let (r, d) = f w.db in (r, record called { db = d }))

  unfoldable pub query : (S → Result A) → Exec S A
  unfolding sql
  query f = sql (λ d. (f d, d))

  unfoldable pub map_err : (GoError → GoError) → Exec S A → Exec S A
  map_err f m w = let (r, w') = m w in (on_error f r, w')

  -- BEGIN … COMMIT: an error in the body, or of the commit, rolls the store back. A result that
  -- `keep` does not pass is returned after a ROLLBACK, whose error is ignored.
  abbrev pub settle : (A → Bool) → S → Result A → World S → Result A × World S
  settle keep before (err e) w = (err e, record w { db = before })
  settle keep before (ok a) w =
      let called : World S = record w { calls = suc w.calls } in
      let undone : World S = record called { db = before } in
      if not (keep a)
      then (ok a, undone)
      else if w.down w.calls
      then (err (wrapf "commit claim" (pg unreachable)), undone)
      else (ok a, called)

  unfoldable pub transaction : (A → Bool) → Exec S A → Exec S A
  transaction keep body w =
      let called : World S = record w { calls = suc w.calls } in
      if w.down w.calls
      then (err (wrapf "begin claim transaction" (pg unreachable)), called)
      else (let (r, w') = body called in settle keep w.db r w')

module _ {S A B : Type 0} where
  abbrev pub continue : Result A → (A → Exec S B) → Exec S B
  continue (ok a) f w = f a w
  continue (err e) f w = (err e, w)

  infixl 10 ◌>>=◌ ◌>>◌
  unfoldable pub ◌>>=◌ : Exec S A → (A → Exec S B) → Exec S B
  ◌>>=◌ m f w = let (r, w') = m w in continue r f w'

  unfoldable pub ◌>>◌ : Exec S A → Exec S B → Exec S B
  unfolding ◌>>=◌
  m >> n = m >>= λ _. n

-- A query for one row.
abbrev pub or_no_rows : {A : Type 0} → Option A → Result A
or_no_rows none = err (pg no_rows)
or_no_rows (some a) = ok a

-- `errors.Is(err, pgx.ErrNoRows)` becomes NotFound, and any other error is wrapped.
abbrev pub missing : String → String → GoError → GoError
missing what context e = if is_no_rows e then app not_found what else wrapf context e
