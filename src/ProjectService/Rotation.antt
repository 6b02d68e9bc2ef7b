-- ===== src/ProjectService/Rotation.antt =====
-- What a rotation of the API key leaves: the new key opens the project, the old one opens nothing.
use codity_assignment.Base.{
  String, ℕ, ◌≡◌, any_row, true, not, ◌==◌, first_row, ◌&&◌, false, update_rows, arith, some, ap,
  ◌∙◌, subst, sym, List, str_eq, ◌∷◌, none, refl, [], Bool-cases, inl, eq_iff, inr, ==→eq,
}
use codity_assignment.Domain.Project.{Project}
use codity_assignment.ProjectService.{
  rotate_api_key, rotated, key_from, generate_api_key, ApiKey, NewKey, shown,
}
use codity_assignment.Exec.{World, map_err, ok, ◌>>=◌, ◌>>◌, sql, pure, Result, missing, query, err}
use codity_assignment.Store.{Db}
use codity_assignment.Exec.Laws.{bind-ok, wrapped_sql-ok, wrapped_query-ok, row_of, ok_injective}
use codity_assignment.Errors.{wrapf, app, unauthorized, is_no_rows}
use codity_assignment.ProjectRepo

-- An update that has reached a row: the row is there, no other has the same key.
abbrev Written : Project → Db → Db → Type 0
Written p before after =
    (any_row (ProjectRepo.project_has_id p.id) before.projects ≡ true)
    × (any_row (λ o. not (o.id == p.id) && ProjectRepo.same_key p o) before.projects ≡ false)
    × (after ≡ record before {
      projects =
          update_rows (ProjectRepo.project_has_id p.id) (ProjectRepo.project_written p)
            before.projects;
    })

update_project-ok :
    (p : Project) (d : Db) (count : ℕ)
    → (ProjectRepo.update_project p d).0 ≡ ok count
    → (count == 0) ≡ false
    → Written p d (ProjectRepo.update_project p d).1
unfolding ProjectRepo.update_project
update_project-ok p d count h k = ground arith

some_project-ok :
    (n : ℕ) (w : World Db)
    → (ProjectRepo.some_project n w).0 ≡ ok tt
    → ((n == 0) ≡ false) × ((ProjectRepo.some_project n w).1 ≡ w)
some_project-ok n w h = ground arith

update-ok :
    (p : Project) (w : World Db)
    → (ProjectRepo.update p w).0 ≡ ok tt
    → Written p w.db (ProjectRepo.update p w).1.db
unfolding ProjectRepo.update
update-ok p w h =
    let (n, reached, same, rest) =
      bind-ok (map_err (wrapf "update project") (sql (ProjectRepo.update_project p)))
        ProjectRepo.some_project w h in
    let (done, after) = wrapped_sql-ok _ (ProjectRepo.update_project p) w reached in
    let (some_row, kept) = some_project-ok n _ rest in
    let tables =
      ap (λ (r : Result (Unit {0}) × World Db). r.1.db) same
      ∙ ap (λ (v : World Db). v.db) kept
      ∙ after in
    subst (Written p w.db) (sym tables) (update_project-ok p w.db n done some_row)

some_of : {A : Type 0} (a b : A) → some a ≡ some b → a ≡ b
some_of a b h = cc

key_found :
    (p : Project) (xs : List Project)
    → any_row (ProjectRepo.project_has_id p.id) xs ≡ true
    → any_row (λ o. not (o.id == p.id) && ProjectRepo.same_key p o) xs ≡ false
    → p.is_active ≡ true
    → (r : Project) × ((first_row
            (ProjectRepo.opens_with p.api_key_hash)
            (update_rows (ProjectRepo.project_has_id p.id) (ProjectRepo.project_written p) xs)
          ≡ some r)
        × (r.id ≡ p.id))
unfolding any_row first_row update_rows
key_found p [] h k a = absurd (cc)
key_found p (x ∷ xs) h k a = elim (Bool-cases (x.id == p.id)) [
  | inl own ↦ (
    ProjectRepo.project_written p x,
    (rw own (rw a (rw ((eq_iff p.api_key_hash p.api_key_hash).1 refl) refl)), ==→eq x.id p.id own),
  )
  | inr other ↦
      let (r, (found, id)) = key_found p xs (ground arith) (ground arith) a in
      let closed : str_eq x.api_key_hash p.api_key_hash ≡ false = ground arith in
      (r, (rw other (rw closed found), id))
]

key_lost :
    (p : Project) (old : String) (xs : List Project)
    → any_row (λ o. not (o.id == p.id) && str_eq o.api_key_hash old) xs ≡ false
    → str_eq p.api_key_hash old ≡ false
    → first_row
        (ProjectRepo.opens_with old)
        (update_rows (ProjectRepo.project_has_id p.id) (ProjectRepo.project_written p) xs)
      ≡ none
unfolding any_row first_row update_rows
key_lost p old [] h k = refl
key_lost p old (x ∷ xs) h k = elim (Bool-cases (x.id == p.id)) [
  | inl own ↦ rw own (rw k (key_lost p old xs (ground arith) k))
  | inr other ↦
      let closed : str_eq x.api_key_hash old ≡ false = ground arith in
      rw other (rw closed (key_lost p old xs (ground arith) k))
]

opened :
    (hash : String) (w : World Db) (r : Project)
    → first_row (ProjectRepo.opens_with hash) w.db.projects ≡ some r
    → w.down w.calls ≡ false
    → (ProjectRepo.get_by_api_key_hash hash w).0 ≡ ok r
unfolding ProjectRepo.get_by_api_key_hash map_err query sql
opened hash w r h up = rw up (rw h refl)

refused :
    (hash : String) (w : World Db)
    → first_row (ProjectRepo.opens_with hash) w.db.projects ≡ none
    → w.down w.calls ≡ false
    → (ProjectRepo.get_by_api_key_hash hash w).0 ≡ err (app unauthorized "invalid API key")
unfolding ProjectRepo.get_by_api_key_hash map_err query sql is_no_rows
refused hash w h up = rw up (rw h refl)

module _ (sha : String → String) (i : ℕ) (random : String) (now : ℕ) where
  abbrev new_key : NewKey
  new_key = key_from sha random

  -- The tables of a rotation that succeeds.
  rotate-ok :
      (key : ApiKey) (w : World Db)
      → (rotate_api_key sha i (ok random) now w).0 ≡ ok key
      → (p : Project) × ((first_row (ProjectRepo.project_has_id i) w.db.projects ≡ some p)
          × (key.api_key ≡ new_key.raw_key)
          × Written (rotated sha new_key now p) w.db (rotate_api_key sha i (ok random) now w).1.db)
  unfolding rotate_api_key generate_api_key map_err ◌>>=◌ ◌>>◌ ProjectRepo.get_by_id
  rotate-ok key w h =
      let (p, found, same, rest) =
        bind-ok (ProjectRepo.get_by_id i)
          (λ p. ProjectRepo.update (rotated sha new_key now p) >>= λ _. pure (shown sha new_key)) w
          h in
      let (row, before) =
        wrapped_query-ok (missing "project not found" "get project by id") _ w found in
      let w' = (ProjectRepo.get_by_id i w).1 in
      let (u, updated, same', answer) =
        bind-ok (ProjectRepo.update (rotated sha new_key now p)) (λ _. pure (shown sha new_key)) w'
          rest in
      let tables = ap (λ (r : Result ApiKey × World Db). r.1.db) (same ∙ same') in
      (
        p,
        (
          row_of _ p row,
          sym (ap (λ (k : ApiKey). k.api_key) (ok_injective _ key answer)),
          subst
              (λ d.
                Written (rotated sha new_key now p) d (rotate_api_key sha i (ok random) now w).1.db)
              before
              (subst (Written (rotated sha new_key now p) w'.db) (sym tables)
                (update-ok (rotated sha new_key now p) w' updated)),
        ),
      )

  project_id :
      (p : Project) (xs : List Project)
      → first_row (ProjectRepo.project_has_id i) xs ≡ some p
      → p.id ≡ i
  unfolding first_row
  project_id p [] h = absurd (cc)
  project_id p (x ∷ xs) h = ground (arith, project_id p xs)

  -- After a rotation of the key of an active project that succeeds, while the tables stay so and the
  -- database answers, the hash of the returned key finds the project, and the old hash is refused
  -- with Unauthorized, where it differs from the new one and no other project has it.
  pub rotate_api_key-opens :
      (key : ApiKey) (p : Project) (w later : World Db)
      → (rotate_api_key sha i (ok random) now w).0 ≡ ok key
      → first_row (ProjectRepo.project_has_id i) w.db.projects ≡ some p
      → p.is_active ≡ true
      → str_eq (sha key.api_key) p.api_key_hash ≡ false
      → any_row (λ o. not (o.id == i) && str_eq o.api_key_hash p.api_key_hash) w.db.projects ≡ false
      → later.db ≡ (rotate_api_key sha i (ok random) now w).1.db
      → later.down later.calls ≡ false
      → ((r : Project) × (((ProjectRepo.get_by_api_key_hash (sha key.api_key) later).0 ≡ ok r)
            × (r.id ≡ i)))
        × ((ProjectRepo.get_by_api_key_hash p.api_key_hash later).0
            ≡ err (app unauthorized "invalid API key"))
  rotate_api_key-opens key p w later h row active differs sole same up =
      let (p', (row', raw, (there, unique, after))) = rotate-ok key w h in
      let eq : p' ≡ p = some_of p' p (sym row' ∙ row) in
      let id : p'.id ≡ i = project_id p' w.db.projects row' in
      let n = rotated sha new_key now p' in
      let tables = ap (λ (d : Db). d.projects) (same ∙ after) in
      let hash : sha key.api_key ≡ n.api_key_hash = ap sha raw in
      let (r, (found, own)) =
        key_found n w.db.projects there unique (ap (λ (x : Project). x.is_active) eq ∙ active) in
      let lost =
        key_lost n p.api_key_hash w.db.projects
          (subst
            (λ k.
              any_row (λ o. not (o.id == k) && str_eq o.api_key_hash p.api_key_hash) w.db.projects
              ≡ false)
            (sym id) sole)
          (subst (λ s. str_eq s p.api_key_hash ≡ false) hash differs) in
      (
        (
          r,
          (
            opened (sha key.api_key) later r
                (subst (λ s. first_row (ProjectRepo.opens_with s) later.db.projects ≡ some r)
                  (sym hash)
                  (ap (first_row (ProjectRepo.opens_with n.api_key_hash)) tables ∙ found))
                up,
            own ∙ id,
          ),
        ),
        refused p.api_key_hash later
            (ap (first_row (ProjectRepo.opens_with p.api_key_hash)) tables ∙ lost) up,
      )
