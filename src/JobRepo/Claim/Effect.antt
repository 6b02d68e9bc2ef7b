-- ===== src/JobRepo/Claim/Effect.antt =====
-- What one claim does to the table, on every path.
use codity_assignment.Base.{
  update_rows, ℕ, elem, Bool, ℤ, List, [], ◌≡◌, false, ap, ◌∷◌, refl, map, ◌-ℤ◌, pos, count_rows,
  ◌⊎◌, ◌<ℤ◌, ◌≤ℤ◌, pos_part, sym, leb_ℤ, arith, inl, inr, if◌then◌else◌, suc, ◌∙◌, true, subst,
}
use codity_assignment.JobRepo.Claim.{
  mark_claimed, claim_row, claim_rows, runs_in, claim_size, select_claim, finish_claim,
  claim_within, claim_batch, claim_some, run_claim, is_cons,
}
use codity_assignment.Store.{Db}
use codity_assignment.Exec.{Exec, sql, query, map_err, ◌>>=◌, ◌>>◌, World, ok, pure, Result, err}
use codity_assignment.Domain.Job.{Job}
use codity_assignment.Exec.Laws.{bind-ok, wrapped_query-ok, transaction-ok, transaction-err}
use codity_assignment.Errors.{wrapf, GoError}

update_rows-none :
    {A : Type 0} (p : A → Bool) (f : A → A) (xs : List A)
    → ((x : A) → p x ≡ false)
    → update_rows p f xs ≡ xs
unfolding update_rows
update_rows-none p f [] h = refl
update_rows-none p f (x ∷ xs) h = rw (h x, update_rows-none p f xs h)

mark_claimed-nil : (worker now : ℕ) (d : Db) → mark_claimed worker now [] d ≡ d
unfolding mark_claimed elem
mark_claimed-nil worker now d =
    ap (λ js. record d { jobs = js }) (update_rows-none _ (claim_row worker now) d.jobs (λ j. refl))

abbrev pub ids_of : List Job → List ℕ
ids_of = map (λ j. j.id)

-- What a claim that returned `js` has selected.
abbrev pub Chosen : ℕ → ℤ → (ℕ → Bool) → ℕ → ℤ → Db → List Job → Type 0
Chosen q batch_size locked now available d js =
    (js ≡ [])
    ⊎ ((pos 0 <ℤ available)
        × (pos 0 ≤ℤ claim_size available batch_size)
        × (js ≡ select_claim q now locked (pos_part (claim_size available batch_size)) d))

abbrev pub Selected : ℕ → ℤ → ℤ → (ℕ → Bool) → ℕ → Db → List Job → Type 0
Selected q batch_size limit locked now d =
    Chosen q batch_size locked now (limit -ℤ pos (count_rows (runs_in q) d.jobs)) d

finish_claim-ok :
    (worker now : ℕ) (js ks : List Job) (w : World Db)
    → (finish_claim worker now js w).0 ≡ ok ks
    → (ks ≡ js) × ((finish_claim worker now js w).1.db ≡ mark_claimed worker now (ids_of js) w.db)
unfolding sql map_err ◌>>=◌ ◌>>◌
finish_claim-ok worker now [] ks w h = (cc, sym (mark_claimed-nil worker now w.db))
finish_claim-ok worker now (j ∷ js) ks w h = ground arith

claim_some-ok :
    (q worker : ℕ) (locked : ℕ → Bool) (now : ℕ) (size : ℤ) (w : World Db) (js : List Job)
    → (claim_some q worker locked now size w).0 ≡ ok js
    → ((claim_some q worker locked now size w).1.db ≡ mark_claimed worker now (ids_of js) w.db)
      × (pos 0 ≤ℤ size)
      × (js ≡ select_claim q now locked (pos_part size) w.db)
unfolding claim_some run_claim
claim_some-ok q worker locked now size w js h =
    let selecting : Exec Db (List Job) =
      map_err (wrapf "claim query") (query (run_claim q now locked size)) in
    let (ks, selected, e, h') = bind-ok selecting (finish_claim worker now) w h in
    let (v, same) =
      wrapped_query-ok (wrapf "claim query") (run_claim q now locked size) w selected in
    let (k, marked) = finish_claim-ok worker now ks js (selecting w).1 h' in
    (
      ap (λ (x : Result (List Job) × World Db). x.1.db) e
          ∙ marked
          ∙ ap (mark_claimed worker now (ids_of ks)) same
          ∙ ap (λ l. mark_claimed worker now (ids_of l) w.db) (sym k),
      ground arith,
      k ∙ ground arith,
    )

claim_within-ok :
    (q worker : ℕ) (batch_size available : ℤ) (locked : ℕ → Bool) (now : ℕ) (w : World Db)
    (js : List Job)
    → (claim_within q worker batch_size locked now available w).0 ≡ ok js
    → ((claim_within q worker batch_size locked now available w).1.db
        ≡ mark_claimed worker now (ids_of js) w.db)
      × Chosen q batch_size locked now available w.db js
unfolding claim_within
claim_within-ok q worker batch_size available locked now w js =
    by_test (leb_ℤ available (pos 0)) refl
  where
    some_claimed : Exec Db (List Job)
    some_claimed = claim_some q worker locked now (claim_size available batch_size)

    by_test :
        (b : Bool)
        → leb_ℤ available (pos 0) ≡ b
        → ((if b then pure [] else some_claimed) w).0 ≡ ok js
        → (((if b then pure [] else some_claimed) w).1.db
            ≡ mark_claimed worker now (ids_of js) w.db)
          × Chosen q batch_size locked now available w.db js
    by_test true e h =
        let none_claimed : js ≡ [] = cc in
        (
          sym (
              ap (λ l. mark_claimed worker now (ids_of l) w.db) none_claimed
              ∙ mark_claimed-nil worker now w.db),
          inl none_claimed,
        )
    by_test false e h =
        let (d, s, l) =
          claim_some-ok q worker locked now (claim_size available batch_size) w js h in
        (d, inr (ground arith, s, l))

nil_of : (js : List Job) → is_cons js ≡ false → js ≡ []
nil_of [] h = refl
nil_of (j ∷ js) h = absurd (cc)

-- A claim that returned `js` has marked exactly the rows with their ids, and `js` is empty or the
-- selection at the size that the limit leaves.
pub claim_batch-ok :
    (q worker : ℕ) (batch_size limit : ℤ) (locked : ℕ → Bool) (now : ℕ) (w : World Db)
    (js : List Job)
    → (claim_batch q worker batch_size limit locked now w).0 ≡ ok js
    → ((claim_batch q worker batch_size limit locked now w).1.db
        ≡ mark_claimed worker now (ids_of js) w.db)
      × Selected q batch_size limit locked now w.db js
unfolding claim_batch claim_rows
claim_batch-ok q worker batch_size limit locked now w js h =
    let begun : World Db = record w { calls = suc w.calls } in
    let counting : Exec Db ℕ =
      map_err (wrapf "count running jobs") (query (λ d. ok (count_rows (runs_in q) d.jobs))) in
    let rest : ℕ → Exec Db (List Job) =
      λ n. claim_within q worker batch_size locked now (limit -ℤ pos n) in
    let (h', kept) = transaction-ok is_cons (counting >>= rest) w h in
    let (n, counted, e, h'') = bind-ok counting rest begun h' in
    let (v, same) =
      wrapped_query-ok (wrapf "count running jobs") (λ x. ok (count_rows (runs_in q) x.jobs)) begun
        counted in
    let (marked, sel) =
      claim_within-ok q worker batch_size (limit -ℤ pos n) locked now (counting begun).1 js h'' in
    let counted_n : n ≡ count_rows (runs_in q) w.db.jobs = cc in
    let written =
      ap (λ (x : Result (List Job) × World Db). x.1.db) e
      ∙ marked
      ∙ ap (mark_claimed worker now (ids_of js)) same in
    (
      elim kept [
        | inl d ↦ d ∙ written
        | inr (no_job, d) ↦
            d
            ∙ sym (
                ap (λ l. mark_claimed worker now (ids_of l) w.db) (nil_of js no_job)
                ∙ mark_claimed-nil worker now w.db)
      ],
      subst (λ m. Chosen q batch_size locked now (limit -ℤ pos m) w.db js) counted_n
          (subst (λ x. Chosen q batch_size locked now (limit -ℤ pos n) x js) same sel),
    )

-- A claim that fails, at whichever of its statements, has changed no table.
pub claim_batch-err :
    (q worker : ℕ) (batch_size limit : ℤ) (locked : ℕ → Bool) (now : ℕ) (w : World Db) (e : GoError)
    → (claim_batch q worker batch_size limit locked now w).0 ≡ err e
    → (claim_batch q worker batch_size limit locked now w).1.db ≡ w.db
unfolding claim_batch
claim_batch-err q worker batch_size limit locked now w e h =
    transaction-err is_cons (claim_rows q worker batch_size limit locked now) w h
