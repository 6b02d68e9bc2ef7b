-- ===== src/Lifecycle/Refined.antt =====
-- The operations on the jobs implement the moves of their statuses.
use mathlib.Core.List.{Memᴰ}
use codity_assignment.Base.{
  refl, elem, ℕ, ℤ, Bool, List, first_row, All, ◌≡◌, some, true, ◌∷◌, Bool-cases, ◌==◌, inr, arith,
  inl, subst, ==→eq, sym, ◌∙◌, [], ◌⊎◌,
}
use codity_assignment.JobRepo.Claim.{mark_claimed, eligible, claim_batch, claim_row}
use codity_assignment.Store.{Db}
use codity_assignment.Lifecycle.{
  perform, Op, fenced, runs, claim, Move, succeed, completed, bury, buried, retry, returned, cancel,
  promote, promoted, reclaim, claimed, Does, cancelled_pending, cancelled_scheduled,
}
use codity_assignment.JobRepo.Updates.{mark_succeeded, mark_dead, schedule_retry, change}
use codity_assignment.Domain.Job.{Job, pending, running, ◌is◌, Status}
use codity_assignment.Tables.{Distinct, first-mem}
use codity_assignment.Exec.{World, Result, sql, err, ok}
use codity_assignment.JobRepo.{has_id}
use codity_assignment.Lifecycle.Steps.{
  Moved, Changes-Moved, row_kept, fenced-running, waiting-cancelled, cancel-Changes, sql-Changes,
  row_id, change-Moved, promote-Changes, reclaim-Changes,
}
use codity_assignment.JobRepo.Claim.Effect.{ids_of, claim_batch-err, claim_batch-ok}
use codity_assignment.JobRepo.Claim.Sound.{claim_batch-eligible}
use codity_assignment.Domain.Job.Statuses.{is_scheduled, is_pending, is_running}
use codity_assignment.JobRepo.Updates

abbrev pub HasIds : Db → Type 0
HasIds d = Distinct (λ (j : Job). j.id) d.jobs

some_injective : {A : Type 0} (a b : A) → some a ≡ some b → a ≡ b
some_injective a b h = cc

-- The row that an operation on the job i changes is the row of i.
own_id :
    (i k : ℕ) (d : Db) (j : Job) → first_row (has_id k) d.jobs ≡ some j → has_id i j ≡ true → k ≡ i
own_id i k d j row own = sym (row_id k d.jobs j row) ∙ ==→eq j.id i own

mark-Moved :
    (i k : ℕ) (f : Job → Job) (t : Status) (w : World Db) (j : Job)
    → ((x : Job) → has_id k (f x) ≡ has_id k x)
    → first_row (has_id k) w.db.jobs ≡ some j
    → runs (first_row (has_id i) w.db.jobs) ≡ true
    → (f j).status ≡ t
    → Moved
        (λ s u. (k ≡ i) × (s ≡ running) × (u ≡ t))
        j.status
        k
        (sql {A = Unit {0}} (λ d. (ok tt, change (has_id i) f d)) w).1.db
mark-Moved i k f t w j keep row fence e =
    Changes-Moved (λ s u. (k ≡ i) × (s ≡ running) × (u ≡ t)) k (has_id i) f w.db _ j keep row
      (λ own. (own_id i k w.db j row own, fenced-running i k w.db j fence row own, e))
      (sql-Changes (λ _. ok tt) (has_id i) f w)

-- The row of a claimed id is one of the selected ones, which were pending.
selected :
    (q now : ℕ) (locked : ℕ → Bool) (d : Db) (js : List Job) (j : Job)
    → HasIds d
    → All (λ l. Memᴰ l d.jobs × (eligible q now locked l ≡ true)) js
    → first_row (has_id j.id) d.jobs ≡ some j
    → elem j.id (ids_of js) ≡ true
    → j.status ≡ pending
unfolding elem
selected q now locked d [] j ids h row e = absurd (cc)
selected q now locked d (l ∷ js) j ids h row e = elim (Bool-cases (j.id == l.id)) [
  | inr other ↦ selected q now locked d js j ids h.1 row (ground arith)
  | inl own ↦
      let same : first_row (has_id l.id) d.jobs ≡ some l =
        first-mem (λ (x : Job). x.id) l d.jobs ids h.0.0 in
      let at_l : first_row (has_id l.id) d.jobs ≡ some j =
        subst (λ n. first_row (has_id n) d.jobs ≡ some j) (==→eq j.id l.id own) row in
      let eq : l ≡ j = some_injective l j (sym same ∙ at_l) in
      is_pending j.status
        (subst (λ x. x.status is pending ≡ true) eq (let fits = h.0.1 in ground arith))
]

-- The purpose of a claim.
abbrev Claims : Status → Status → Type 0
Claims s t = (s ≡ pending) × (t ≡ running)

claim-Moved :
    (q worker : ℕ) (batch_size limit : ℤ) (locked : ℕ → Bool) (now k : ℕ) (w : World Db) (j : Job)
    → HasIds w.db
    → first_row (has_id k) w.db.jobs ≡ some j
    → Moved Claims j.status k (claim_batch q worker batch_size limit locked now w).1.db
unfolding mark_claimed
claim-Moved q worker batch_size limit locked now k w j ids row =
    by_result (claim_batch q worker batch_size limit locked now w).0 refl
  where
    by_result :
        (r : Result (List Job))
        → (claim_batch q worker batch_size limit locked now w).0 ≡ r
        → Moved Claims j.status k (claim_batch q worker batch_size limit locked now w).1.db
    by_result (err e) h =
        row_kept Claims k w.db _ j row (claim_batch-err q worker batch_size limit locked now w e h)
    by_result (ok js) h =
        let marked = (claim_batch-ok q worker batch_size limit locked now w js h).0 in
        let fits = claim_batch-eligible q worker batch_size limit locked now w js h in
        let at_own : first_row (has_id j.id) w.db.jobs ≡ some j =
          subst (λ n. first_row (has_id n) w.db.jobs ≡ some j) (sym (row_id k w.db.jobs j row))
            row in
        subst (Moved Claims j.status k) (sym marked) (
          change-Moved Claims k (λ x. elem x.id (ids_of js)) (claim_row worker now) w.db j
            (λ x. refl) row (λ own. (selected q now locked w.db js j ids fits at_own own, refl)))

-- An operation leaves the status of a job, or makes the move that is its purpose: a claim takes a
-- pending job to running, an outcome takes the running job that it names to succeeded, dead or
-- pending, a cancellation takes the job that it names from pending or scheduled to cancelled, a
-- promotion takes a scheduled job to pending, and a reclaim a running one. The ids are distinct, and
-- an outcome is written for a running job, which the statements do not test.
pub perform-Does :
    (o : Op) (k : ℕ) (w : World Db) (j : Job)
    → HasIds w.db
    → fenced o w.db ≡ true
    → first_row (has_id k) w.db.jobs ≡ some j
    → (l : Job) × ((first_row (has_id k) (perform o w).db.jobs ≡ some l)
        × ((j.status ≡ l.status) ⊎ Does o k j.status l.status))
unfolding perform mark_succeeded mark_dead schedule_retry
perform-Does (claim q worker batch_size limit locked now) k w j ids f row =
    claim-Moved q worker batch_size limit locked now k w j ids row
perform-Does (succeed i at now) k w j ids f row =
    mark-Moved i k (Updates.to_succeeded at now) _ w j (λ x. refl) row f refl
perform-Does (bury i msg at now) k w j ids f row =
    mark-Moved i k (Updates.to_dead msg at now) _ w j (λ x. refl) row f refl
perform-Does (retry i run_at attempts now) k w j ids f row =
    mark-Moved i k (Updates.to_retry run_at attempts now) _ w j (λ x. refl) row f refl
perform-Does (cancel i now) k w j ids f row =
    Changes-Moved (Does (cancel i now) k) k _ _ w.db _ j (λ x. refl) row
      (λ h. (own_id i k w.db j row (ground arith), waiting-cancelled j.status (ground arith), refl))
      (cancel-Changes i now w)
perform-Does (promote now) k w j ids f row =
    Changes-Moved (Does (promote now) k) k _ _ w.db _ j (λ x. refl) row
      (λ h. (is_scheduled j.status (ground arith), refl)) (promote-Changes now w)
perform-Does (reclaim timeout now) k w j ids f row =
    Changes-Moved (Does (reclaim timeout now) k) k _ _ w.db _ j (λ x. refl) row
      (λ h. (is_running j.status (ground arith), refl)) (reclaim-Changes timeout now w)

move_at : {s t s' t' : Status} → s ≡ s' → t ≡ t' → Move s' t' → Move s t
move_at {s} {t} {s'} {t'} e h m = subst (λ x. Move x t) (sym e) (subst (λ x. Move s' x) (sym h) m)

Does-Move : (o : Op) (k : ℕ) (s t : Status) → Does o k s t → Move s t
Does-Move (claim q worker batch_size limit locked now) k s t (a, b) = move_at a b claimed
Does-Move (succeed i at now) k s t (own, a, b) = move_at a b completed
Does-Move (bury i msg at now) k s t (own, a, b) = move_at a b buried
Does-Move (retry i run_at attempts now) k s t (own, a, b) = move_at a b returned
Does-Move (cancel i now) k s t (own, inl a, b) = move_at a b cancelled_pending
Does-Move (cancel i now) k s t (own, inr a, b) = move_at a b cancelled_scheduled
Does-Move (promote now) k s t (a, b) = move_at a b promoted
Does-Move (reclaim timeout now) k s t (a, b) = move_at a b returned

-- So it moves the status of every job as the life of a job allows, or leaves it.
pub perform-Moved :
    (o : Op) (k : ℕ) (w : World Db) (j : Job)
    → HasIds w.db
    → fenced o w.db ≡ true
    → first_row (has_id k) w.db.jobs ≡ some j
    → Moved Move j.status k (perform o w).db
perform-Moved o k w j ids f row =
    let (l, (found, way)) = perform-Does o k w j ids f row in
    elim way [
      | inl same ↦ (l, (found, inl same))
      | inr did ↦ (l, (found, inr (Does-Move o k j.status l.status did)))
    ]
