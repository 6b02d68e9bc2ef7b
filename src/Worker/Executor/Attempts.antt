-- ===== src/Worker/Executor/Attempts.antt =====
-- How often a job that always fails is executed.
use codity_assignment.Worker.Registry.{Registry, Handler, get}
use codity_assignment.Retry.{Source, next_run_at}
use codity_assignment.Base.{
  ℕ, String, ◌≡◌, suc, pos, if◌then◌else◌, ◌≤ℤ◌, Option, ◌<ℤ◌, some, ◌+◌, ℤ, zero, max, ◌<◌,
  pos_part, ◌≤◌, arith, dec_lt, refl, ◌∙◌, first_row, [], ◌∷◌, false, elem, ap, min, Bool, ◌⊎◌,
  ==-refl, inl, ◌==◌, inr,
}
use codity_assignment.Domain.Job.{Job, ◌is◌, pending, dead}
use codity_assignment.Worker.Executor.Outcome.{outcome, execute-outcome, apply_outcome}
use codity_assignment.JobRepo.Claim.{claim_row, mark_claimed}
use codity_assignment.Worker.Executor.{timeout_of, policy_of, execute}
use codity_assignment.JobRepo.Updates.{
  to_retry, to_dead, mark_dead, mark_succeeded, schedule_retry, change,
}
use codity_assignment.Exec.{World, sql, ◌>>=◌, ◌>>◌}
use codity_assignment.Store.{Db}
use codity_assignment.JobRepo.{has_id}
use codity_assignment.Lifecycle.Steps.{row_id, row_updated}

-- A claim of the row, as the UPDATE of ClaimBatch marks it, and the execution of the job.
abbrev claimed_run : Registry → Source → ℕ → ℕ → ℕ → ℕ → Job → World Db → World Db
claimed_run r s worker at now i j w =
    (execute r s j at now (record w { db = mark_claimed worker now (i ∷ []) w.db })).1

abbrev on_row : Registry → Source → ℕ → ℕ → ℕ → ℕ → Option Job → World Db → World Db
on_row r s worker at now i Option.none w = w
on_row r s worker at now i (Option.some j) w =
    if j.status is pending then claimed_run r s worker at now i j w else w

-- One round on the row with an id: a row is claimed only while it is pending.
unfoldable pub round : Registry → Source → ℕ → ℕ → ℕ → ℕ → World Db → World Db
round r s worker at now i w = on_row r s worker at now i (first_row (has_id i) w.db.jobs) w

-- n rounds, each at its own time.
unfoldable pub rounds : Registry → Source → ℕ → (ℕ → ℕ) → (ℕ → ℕ) → ℕ → ℕ → World Db → World Db
rounds r s worker at now i zero w = w
rounds r s worker at now i (suc n) w =
    rounds r s worker at now i n (round r s worker (at n) (now n) i w)

-- The handler fails on every job, and the backoff computes a time.
pub record Fails (r : Registry) (s : Source) (job_type : String) (msg : String) : Type 0 where
  pub fails :
      (j : Job)
      → j.job_type ≡ job_type
      → (h : Handler) × (get j.job_type r ≡ some h) × (h (timeout_of j) j ≡ some msg)
  pub delays : (j : Job) (a : ℤ) (at : ℕ) → (t : ℕ) × (next_run_at s (policy_of j) a at ≡ some t)

-- A job gets at least one execution.
abbrev pub budget : Job → ℕ
budget j = max 1 (pos_part j.max_retries)

-- The row with the id, and what holds of it.
abbrev pub RowIs : ℕ → World Db → (Job → Type 0) → Type 0
RowIs i w P = (k : Job) × ((first_row (has_id i) w.db.jobs ≡ some k) × P k)

module _ (r : Registry) (s : Source) (worker at now : ℕ) where
  execute_keeps_down : (j : Job) (w : World Db) → (execute r s j at now w).1.down ≡ w.down
  unfolding execute mark_dead mark_succeeded schedule_retry sql ◌>>=◌ ◌>>◌
  execute_keeps_down j w = ground arith

  round-down : (i : ℕ) (w : World Db) → (round r s worker at now i w).down ≡ w.down
  unfolding round
  round-down i w = by_row (first_row (has_id i) w.db.jobs)
    where
      by_row : (o : Option Job) → (on_row r s worker at now i o w).down ≡ w.down
      by_row Option.none = refl
      by_row (Option.some j) =
          let e = execute_keeps_down j (record w { db = mark_claimed worker now (i ∷ []) w.db }) in
          ground arith

  round_pending :
      (i : ℕ) (w : World Db) (j : Job)
      → first_row (has_id i) w.db.jobs ≡ some j
      → j.status ≡ pending
      → round r s worker at now i w ≡ claimed_run r s worker at now i j w
  unfolding round
  round_pending i w j row p =
      ap (λ o. on_row r s worker at now i o w) row
      ∙ ap (λ t. if t is pending then claimed_run r s worker at now i j w else w) p

  round_other :
      (i : ℕ) (w : World Db) (j : Job)
      → first_row (has_id i) w.db.jobs ≡ some j
      → j.status ≡ dead
      → round r s worker at now i w ≡ w
  unfolding round
  round_other i w j row p =
      ap (λ o. on_row r s worker at now i o w) row
      ∙ ap (λ t. if t is pending then claimed_run r s worker at now i j w else w) p

  marked_row :
      (i : ℕ) (w : World Db) (j : Job)
      → first_row (has_id i) w.db.jobs ≡ some j
      → first_row (has_id i) (mark_claimed worker now (i ∷ []) w.db).jobs
        ≡ some (claim_row worker now j)
  unfolding mark_claimed elem
  marked_row i w j row =
      row_updated i (λ k. elem k.id (i ∷ [])) (claim_row worker now) w.db.jobs j (λ x. refl) row
      ∙ (let own = row_id i w.db.jobs j row in rw own (rw (==-refl i) refl))

  -- What a round writes to a pending row.
  round-row :
      (i : ℕ) (w : World Db) (j : Job) (g : Job → Job)
      → first_row (has_id i) w.db.jobs ≡ some j
      → j.status ≡ pending
      → w.down w.calls ≡ false
      → outcome r s j at now ≡ some g
      → ((x : Job) → (g x).id ≡ x.id)
      → first_row (has_id i) (round r s worker at now i w).db.jobs
        ≡ some (g (claim_row worker now j))
  round-row i w j g row p up o keep =
      let w1 : World Db = record w { db = mark_claimed worker now (i ∷ []) w.db } in
      let own = row_id i w.db.jobs j row in
      let written : (round r s worker at now i w).db ≡ change (has_id j.id) g w1.db =
        ap (λ (v : World Db). v.db) (round_pending i w j row p)
        ∙ execute-outcome r s j at now w1 up
        ∙ ap (λ q. apply_outcome j.id q w1.db) o in
      ap (λ (d : Db). first_row (has_id i) d.jobs) written
      ∙ row_updated i (has_id j.id) g w1.db.jobs (claim_row worker now j)
          (λ x. ap (λ n. n == i) (keep x)) (marked_row i w j row)
      ∙ rw (==-refl j.id) refl

module _ (r : Registry) (s : Source) (worker : ℕ) (job_type msg : String)
    (f : Fails r s job_type msg) where
  again :
      (j : Job) (at now : ℕ)
      → j.job_type ≡ job_type
      → pos (suc j.attempt_count) <ℤ j.max_retries
      → (t : ℕ) × (outcome r s j at now ≡ some (to_retry t (j.attempt_count + 1) now))
  unfolding outcome
  again j at now e h =
      let (g, found, failed) = f.fails j e in
      let (t, delay) = f.delays j (pos (j.attempt_count + 1)) at in (t, ground arith)

  last :
      (j : Job) (at now : ℕ)
      → j.job_type ≡ job_type
      → j.max_retries ≤ℤ pos (suc j.attempt_count)
      → outcome r s j at now ≡ some (to_dead msg at now)
  unfolding outcome
  last j at now e h = let (g, found, failed) = f.fails j e in ground arith

  module _ (at now : ℕ → ℕ) (i : ℕ) where
    rounds_of_dead :
        (n : ℕ) (w : World Db) (j : Job)
        → first_row (has_id i) w.db.jobs ≡ some j
        → j.status ≡ dead
        → rounds r s worker at now i n w ≡ w
    unfolding rounds
    rounds_of_dead zero w j row d = refl
    rounds_of_dead (suc n) w j row d =
        ap (rounds r s worker at now i n) (round_other r s worker (at n) (now n) i w j row d)
        ∙ rounds_of_dead n w j row d

    -- After n rounds a pending job that has used a of its executions is dead if a + n reaches
    -- max(1, max_retries), with exactly that many counted; before, it is pending again.
    rounds_count :
        (n : ℕ) (w : World Db) (j : Job)
        → ((c : ℕ) → w.down c ≡ false)
        → first_row (has_id i) w.db.jobs ≡ some j
        → j.job_type ≡ job_type
        → j.status ≡ pending
        → j.attempt_count < budget j
        → (j.attempt_count + n < budget j
            → RowIs i
                (rounds r s worker at now i n w)
                (λ k. (k.status ≡ pending) × (k.attempt_count ≡ j.attempt_count + n)))
          × (budget j ≤ j.attempt_count + n
              → RowIs i
                  (rounds r s worker at now i n w)
                  (λ k. (k.status ≡ dead) × (k.attempt_count ≡ budget j)))
    unfolding rounds
    rounds_count zero w j up row e p b =
        (λ h. (j, (row, (p, omega arith))), λ h. absurd (omega arith))
    rounds_count (suc n) w j up row e p b = elim (dec_lt (suc j.attempt_count) (budget j)) [
      | yes left ↦
          let (t, o) = again j (at n) (now n) e (ground arith) in
          let k : Job = to_retry t (j.attempt_count + 1) (now n) (claim_row worker (now n) j) in
          let w1 = round r s worker (at n) (now n) i w in
          let row1 = round-row r s worker (at n) (now n) i w j _ row p (up _) o (λ x. refl) in
          let up1 = λ (c : ℕ).
            ap (λ (m : ℕ → Bool). m c) (round-down r s worker (at n) (now n) i w) ∙ up c in
          let (alive, over) = rounds_count n w1 k up1 row1 e refl (omega arith) in
          (
            λ h.
                let (m, (found, (q, a))) = alive (omega arith) in
                (m, (found, (q, a ∙ omega arith))),
            λ h. over (omega arith),
          )
      | no spent ↦
          let o = last j (at n) (now n) e (ground arith) in
          let w1 = round r s worker (at n) (now n) i w in
          let row1 = round-row r s worker (at n) (now n) i w j _ row p (up _) o (λ x. refl) in
          let same = rounds_of_dead n w1 _ row1 refl in
          (
            λ h. absurd (omega arith),
            λ h. (
              to_dead msg (at n) (now n) (claim_row worker (now n) j),
              (
                ap (λ (v : World Db). first_row (has_id i) v.db.jobs) same ∙ row1,
                (refl, omega arith),
              ),
            ),
          )
    ]

    -- A pending job whose handler always fails is dead after any n rounds of a claim and an
    -- execution with which it reaches max(1, max_retries) executions, and exactly that many are
    -- counted; with fewer rounds it is pending again, and each is counted. It is assumed that the
    -- database answers, that the backoff computes a time, and that nothing else writes between.
    pub rounds_dead :
        (n : ℕ) (w : World Db) (j : Job)
        → ((c : ℕ) → w.down c ≡ false)
        → first_row (has_id i) w.db.jobs ≡ some j
        → j.job_type ≡ job_type
        → j.status ≡ pending
        → j.attempt_count < budget j
        → RowIs i (rounds r s worker at now i n w) (λ k.
          (k.attempt_count ≡ min (j.attempt_count + n) (budget j))
          × (((k.status ≡ pending) × (j.attempt_count + n < budget j))
              ⊎ ((k.status ≡ dead) × (budget j ≤ j.attempt_count + n))))
    rounds_dead n w j up row e p b =
        let (alive, over) = rounds_count n w j up row e p b in
        elim (dec_lt (j.attempt_count + n) (budget j)) [
          | yes few ↦
              let (k, (found, (q, a))) = alive few in (k, (found, (omega (arith, a), inl (q, few))))
          | no enough ↦
              let (k, (found, (q, a))) = over (omega arith) in
              (k, (found, (omega (arith, a), inr (q, omega arith))))
        ]
