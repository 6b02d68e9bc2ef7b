-- ===== src/Lifecycle/Runs.antt =====
-- What a run of operations does to the status of a job.
use codity_assignment.Base.{
  refl, ℕ, ◌≡◌, Bool, ◌⊎◌, first_row, ℤ, ◌||◌, some, inl, false, List, true, subst, sym, inr,
}
use codity_assignment.JobRepo.Claim.{mark_claimed, claim_batch, claim_row}
use codity_assignment.Exec.{World, sql, Result, err, ok}
use codity_assignment.Domain.Job.{Status, Job, cancelled, ◌is◌, succeeded, dead}
use codity_assignment.JobRepo.Updates.{mark_succeeded, mark_dead, schedule_retry}
use codity_assignment.Lifecycle.{
  cancelled_scheduled, cancelled_pending, promoted, returned, completed, perform, Life, History,
  Move, Op, claim, succeed, stays, step, moves, claimed, bury, done, retry, cancel, promote,
  reclaim, buried, promoted, cancelled_pending,
}
use codity_assignment.Store.{Db}
use codity_assignment.Lifecycle.Refined.{HasIds, perform-Moved}
use codity_assignment.Lifecycle.Steps.{
  Changes, sql-Changes, cancel-Changes, promote-Changes, reclaim-Changes,
}
use codity_assignment.JobRepo.{has_id}
use codity_assignment.Tables.{first-update_hit, update-Distinct}
use codity_assignment.JobRepo.Claim.Effect.{claim_batch-err, claim_batch-ok}
use codity_assignment.JobRepo.Updates

Changes-HasIds :
    (p : Job → Bool) (f : Job → Job) (d d' : Db)
    → ((x : Job) → (f x).id ≡ x.id)
    → HasIds d
    → Changes p f d d'
    → HasIds d'
Changes-HasIds p f d d' keep ids (inl same) = subst HasIds (sym same) ids
Changes-HasIds p f d d' keep ids (inr new) =
    subst HasIds (sym new) (update-Distinct (λ (x : Job). x.id) p f d.jobs keep ids)

claim-HasIds :
    (q worker : ℕ) (batch_size limit : ℤ) (locked : ℕ → Bool) (now : ℕ) (w : World Db)
    → HasIds w.db
    → HasIds (claim_batch q worker batch_size limit locked now w).1.db
unfolding mark_claimed
claim-HasIds q worker batch_size limit locked now w ids =
    by_result (claim_batch q worker batch_size limit locked now w).0 refl
  where
    by_result :
        (r : Result (List Job))
        → (claim_batch q worker batch_size limit locked now w).0 ≡ r
        → HasIds (claim_batch q worker batch_size limit locked now w).1.db
    by_result (err e) h =
        subst HasIds (sym (claim_batch-err q worker batch_size limit locked now w e h)) ids
    by_result (ok js) h =
        subst HasIds (sym (claim_batch-ok q worker batch_size limit locked now w js h).0)
          (update-Distinct (λ (x : Job). x.id) _ (claim_row worker now) w.db.jobs (λ x. refl) ids)

-- An operation keeps the ids of the jobs distinct.
pub perform-HasIds : (o : Op) (w : World Db) → HasIds w.db → HasIds (perform o w).db
unfolding perform mark_succeeded mark_dead schedule_retry
perform-HasIds (claim q worker batch_size limit locked now) w ids =
    claim-HasIds q worker batch_size limit locked now w ids
perform-HasIds (succeed i at now) w ids =
    Changes-HasIds (has_id i) (Updates.to_succeeded at now) w.db _ (λ x. refl) ids
      (sql-Changes (λ _. ok tt) (has_id i) (Updates.to_succeeded at now) w)
perform-HasIds (bury i msg at now) w ids =
    Changes-HasIds (has_id i) (Updates.to_dead msg at now) w.db _ (λ x. refl) ids
      (sql-Changes (λ _. ok tt) (has_id i) (Updates.to_dead msg at now) w)
perform-HasIds (retry i run_at attempts now) w ids =
    Changes-HasIds (has_id i) (Updates.to_retry run_at attempts now) w.db _ (λ x. refl) ids
      (sql-Changes (λ _. ok tt) (has_id i) (Updates.to_retry run_at attempts now) w)
perform-HasIds (cancel i now) w ids =
    Changes-HasIds _ _ w.db _ (λ x. refl) ids (cancel-Changes i now w)
perform-HasIds (promote now) w ids =
    Changes-HasIds _ _ w.db _ (λ x. refl) ids (promote-Changes now w)
perform-HasIds (reclaim timeout now) w ids =
    Changes-HasIds _ _ w.db _ (λ x. refl) ids (reclaim-Changes timeout now w)

after-Move : {s t u : Status} → (s ≡ t) ⊎ Move s t → Life t u → Life s u
after-Move {u = u} (inl e) l = subst (λ x. Life x u) (sym e) l
after-Move (inr m) l = moves m l

-- Every run of claims, outcomes, cancellations, promotions and reclaims, in any order and whatever
-- of them fails, takes the status of each job along the moves of its life, where the ids are
-- distinct and each outcome is written for a job that is running.
pub History-Life :
    (w v : World Db) (k : ℕ) (j : Job)
    → History w v
    → HasIds w.db
    → first_row (has_id k) w.db.jobs ≡ some j
    → (l : Job) × ((first_row (has_id k) v.db.jobs ≡ some l) × Life j.status l.status)
History-Life w v k j done ids row = (j, (row, stays))
History-Life w v k j (step o f r) ids row =
    let (m, (row', moved)) = perform-Moved o k w j ids f row in
    let (l, (end, life)) = History-Life (perform o w) v k m r (perform-HasIds o w ids) row' in
    (l, (end, after-Move moved life))

terminal_stays :
    (s t : Status) → s is succeeded || s is dead || s is cancelled ≡ true → Life s t → t ≡ s
terminal_stays s t h stays = refl
terminal_stays s t h (moves claimed l) = absurd (cc)
terminal_stays s t h (moves completed l) = absurd (cc)
terminal_stays s t h (moves buried l) = absurd (cc)
terminal_stays s t h (moves returned l) = absurd (cc)
terminal_stays s t h (moves promoted l) = absurd (cc)
terminal_stays s t h (moves cancelled_pending l) = absurd (cc)
terminal_stays s t h (moves cancelled_scheduled l) = absurd (cc)

no_revival : ¬ Life cancelled succeeded
no_revival l = let e = terminal_stays cancelled succeeded refl l in absurd (cc)

-- The statement of a success does not ask for a running job: a cancelled job becomes succeeded by it,
-- which is no move of its life.
pub mark_succeeded-cancelled :
    (i at now : ℕ) (w : World Db) (j : Job)
    → first_row (has_id i) w.db.jobs ≡ some j
    → j.status ≡ cancelled
    → w.down w.calls ≡ false
    → ((l : Job) × ((first_row (has_id i) (mark_succeeded i at now w).1.db.jobs ≡ some l)
          × (l.status ≡ succeeded)
          × (¬ Life j.status l.status)))
unfolding mark_succeeded sql
mark_succeeded-cancelled i at now w j row was up = (
  Updates.to_succeeded at now j,
  (
    rw up (first-update_hit (has_id i) (Updates.to_succeeded at now) w.db.jobs j (λ x. refl) row),
    refl,
    λ l. no_revival (subst (λ s. Life s succeeded) was l),
  ),
)
