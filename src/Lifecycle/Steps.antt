-- ===== src/Lifecycle/Steps.antt =====
-- What one operation does to the row of a job, and to the ids of the table.
use codity_assignment.Base.{
  refl, ℕ, Bool, ◌≡◌, ◌⊎◌, ◌/◌, ◌&&◌, Bool-cases, inl, count_rows, subst, inr, sym, arith, List,
  first_row, some, true, update_rows, ap, ◌∷◌, if◌then◌else◌, ◌∙◌, [], ==→eq,
}
use codity_assignment.Exec.{sql, ◌>>=◌, map_err, World, Result, Exec, ok, continue, on_error, err}
use codity_assignment.JobRepo.Updates.{
  reclaim_stale, promote_scheduled, is_due, is_stale, change, is_waiting, to_reclaimed,
}
use codity_assignment.Domain.Job.{
  dead, Job, pending, cancelled, Status, running, scheduled, succeeded, failed,
}
use codity_assignment.Store.{Db}
use codity_assignment.JobRepo.{has_id}
use codity_assignment.Errors.{GoError, wrapf}
use codity_assignment.Retry.{second}
use codity_assignment.Lifecycle.{runs}
use codity_assignment.Tables.{first-update}
use codity_assignment.Domain.Job.Statuses.{is_running}
use codity_assignment.JobRepo.Updates

-- The statement is not reached, or has changed the rows that pass.
abbrev pub Changes : (Job → Bool) → (Job → Job) → Db → Db → Type 0
Changes p f before after = (after ≡ before) ⊎ (after ≡ change p f before)

pub sql-Changes :
    {A : Type 0} (r : Db → Result A) (p : Job → Bool) (f : Job → Job) (w : World Db)
    → Changes p f w.db (sql (λ d. (r d, change p f d)) w).1.db
unfolding sql
sql-Changes r p f w = elim (Bool-cases (w.down w.calls)) [
  | inl e ↦ inl (rw e refl)
  | inr e ↦ inr (rw e refl)
]

then_checked :
    {A : Type 0} (g : GoError → GoError) (m : Exec Db A) (k : A → Exec Db (Unit {0})) (w : World Db)
    → ((a : A) (v : World Db) → (k a v).1.db ≡ v.db)
    → ((map_err g m >>= k) w).1.db ≡ (m w).1.db
unfolding ◌>>=◌ map_err
then_checked {A = A} g m k w h = by_result (m w).0
  where
    by_result : (r : Result A) → (continue (on_error g r) k (m w).1).1.db ≡ (m w).1.db
    by_result (ok a) = h a (m w).1
    by_result (err e) = refl

pub cancel-Changes :
    (i now : ℕ) (w : World Db)
    → Changes
        (λ j. has_id i j && is_waiting j.status)
        (λ j. record j { status = cancelled; updated_at = now })
        w.db
        (Updates.cancel i now w).1.db
unfolding Updates.cancel
cancel-Changes i now w =
    subst (Changes _ _ w.db) (sym (then_checked (wrapf "cancel job") _ _ w (λ a v. ground arith)))
      (sql-Changes (λ d. ok (count_rows _ d.jobs)) _ _ w)

pub promote-Changes :
    (now : ℕ) (w : World Db)
    → Changes
        (is_due now)
        (λ j. record j { status = pending; updated_at = now })
        w.db
        (promote_scheduled now w).1.db
unfolding promote_scheduled map_err
promote-Changes now w = sql-Changes (λ d. ok (count_rows (is_due now) d.jobs)) _ _ w

pub reclaim-Changes :
    (timeout now : ℕ) (w : World Db)
    → Changes
        (is_stale (timeout / second) now)
        (to_reclaimed now)
        w.db
        (reclaim_stale timeout now w).1.db
unfolding reclaim_stale map_err
reclaim-Changes timeout now w =
    sql-Changes (λ d. ok (count_rows (is_stale (timeout / second) now) d.jobs)) _ _ w

-- The status of the row with an id, after an operation: as before, or moved.
abbrev pub Moved : (Status → Status → Type 0) → Status → ℕ → Db → Type 0
Moved R s k d =
    (j : Job) × ((first_row (has_id k) d.jobs ≡ some j) × ((s ≡ j.status) ⊎ R s j.status))

pub row_kept :
    (R : Status → Status → Type 0) (k : ℕ) (d d' : Db) (j : Job)
    → first_row (has_id k) d.jobs ≡ some j
    → d' ≡ d
    → Moved R j.status k d'
row_kept R k d d' j h e = (j, (ap (λ (x : Db). first_row (has_id k) x.jobs) e ∙ h, inl refl))

pub row_updated :
    (k : ℕ) (p : Job → Bool) (f : Job → Job) (xs : List Job) (j : Job)
    → ((x : Job) → has_id k (f x) ≡ has_id k x)
    → first_row (has_id k) xs ≡ some j
    → first_row (has_id k) (update_rows p f xs) ≡ some (if p j then f j else j)
row_updated k p f xs j h e = first-update (has_id k) p f xs h ∙ rw e refl

-- A change of rows, each of which makes a move, moves every row or leaves it.
pub change-Moved :
    (R : Status → Status → Type 0) (k : ℕ) (p : Job → Bool) (f : Job → Job) (d : Db) (j : Job)
    → ((x : Job) → has_id k (f x) ≡ has_id k x)
    → first_row (has_id k) d.jobs ≡ some j
    → (p j ≡ true → R j.status (f j).status)
    → Moved R j.status k (change p f d)
change-Moved R k p f d j h e m = elim (Bool-cases (p j)) [
  | inl t ↦ (f j, (row_updated k p f d.jobs j h e ∙ rw t refl, inr (m t)))
  | inr t ↦ (j, (row_updated k p f d.jobs j h e ∙ rw t refl, inl refl))
]

pub Changes-Moved :
    (R : Status → Status → Type 0) (k : ℕ) (p : Job → Bool) (f : Job → Job) (d d' : Db) (j : Job)
    → ((x : Job) → has_id k (f x) ≡ has_id k x)
    → first_row (has_id k) d.jobs ≡ some j
    → (p j ≡ true → R j.status (f j).status)
    → Changes p f d d'
    → Moved R j.status k d'
Changes-Moved R k p f d d' j h e m (inl same) = row_kept R k d d' j e same
Changes-Moved R k p f d d' j h e m (inr new) =
    subst (Moved R j.status k) (sym new) (change-Moved R k p f d j h e m)

pub waiting-cancelled : (s : Status) → is_waiting s ≡ true → (s ≡ pending) ⊎ (s ≡ scheduled)
waiting-cancelled pending h = inl refl
waiting-cancelled scheduled h = inr refl
waiting-cancelled running h = absurd (cc)
waiting-cancelled succeeded h = absurd (cc)
waiting-cancelled failed h = absurd (cc)
waiting-cancelled dead h = absurd (cc)
waiting-cancelled cancelled h = absurd (cc)

pub row_id : (k : ℕ) (xs : List Job) (j : Job) → first_row (has_id k) xs ≡ some j → j.id ≡ k
unfolding first_row
row_id k [] j h = absurd (cc)
row_id k (x ∷ xs) j h = ground (arith, row_id k xs j)

-- A fenced outcome meets a running row.
pub fenced-running :
    (i k : ℕ) (d : Db) (j : Job)
    → runs (first_row (has_id i) d.jobs) ≡ true
    → first_row (has_id k) d.jobs ≡ some j
    → has_id i j ≡ true
    → j.status ≡ running
fenced-running i k d j fence row own =
    let same : k ≡ i = sym (row_id k d.jobs j row) ∙ ==→eq j.id i own in
    let at_i : first_row (has_id i) d.jobs ≡ some j =
      subst (λ n. first_row (has_id n) d.jobs ≡ some j) same row in
    is_running j.status (ap runs (sym at_i) ∙ fence)
