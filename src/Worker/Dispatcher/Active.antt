-- ===== src/Worker/Dispatcher/Active.antt =====
-- Where the jobs that a tick of the dispatcher submits come from.
use mathlib.Core.List.{Memᴰ}
use codity_assignment.Worker.Dispatcher.{
  dispatch_queue, dispatch_each, dispatch_all, claim_for, dispatch_size, queues_or_none,
}
use codity_assignment.Base.{
  List, ℕ, ℤ, All, ◌++◌, Bool, ◌∷◌, ◌≡◌, [], String, not, if◌then◌else◌, suc, true, inl, inr, refl,
  arith, leb_ℤ, pos,
}
use codity_assignment.Domain.Queue.{Queue}
use codity_assignment.Domain.Job.{Job}
use codity_assignment.Exec.{World, ◌>>=◌, ok, Exec, pure, Result, err}
use codity_assignment.Store.{Db}
use codity_assignment.Exec.Laws.{bind-ok}
use codity_assignment.Sorting.{All-imp, All-mem}
use codity_assignment.QueueRepo.{list_active_prioritized}
use codity_assignment.Worker.Dispatcher.Sound.{claim_for-ok}
use codity_assignment.QueueRepo.Laws.{active-mem}
use codity_assignment.JobRepo.Claim.{eligible}
use codity_assignment.JobRepo.Claim.Sound.{claim_batch-eligible}

-- A queue of a list that the job belongs to.
abbrev InOneOf : List Queue → Job → Type 0
InOneOf qs j = (q : Queue) × Memᴰ q qs × (q.id ≡ j.queue_id)

All-append : {A : Type 0} (P : A → Type 0) (xs ys : List A) → All P xs → All P ys → All P (xs ++ ys)
All-append P [] ys h k = k
All-append P (x ∷ xs) ys h k = (h.0, All-append P xs ys h.1 k)

dispatch_queue-from :
    (worker : ℕ) (batch_size : ℤ) (locked : ℕ → Bool) (now : ℕ) (q : Queue) (available : ℤ)
    (w : World Db) (js : List Job)
    → (dispatch_queue worker batch_size locked now q available w).0 ≡ ok js
    → All (λ j. q.id ≡ j.queue_id) js
unfolding dispatch_queue
dispatch_queue-from worker batch_size locked now q available w js h =
    by_test (leb_ℤ available (pos 0)) h
  where
    by_test :
        (b : Bool)
        → ((if b
              then pure []
              else claim_for worker locked now q (dispatch_size batch_size available))
            w).0
          ≡ ok js
        → All (λ j. q.id ≡ j.queue_id) js
    by_test Bool.true h = let e : js ≡ [] = cc in rw e tt
    by_test Bool.false h =
        elim (claim_for-ok worker locked now q (dispatch_size batch_size available) w js h) [
          | inl e ↦ rw e tt
          | inr e ↦
              All-imp (λ j. Memᴰ j w.db.jobs × (eligible q.id now locked j ≡ true))
                (λ j. q.id ≡ j.queue_id) js (λ j (m, fits). ground arith)
                (claim_batch-eligible q.id worker (dispatch_size batch_size available) q.concurrency
                  locked now w js e)
        ]

module _ (worker : ℕ) (batch_size : ℤ) (locked : ℕ → Bool) (now : ℕ) (readings : ℕ → ℤ × ℤ) where
  dispatch_each-from :
      (n : ℕ) (qs : List Queue) (w : World Db) (js : List Job)
      → (dispatch_each worker batch_size locked now readings n qs w).0 ≡ ok js
      → All (InOneOf qs) js
  unfolding dispatch_each
  dispatch_each-from n [] w js h = let e : js ≡ [] = cc in rw e tt
  dispatch_each-from n (q ∷ qs) w js h =
      by_test (dispatch_each-from (suc n) qs) (leb_ℤ (readings n).0 (pos 0)) h
    where
      rest : Exec Db (List Job)
      rest = dispatch_each worker batch_size locked now readings (suc n) qs

      first : Exec Db (List Job)
      first = dispatch_queue worker batch_size locked now q (readings n).1

      both : Exec Db (List Job)
      both = do ks ← first; more ← rest; pure (ks ++ more)

      by_test :
          ((w1 : World Db) (ks : List Job) → (rest w1).0 ≡ ok ks → All (InOneOf qs) ks)
          → (b : Bool) → ((if b then pure [] else both) w).0 ≡ ok js
          → All (InOneOf (q ∷ qs)) js
      by_test later Bool.true h = let e : js ≡ [] = cc in rw e tt
      by_test later Bool.false h =
          let (ks, got, _, h1) = bind-ok first (λ ks. rest >>= λ more. pure (ks ++ more)) w h in
          let (more, got', _, h2) = bind-ok rest (λ more. pure (ks ++ more)) (first w).1 h1 in
          let e : js ≡ ks ++ more = cc in
          rw e (
            All-append (InOneOf (q ∷ qs)) ks more
              (All-imp (λ j. q.id ≡ j.queue_id) (InOneOf (q ∷ qs)) ks
                (λ j same. (q, Memᴰ.head refl, same))
                (dispatch_queue-from worker batch_size locked now q (readings n).1 w ks got))
              (All-imp (InOneOf qs) (InOneOf (q ∷ qs)) more
                (λ j (o, m, same). (o, Memᴰ.tail m, same)) (later (first w).1 more got')))

  -- Every job that a tick of the dispatcher submits belongs to a queue of the table that is not
  -- paused.
  pub dispatch_all-active :
      (before : String → String → Bool) (w : World Db) (js : List Job)
      → (dispatch_all before worker batch_size locked now readings w).0 ≡ ok js
      → All
          (λ j. (q : Queue) × Memᴰ q w.db.queues × (not q.is_paused ≡ true) × (q.id ≡ j.queue_id))
          js
  unfolding dispatch_all ◌>>=◌
  dispatch_all-active before w js h = by_queues (list_active_prioritized before w).0 refl (
      dispatch_each-from 0 (queues_or_none (list_active_prioritized before w).0)
        (list_active_prioritized before w).1 js h)
    where
      Active : Job → Type 0
      Active j = (q : Queue) × Memᴰ q w.db.queues × (not q.is_paused ≡ true) × (q.id ≡ j.queue_id)

      by_queues :
          (r : Result (List Queue))
          → (list_active_prioritized before w).0 ≡ r
          → All (InOneOf (queues_or_none r)) js
          → All Active js
      by_queues (ok qs) e a =
          let listed = active-mem before w qs e in
          All-imp (InOneOf qs) Active js
            (λ j (q, m, same).
              let (in_table, active) =
                All-mem (λ q. Memᴰ q w.db.queues × (not q.is_paused ≡ true)) q qs m listed in
              (q, in_table, active, same))
            a
      by_queues (err e) r a =
          All-imp (InOneOf []) Active js (λ j (q, m, same). absurd (elim m [ ])) a
