-- ===== src/QueueRepo/Laws.antt =====
-- What the statements on the table of queues promise.
use mathlib.Core.List.{Memᴰ}
use codity_assignment.Base.{
  ◌&&◌, String, ℕ, count_rows, List, Bool, ◌≡◌, ◌+◌, ◌==◌, false, true, arith, All, not, where_rows,
  sort_rows, subst, ◌∷◌, [], refl,
}
use codity_assignment.Store.{Db}
use codity_assignment.Domain.Job.{Job, Status, ◌is◌}
use codity_assignment.Domain.Queue.{Queue}
use codity_assignment.Exec.{World, ok}
use codity_assignment.Sorting.{
  Sorted, sort_rows-Sorted, All-sort_rows, where_rows-pass, All-both, All-where,
}
use codity_assignment.Exec.Laws.{wrapped_query-ok}
use codity_assignment.QueueRepo

seven_counts :
    (i : ℕ) (js : List Job)
    → let c : Status → ℕ = λ s. count_rows (λ (j : Job). j.queue_id == i && j.status is s) js in
      c Status.pending
        + c Status.scheduled
        + c Status.running
        + c Status.succeeded
        + c Status.failed
        + c Status.dead
        + c Status.cancelled
      ≡ count_rows (λ j. j.queue_id == i) js
unfolding count_rows
seven_counts i [] = refl
seven_counts i (j ∷ js) = let h = seven_counts i js in ground arith

-- The seven counts of the statistics of a queue add up to the number of its jobs: each job is in
-- exactly one of them.
pub stats-total :
    (i : ℕ) (d : Db)
    → let s = QueueRepo.stats_of i d in
      s.pending_count + s.scheduled_count + s.running_count + s.succeeded_count + s.failed_count
        + s.dead_count + s.cancelled_count
      ≡ count_rows (λ j. j.queue_id == i) d.jobs
unfolding QueueRepo.stats_of
stats-total i d = seven_counts i d.jobs

All-self :
    (qs rows : List Queue) → ((q : Queue) → Memᴰ q qs → Memᴰ q rows) → All (λ q. Memᴰ q rows) qs
All-self [] rows h = tt
All-self (q ∷ qs) rows h = (h q (Memᴰ.head refl), All-self qs rows (λ o m. h o (Memᴰ.tail m)))

-- The active queues stand in the table and are not paused.
pub active-mem :
    (before : String → String → Bool) (w : World Db) (qs : List Queue)
    → (QueueRepo.list_active_prioritized before w).0 ≡ ok qs
    → All (λ q. Memᴰ q w.db.queues × (not q.is_paused ≡ true)) qs
unfolding QueueRepo.list_active_prioritized
active-mem before w qs h =
    let rows = where_rows (λ (q : Queue). not q.is_paused) w.db.queues in
    let sorted = sort_rows (QueueRepo.queue_before before) rows in
    let (r, e) =
      wrapped_query-ok _
        (λ d.
          ok (
            sort_rows (QueueRepo.queue_before before) (where_rows (λ q. not q.is_paused) d.queues)))
        w h in
    let found : sorted ≡ qs = cc in
    subst (All (λ q. Memᴰ q w.db.queues × (not q.is_paused ≡ true))) found (
      All-both (λ q. Memᴰ q w.db.queues) (λ q. not q.is_paused ≡ true) sorted
        (All-sort_rows _ _ rows
          (All-where _ _ w.db.queues (All-self w.db.queues w.db.queues (λ q m. m))))
        (All-sort_rows _ _ rows (where_rows-pass _ w.db.queues)))

module _ (before : String → String → Bool)
    (total : (x y : String) → before x y ≡ false → before y x ≡ true)
    (trans : (x y z : String) → before x y ≡ true → before y z ≡ true → before x z ≡ true) where
  queue_before-total :
      (a b : Queue)
      → QueueRepo.queue_before before a b ≡ false
      → QueueRepo.queue_before before b a ≡ true
  unfolding QueueRepo.queue_before
  queue_before-total a b h = let t = total a.name b.name in ground arith

  queue_before_trans :
      (a b c : Queue)
      → QueueRepo.queue_before before a b ≡ true
      → QueueRepo.queue_before before b c ≡ true
      → QueueRepo.queue_before before a c ≡ true
  unfolding QueueRepo.queue_before
  queue_before_trans a b c h k = let t = trans a.name b.name c.name in ground arith

  -- Where the collation of the database on names is total and transitive, the queues that the
  -- dispatcher visits are not paused and stand in order: the lowest priority number first, and by
  -- name where the numbers are equal.
  pub active-Sorted :
      (w : World Db) (qs : List Queue)
      → (QueueRepo.list_active_prioritized before w).0 ≡ ok qs
      → Sorted (QueueRepo.queue_before before) qs × All (λ q. not q.is_paused ≡ true) qs
  unfolding QueueRepo.list_active_prioritized
  active-Sorted w qs h =
      let rows = where_rows (λ (q : Queue). not q.is_paused) w.db.queues in
      let sorted = sort_rows (QueueRepo.queue_before before) rows in
      let (r, e) =
        wrapped_query-ok _
          (λ d. ok (
            sort_rows (QueueRepo.queue_before before) (where_rows (λ q. not q.is_paused) d.queues)))
          w h in
      let found : sorted ≡ qs = cc in
      subst (λ xs. Sorted (QueueRepo.queue_before before) xs × All (λ q. not q.is_paused ≡ true) xs)
        found
        (
          sort_rows-Sorted (QueueRepo.queue_before before) queue_before-total queue_before_trans
              rows,
          All-sort_rows _ _ rows (where_rows-pass _ w.db.queues),
        )
