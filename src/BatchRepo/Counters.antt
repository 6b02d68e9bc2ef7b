-- ===== src/BatchRepo/Counters.antt =====
-- The counters of a batch.
use codity_assignment.Domain.Batch.{Batch}
use codity_assignment.BatchRepo.{increment_counters, batch_has_id, counted}
use codity_assignment.Base.{
  ℤ, update_rows, Bool, ◌+ℤ◌, ℕ, ◌≡◌, List, All, ◌-ℤ◌, ◌∷◌, eq_of_parts, if◌then◌else◌, arith, [],
  +ℤ_parts, -ℤ_parts, ap, pos_part, neg_part,
}
use codity_assignment.Exec.{World, ok}
use codity_assignment.Store.{Db}
use codity_assignment.Exec.Laws.{sql-ok}

sum_kept : (p s f t a b : ℤ) → p +ℤ s +ℤ f ≡ t → (p -ℤ (a +ℤ b)) +ℤ (s +ℤ a) +ℤ (f +ℤ b) ≡ t
sum_kept p s f t a b h =
    let r : ℤ = p -ℤ (a +ℤ b) in
    eq_of_parts _ _ (
      omega (
        arith,
        +ℤ_parts a b,
        -ℤ_parts p (a +ℤ b),
        +ℤ_parts s a,
        +ℤ_parts f b,
        +ℤ_parts r (s +ℤ a),
        +ℤ_parts (r +ℤ (s +ℤ a)) (f +ℤ b),
        +ℤ_parts p s,
        +ℤ_parts (p +ℤ s) f,
        ap pos_part h,
        ap neg_part h,
      ))

-- The pending, succeeded and failed jobs of a batch add up to all its jobs.
abbrev pub IsBalanced : Batch → Type 0
IsBalanced b = b.pending_count +ℤ b.succeeded_count +ℤ b.failed_count ≡ b.total_jobs

All-update :
    (p : Batch → Bool) (f : Batch → Batch) (bs : List Batch)
    → ((b : Batch) → IsBalanced b → IsBalanced (f b))
    → All IsBalanced bs
    → All IsBalanced (update_rows p f bs)
unfolding update_rows
All-update p f [] k h = tt
All-update p f (b ∷ bs) k h = (by_test (p b), All-update p f bs k h.1)
  where
    by_test : (c : Bool) → IsBalanced (if c then f b else b)
    by_test Bool.true = k b h.0
    by_test Bool.false = h.0

-- If the counters of every batch add up to its jobs, they do so after any increment, even one that
-- counts more jobs than are pending.
pub increment_counters-IsBalanced :
    (i : ℕ) (succeeded failed : ℤ) (at : ℕ) (w : World Db)
    → All IsBalanced w.db.batches
    → (increment_counters i succeeded failed at w).0 ≡ ok tt
    → All IsBalanced (increment_counters i succeeded failed at w).1.db.batches
unfolding increment_counters
increment_counters-IsBalanced i succeeded failed at w balanced h =
    let (r, e) =
      sql-ok
        (λ d. (
          ok tt,
          record d {
            batches = update_rows (batch_has_id i) (counted succeeded failed at) d.batches;
          },
        ))
        w h in
    rw e (
      All-update (batch_has_id i) (counted succeeded failed at) w.db.batches
        (λ b k.
          sum_kept b.pending_count b.succeeded_count b.failed_count b.total_jobs succeeded failed k)
        balanced)
