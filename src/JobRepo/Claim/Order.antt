-- ===== src/JobRepo/Claim/Order.antt =====
-- Which jobs a claim selects: only eligible ones, and by priority and age.
use mathlib.Core.List.{Memᴰ}
use codity_assignment.JobRepo.Claim.{claims_before, select_claim, eligible}
use codity_assignment.Base.{
  refl, ℕ, Bool, ◌≡◌, false, true, List, arith, All, ◌∷◌, ◌⊎◌, length, [], sort_rows, where_rows,
  ◌<ℤ◌, ◌≤◌, inl, inr,
}
use codity_assignment.Domain.Job.{Job, pending}
use codity_assignment.Store.{Db}
use codity_assignment.Sorting.{
  All-take, All-sort_rows, take_first, All-where, sort_rows-Sorted, where_rows-pass, mem-sort_rows,
  mem-where_rows, All-imp,
}
use codity_assignment.Domain.Job.Statuses.{is_pending}

claims_before-total : (a b : Job) → claims_before a b ≡ false → claims_before b a ≡ true
unfolding claims_before
claims_before-total a b h = ground arith

claims_before_trans :
    (a b c : Job) → claims_before a b ≡ true → claims_before b c ≡ true → claims_before a c ≡ true
unfolding claims_before
claims_before_trans a b c h k = ground arith

due_of :
    (q now : ℕ) (locked : ℕ → Bool) (j : Job)
    → eligible q now locked j ≡ true
    → (j.queue_id ≡ q) × (j.status ≡ pending) × (j.run_at ≤ now) × (locked j.id ≡ false)
due_of q now locked j h =
    (ground arith, is_pending j.status (ground arith), ground arith, ground arith)

of_due :
    (q now : ℕ) (locked : ℕ → Bool) (j : Job)
    → j.queue_id ≡ q
    → j.status ≡ pending
    → j.run_at ≤ now
    → locked j.id ≡ false
    → eligible q now locked j ≡ true
of_due q now locked j a b c e = rw b (ground arith)

before_of :
    (k j : Job)
    → claims_before k j ≡ true
    → (j.priority <ℤ k.priority) ⊎ ((k.priority ≡ j.priority) × (k.run_at ≤ j.run_at))
unfolding claims_before
before_of k j h = ground arith

module _ (q now : ℕ) (locked : ℕ → Bool) (n : ℕ) (d : Db) where
  -- Every selected row was pending and due, in the queue, and locked by nobody.
  pub select_claim-eligible :
      All (λ j. eligible q now locked j ≡ true) (select_claim q now locked n d)
  unfolding select_claim
  select_claim-eligible =
      All-take (λ j. eligible q now locked j ≡ true) n
        (sort_rows claims_before (where_rows (eligible q now locked) d.jobs))
        (All-sort_rows (λ j. eligible q now locked j ≡ true) claims_before
          (where_rows (eligible q now locked) d.jobs)
          (where_rows-pass (eligible q now locked) d.jobs))

  ordered_first :
      (j : Job)
      → Memᴰ j d.jobs
      → eligible q now locked j ≡ true
      → Memᴰ j (select_claim q now locked n d)
        ⊎ (All (λ k. claims_before k j ≡ true) (select_claim q now locked n d)
            × (length (select_claim q now locked n d) ≡ n))
  unfolding select_claim
  ordered_first j m e =
      let rows : List Job = where_rows (eligible q now locked) d.jobs in
      take_first claims_before n (sort_rows claims_before rows) j
        (sort_rows-Sorted claims_before claims_before-total claims_before_trans rows)
        (mem-sort_rows claims_before j rows (mem-where_rows (eligible q now locked) j d.jobs m e))

  -- The rows that are selected are in the queue, pending, due and locked by nobody. Every other such
  -- row of the table is left out only where n rows are selected, each of which has a higher priority
  -- number than it, or the same and an earlier or equal time.
  pub select_claim-first :
      (j : Job)
      → Memᴰ j d.jobs
      → j.queue_id ≡ q
      → j.status ≡ pending
      → j.run_at ≤ now
      → locked j.id ≡ false
      → let selected = select_claim q now locked n d in
        All
          (λ (k : Job).
            (k.queue_id ≡ q) × (k.status ≡ pending) × (k.run_at ≤ now) × (locked k.id ≡ false))
          selected
        × (Memᴰ j selected
            ⊎ (All
                  (λ (k : Job).
                    (j.priority <ℤ k.priority)
                    ⊎ ((k.priority ≡ j.priority) × (k.run_at ≤ j.run_at)))
                  selected
                × (length selected ≡ n)))
  select_claim-first j m of_queue waits due free = (
    All-imp _ _ (select_claim q now locked n d) (λ k h. due_of q now locked k h)
        select_claim-eligible,
    elim (ordered_first j m (of_due q now locked j of_queue waits due free)) [
      | inl chosen ↦ inl chosen
      | inr (before, full) ↦
          inr (All-imp _ _ (select_claim q now locked n d) (λ k h. before_of k j h) before, full)
    ],
  )

  All-self : (xs : List Job) → ((j : Job) → Memᴰ j xs → Memᴰ j d.jobs) → All (λ j. Memᴰ j d.jobs) xs
  All-self [] h = tt
  All-self (x ∷ xs) h = (h x (Memᴰ.head refl), All-self xs (λ j m. h j (Memᴰ.tail m)))

  -- What is selected stands in the table.
  pub select_claim-mem : All (λ j. Memᴰ j d.jobs) (select_claim q now locked n d)
  unfolding select_claim
  select_claim-mem =
      All-take (λ j. Memᴰ j d.jobs) n
        (sort_rows claims_before (where_rows (eligible q now locked) d.jobs))
        (All-sort_rows (λ j. Memᴰ j d.jobs) claims_before
          (where_rows (eligible q now locked) d.jobs)
          (All-where (λ j. Memᴰ j d.jobs) (eligible q now locked) d.jobs
            (All-self d.jobs (λ j m. m))))
