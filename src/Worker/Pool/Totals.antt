-- ===== src/Worker/Pool/Totals.antt =====
-- Sums over the workers of a pool, and the shape of the steps of one worker.
use codity_assignment.Worker.Pool.{
  Pool, WorkerState, idle, exited, executing, moved, get_elem?, repeat, set_elem, received,
  finished, Fired, at_worker, blocked,
}
use codity_assignment.Base.{
  count_rows, ℕ, List, length, Bool, ◌≡◌, ◌++◌, ◌≤◌, ◌∷◌, arith, suc, ◌+◌, if◌then◌else◌, some, [],
  zero, ap, refl, Option, none,
}
use codity_assignment.Domain.Job.{Job}

abbrev pub total : (WorkerState → ℕ) → List WorkerState → ℕ
total f [] = 0
total f (s ∷ ws) = f s + total f ws

pub total-set_elem :
    (f : WorkerState → ℕ) (i : ℕ) (s t : WorkerState) (ws : List WorkerState)
    → get_elem? ws i ≡ some s
    → total f (set_elem i t ws) + f s ≡ total f ws + f t
total-set_elem f i s t [] h = absurd (cc)
total-set_elem f zero s t (u ∷ ws) h = let e : u ≡ s = cc in rw e (omega arith)
total-set_elem f (suc i) s t (u ∷ ws) h = let k = total-set_elem f i s t ws h in omega arith

pub length-set_elem :
    (i : ℕ) (t : WorkerState) (ws : List WorkerState) → length (set_elem i t ws) ≡ length ws
length-set_elem i t [] = refl
length-set_elem zero t (u ∷ ws) = refl
length-set_elem (suc i) t (u ∷ ws) = ap suc (length-set_elem i t ws)

pub total-repeat_idle : (f : WorkerState → ℕ) (n : ℕ) → f idle ≡ 0 → total f (repeat n idle) ≡ 0
total-repeat_idle f zero h = refl
total-repeat_idle f (suc n) h = let k = total-repeat_idle f n h in omega arith

pub length-repeat : (n : ℕ) (s : WorkerState) → length (repeat n s) ≡ n
length-repeat zero s = refl
length-repeat (suc n) s = ap suc (length-repeat n s)

-- 1 for a worker that the counter counts.
abbrev pub busy : WorkerState → ℕ
busy (executing j) = 1
busy finished = 1
busy _ = 0

abbrev pub gone : WorkerState → ℕ
gone exited = 1
gone _ = 0

-- How many jobs that pass a test a worker holds.
abbrev pub holds : (Job → Bool) → WorkerState → ℕ
holds t (received j) = if t j then 1 else 0
holds t (executing j) = if t j then 1 else 0
holds t _ = 0

pub total-le :
    (f : WorkerState → ℕ) (ws : List WorkerState)
    → ((s : WorkerState) → f s ≤ 1)
    → total f ws ≤ length ws
total-le f [] h = omega arith
total-le f (s ∷ ws) h = let k = total-le f ws h in let l = h s in omega arith

pub count-append :
    (t : Job → Bool) (xs ys : List Job)
    → count_rows t (xs ++ ys) ≡ count_rows t xs + count_rows t ys
unfolding count_rows
count-append t [] ys = omega arith
count-append t (x ∷ xs) ys = let k = count-append t xs ys in ground arith

pub moved-inj : {p q : Pool} → moved p ≡ moved q → p ≡ q
moved-inj h = cc

-- An event of a worker that moves the pool is of a worker that is there.
pub at_worker-moved :
    (i : ℕ) (p : Pool) (f : WorkerState → Fired) {q : Pool}
    → at_worker i p f ≡ moved q
    → (s : WorkerState) × (get_elem? p.workers i ≡ some s) × (f s ≡ moved q)
at_worker-moved i p f {q} h = by_worker (get_elem? p.workers i) refl h
  where
    by_worker :
        (o : Option WorkerState)
        → get_elem? p.workers i ≡ o
        → elim o as (λ _. Fired) [ none ↦ blocked | some s ↦ f s ] ≡ moved q
        → (s : WorkerState) × (get_elem? p.workers i ≡ some s) × (f s ≡ moved q)
    by_worker Option.none e h = absurd (cc)
    by_worker (Option.some s) e h = (s, e, h)
