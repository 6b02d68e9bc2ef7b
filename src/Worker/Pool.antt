-- ===== src/Worker/Pool.antt =====
-- backend/internal/worker/pool.go: the channel, the goroutines of `worker` and the counter of the
-- active jobs, as a machine whose events are the atomic steps of the goroutines.
pub mod Totals
pub mod Conserved
pub mod Valid
pub mod Reachable
pub mod Stopping
pub mod Ending
use codity_assignment.Domain.Job.{Job}
use codity_assignment.Base.{
  ℕ, if◌then◌else◌, ℤ, List, Option, ◌++◌, true, ◌+ℤ◌, Bool, pos, ◌-ℤ◌, [], ltb, none, ◌∷◌, some,
  false, length, suc, ◌≡◌, zero,
}

-- Where a worker goroutine stands: at the receive, before the counter goes up, in `Execute`, before
-- the counter goes down, or behind `wg.Done()`.
pub data WorkerState : Type 0 where
  idle finished exited : WorkerState
  received executing : Job → WorkerState

pub record Pool : Type 0 where
  pub concurrency : ℕ
  pub channel : List Job
  pub closed : Bool
  pub active : ℤ
  pub workers : List WorkerState
  -- The jobs whose `Execute` has returned.
  pub executed : List Job

-- The number names the worker.
pub data Event : Type 0 where
  submit : Job → Event
  close : Event
  receive begin finish leave exit : ℕ → Event

-- An event is blocked, it panics (a send on a closed channel), or it moves the pool.
pub data Fired : Type 0 where
  blocked panicked : Fired
  moved : Pool → Fired

abbrev pub repeat {ℓ} : {A : Type ℓ} → ℕ → A → List A
repeat zero a = []
repeat (suc n) a = a ∷ repeat n a

abbrev pub get_elem? {ℓ} : {A : Type ℓ} → List A → ℕ → Option A
get_elem? [] i = none
get_elem? (x ∷ xs) zero = some x
get_elem? (x ∷ xs) (suc i) = get_elem? xs i

abbrev pub set_elem {ℓ} : {A : Type ℓ} → ℕ → A → List A → List A
set_elem i a [] = []
set_elem zero a (x ∷ xs) = a ∷ xs
set_elem (suc i) a (x ∷ xs) = x ∷ set_elem i a xs

-- `NewPool` and `Start`.
unfoldable pub start : ℕ → Pool
start n = record {
  concurrency = n;
  channel = [];
  closed = false;
  active = pos 0;
  workers = repeat n idle;
  executed = [];
}

abbrev pub move_worker : ℕ → WorkerState → Pool → Pool
move_worker i s p = record p { workers = set_elem i s p.workers }

unfoldable pub fire_submit : Job → Pool → Fired
fire_submit j p =
    if p.closed
    then panicked
    else if ltb (length p.channel) p.concurrency
    then moved (record p { channel = p.channel ++ j ∷ [] })
    else blocked

-- Closing a closed channel panics.
unfoldable pub fire_close : Pool → Fired
fire_close p = if p.closed then panicked else moved (record p { closed = true })

-- `for j := range p.jobsChan`: the loop ends when the channel is closed and empty.
unfoldable pub fire_receive : ℕ → WorkerState → List Job → Pool → Fired
fire_receive i idle (j ∷ js) p = moved (move_worker i (received j) (record p { channel = js }))
fire_receive i _ _ p = blocked

unfoldable pub fire_exit : ℕ → WorkerState → List Job → Pool → Fired
fire_exit i idle [] p = if p.closed then moved (move_worker i exited p) else blocked
fire_exit i _ _ p = blocked

unfoldable pub fire_begin : ℕ → WorkerState → Pool → Fired
fire_begin i (received j) p =
    moved (move_worker i (executing j) (record p { active = p.active +ℤ pos 1 }))
fire_begin i _ p = blocked

unfoldable pub fire_finish : ℕ → WorkerState → Pool → Fired
fire_finish i (executing j) p =
    moved (move_worker i finished (record p { executed = p.executed ++ j ∷ [] }))
fire_finish i _ p = blocked

unfoldable pub fire_leave : ℕ → WorkerState → Pool → Fired
fire_leave i finished p = moved (move_worker i idle (record p { active = p.active -ℤ pos 1 }))
fire_leave i _ p = blocked

-- A worker that is not there blocks.
abbrev pub at_worker : ℕ → Pool → (WorkerState → Fired) → Fired
at_worker i p f = elim (get_elem? p.workers i) [ none ↦ blocked | some s ↦ f s ]

unfoldable pub fire : Event → Pool → Fired
unfolding fire_submit fire_close fire_receive fire_exit fire_begin fire_finish fire_leave
fire (submit j) p = fire_submit j p
fire close p = fire_close p
fire (receive i) p = at_worker i p (λ s. fire_receive i s p.channel p)
fire (begin i) p = at_worker i p (λ s. fire_begin i s p)
fire (finish i) p = at_worker i p (λ s. fire_finish i s p)
fire (leave i) p = at_worker i p (λ s. fire_leave i s p)
fire (exit i) p = at_worker i p (λ s. fire_exit i s p.channel p)

-- A run of events, each of which moves the pool.
pub data Trace : Pool → List Event → Pool → Type 0 where
  stop : {p : Pool} → Trace p [] p
  next :
      {p q r : Pool} (e : Event) {es : List Event}
      → fire e p ≡ moved q
      → Trace q es r
      → Trace p (e ∷ es) r

-- `AvailableWorkers`.
unfoldable pub available_workers : Pool → ℤ
available_workers p = pos p.concurrency -ℤ p.active

-- The jobs that the events of a run have submitted.
unfoldable pub submitted : List Event → List Job
submitted [] = []
submitted (submit j ∷ es) = j ∷ submitted es
submitted (_ ∷ es) = submitted es
