-- ===== src/Worker/Node.antt =====
-- backend/internal/worker/service.go: Start of a worker node, with the pool of pool.go and the
-- Submit calls of dispatcher.go, as a machine whose events are atomic steps. The loops of the reaper,
-- the scheduler, the cron engine and the heartbeater touch the tables only; here they run or have
-- returned. The names of the pool's events are those of Pool.
pub mod Orderly
pub mod Calm
pub mod Shutdown
use codity_assignment.Base.{
  refl, Option, List, if◌then◌else◌, true, Bool, ℕ, some, not, false, [], ◌++◌, ◌≡◌, ◌&&◌, none,
  ◌∷◌,
}
use codity_assignment.Worker.Pool.{Pool}
use codity_assignment.Domain.Job.{Job}
use codity_assignment.Worker.Pool

pub data Part : Type 0 where
  dispatcher reaper scheduler cron_engine heartbeater : Part

-- Which goroutines of Start have not returned.
pub record Parts : Type 0 where
  pub dispatching : Bool
  pub reaping : Bool
  pub scheduling : Bool
  pub firing : Bool
  pub beating : Bool

-- Where Start stands: at `<-ctx.Done()`, at `wg.Wait()`, in `pool.Stop()` behind the close, or
-- behind its end.
pub data Phase : Type 0 where
  waiting joining stopping ended : Phase

pub record Node : Type 0 where
  pub cancelled : Bool
  pub parts : Parts
  -- The jobs that the dispatcher has claimed and not yet handed to the pool.
  pub claimed : List Job
  pub phase : Phase
  pub pool : Pool

pub data NodeEvent : Type 0 where
  signal hand_over wake join end : NodeEvent
  claim : List Job → NodeEvent
  return : Part → NodeEvent
  work : Pool.Event → NodeEvent

pub data NodeFired : Type 0 where
  halted crashed : NodeFired
  advanced : Node → NodeFired

unfoldable pub start_node : ℕ → Node
start_node n = record {
  cancelled = false;
  parts = record {
    dispatching = true;
    reaping = true;
    scheduling = true;
    firing = true;
    beating = true;
  };
  claimed = [];
  phase = waiting;
  pool = Pool.start n;
}

abbrev pub in_pool : (Pool → Node) → Pool.Fired → NodeFired
in_pool f Pool.blocked = halted
in_pool f Pool.panicked = crashed
in_pool f (Pool.moved p) = advanced (f p)

abbrev pub nothing_claimed : List Job → Bool
nothing_claimed [] = true
nothing_claimed (j ∷ js) = false

-- `startFn(ctx)` returns when the context is cancelled; the dispatcher looks at it between two ticks.
abbrev pub returned : Part → List Job → Parts → Option Parts
returned dispatcher [] s = if s.dispatching then some (record s { dispatching = false }) else none
returned dispatcher (j ∷ js) s = none
returned reaper js s = if s.reaping then some (record s { reaping = false }) else none
returned scheduler js s = if s.scheduling then some (record s { scheduling = false }) else none
returned cron_engine js s = if s.firing then some (record s { firing = false }) else none
returned heartbeater js s = if s.beating then some (record s { beating = false }) else none

abbrev pub none_runs : Parts → Bool
none_runs s =
    not s.dispatching && not s.reaping && not s.scheduling && not s.firing && not s.beating

abbrev pub all_exited : List Pool.WorkerState → Bool
all_exited [] = true
all_exited (Pool.exited ∷ ws) = all_exited ws
all_exited (_ ∷ ws) = false

unfoldable pub fire_hand_over : List Job → Node → NodeFired
fire_hand_over [] n = halted
fire_hand_over (j ∷ js) n =
    in_pool (λ p. record n { pool = p; claimed = js }) (Pool.fire_submit j n.pool)

unfoldable pub fire_claim : List Job → Node → NodeFired
fire_claim js n =
    if n.parts.dispatching && nothing_claimed n.claimed
    then advanced (record n { claimed = js })
    else halted

abbrev left_with : Node → Option Parts → NodeFired
left_with n none = halted
left_with n (some s) = advanced (record n { parts = s })

unfoldable pub fire_return : Part → Node → NodeFired
fire_return part n = if n.cancelled then left_with n (returned part n.claimed n.parts) else halted

unfoldable pub fire_wake : Phase → Node → NodeFired
fire_wake waiting n = if n.cancelled then advanced (record n { phase = joining }) else halted
fire_wake _ n = halted

-- `wg.Wait()` returns, and Stop closes the channel.
unfoldable pub fire_join : Phase → Node → NodeFired
fire_join joining n =
    if none_runs n.parts
    then in_pool (λ p. record n { pool = p; phase = stopping }) (Pool.fire_close n.pool)
    else halted
fire_join _ n = halted

unfoldable pub fire_end : Phase → Node → NodeFired
fire_end stopping n =
    if all_exited n.pool.workers then advanced (record n { phase = ended }) else halted
fire_end _ n = halted

-- A step of a worker goroutine of the pool; its submits and its close are those above.
abbrev pub worker_step : Pool.Event → Node → NodeFired
worker_step (Pool.submit j) n = halted
worker_step Pool.close n = halted
worker_step e n = in_pool (λ p. record n { pool = p }) (Pool.fire e n.pool)

abbrev pub unless_ended : Phase → NodeFired → NodeFired
unless_ended ended x = halted
unless_ended _ x = x

-- Nothing moves behind the end of Start.
unfoldable pub fire_node : NodeEvent → Node → NodeFired
unfolding fire_hand_over fire_claim fire_return fire_wake fire_join fire_end
fire_node signal n = advanced (record n { cancelled = true })
fire_node (claim js) n = unless_ended n.phase (fire_claim js n)
fire_node hand_over n = unless_ended n.phase (fire_hand_over n.claimed n)
fire_node (return part) n = unless_ended n.phase (fire_return part n)
fire_node wake n = fire_wake n.phase n
fire_node join n = fire_join n.phase n
fire_node end n = fire_end n.phase n
fire_node (work e) n = unless_ended n.phase (worker_step e n)

pub data NodeTrace : Node → List NodeEvent → Node → Type 0 where
  still : {n : Node} → NodeTrace n [] n
  after :
      {n m o : Node} (e : NodeEvent) {es : List NodeEvent}
      → fire_node e n ≡ advanced m
      → NodeTrace m es o
      → NodeTrace n (e ∷ es) o

-- The jobs that an event claims, and those that a run does.
abbrev pub claimed_by : NodeEvent → List Job
claimed_by (claim js) = js
claimed_by _ = []

unfoldable pub claimed_in : List NodeEvent → List Job
claimed_in [] = []
claimed_in (e ∷ es) = claimed_by e ++ claimed_in es
