-- ===== src/Worker/Node/Orderly.antt =====
-- The order of the shutdown of a worker node, kept by every event.
use codity_assignment.Base.{refl, Bool, ℕ, List, true, inl, ◌≡◌, false, inr, ◌⊎◌, arith, subst, sym}
use codity_assignment.Worker.Node.{
  fire_node, Phase, start_node, fire_claim, Node, fire_return, fire_hand_over, nothing_claimed,
  hand_over, Part, return, ended, claim, advanced, waiting, none_runs, joining, all_exited,
  stopping, fire_end, work, fire_wake, fire_join, wake, join, end, NodeFired, worker_step, in_pool,
  NodeEvent, NodeTrace, unless_ended, after, still, signal,
}
use codity_assignment.Domain.Job.{Job}
use codity_assignment.Worker.Pool.Stopping.{of_worker}
use codity_assignment.Worker.Pool.Totals.{at_worker-moved}
use codity_assignment.Worker.Pool

abbrev pub before_close : Phase → Bool
before_close waiting = true
before_close joining = true
before_close stopping = false
before_close ended = false

abbrev pub is_ended : Phase → Bool
is_ended ended = true
is_ended _ = false

-- Claimed jobs are with a running dispatcher; behind the close no part runs; before it the channel
-- is open; at the end all workers have ended.
pub record IsOrderly (n : Node) : Type 0 where
  pub held : (nothing_claimed n.claimed ≡ true) ⊎ (n.parts.dispatching ≡ true)
  pub joined : (before_close n.phase ≡ true) ⊎ (none_runs n.parts ≡ true)
  pub unlocked : (before_close n.phase ≡ false) ⊎ (n.pool.closed ≡ false)
  pub gone : (is_ended n.phase ≡ false) ⊎ (all_exited n.pool.workers ≡ true)

pub start_node-IsOrderly : (k : ℕ) → IsOrderly (start_node k)
unfolding start_node Pool.start
start_node-IsOrderly k = record {
  held = inl refl;
  joined = inl refl;
  unlocked = inr refl;
  gone = inl refl;
}

claim-IsOrderly :
    (js : List Job) (n m : Node) → IsOrderly n → fire_node (claim js) n ≡ advanced m → IsOrderly m
unfolding fire_node fire_claim
claim-IsOrderly js n m v h = record {
  held = ground arith;
  joined = ground arith;
  unlocked = ground arith;
  gone = ground arith;
}

hand_over-IsOrderly : (n m : Node) → IsOrderly n → fire_node hand_over n ≡ advanced m → IsOrderly m
unfolding fire_node fire_hand_over Pool.fire_submit
hand_over-IsOrderly n m v h = record {
  held = ground arith;
  joined = ground arith;
  unlocked = ground arith;
  gone = ground arith;
}

return-IsOrderly :
    (part : Part) (n m : Node) → IsOrderly n → fire_node (return part) n ≡ advanced m → IsOrderly m
unfolding fire_node fire_return
return-IsOrderly part n m v h = record {
  held = ground arith;
  joined = ground arith;
  unlocked = ground arith;
  gone = ground arith;
}

wake-IsOrderly : (n m : Node) → IsOrderly n → fire_node wake n ≡ advanced m → IsOrderly m
unfolding fire_node fire_wake
wake-IsOrderly n m v h = record {
  held = ground arith;
  joined = ground arith;
  unlocked = ground arith;
  gone = ground arith;
}

join-IsOrderly : (n m : Node) → IsOrderly n → fire_node join n ≡ advanced m → IsOrderly m
unfolding fire_node fire_join Pool.fire_close
join-IsOrderly n m v h = record {
  held = ground arith;
  joined = ground arith;
  unlocked = ground arith;
  gone = ground arith;
}

end-IsOrderly : (n m : Node) → IsOrderly n → fire_node end n ≡ advanced m → IsOrderly m
unfolding fire_node fire_end
end-IsOrderly n m v h = record {
  held = ground arith;
  joined = ground arith;
  unlocked = ground arith;
  gone = ground arith;
}

-- A step of a worker leaves the channel open or closed as it was.
step_closed :
    (e : Pool.Event) (p q : Pool.Pool)
    → of_worker e ≡ true
    → Pool.fire e p ≡ Pool.moved q
    → q.closed ≡ p.closed
unfolding Pool.fire Pool.fire_receive Pool.fire_exit Pool.fire_begin Pool.fire_finish
    Pool.fire_leave
step_closed (Pool.submit j) p q w h = absurd (cc)
step_closed Pool.close p q w h = absurd (cc)
step_closed (Pool.receive i) p q w h = let (s, e, f) = at_worker-moved i p _ h in ground arith
step_closed (Pool.begin i) p q w h = let (s, e, f) = at_worker-moved i p _ h in ground arith
step_closed (Pool.finish i) p q w h = let (s, e, f) = at_worker-moved i p _ h in ground arith
step_closed (Pool.leave i) p q w h = let (s, e, f) = at_worker-moved i p _ h in ground arith
step_closed (Pool.exit i) p q w h = let (s, e, f) = at_worker-moved i p _ h in ground arith

pub in_pool-advanced :
    (f : Pool.Pool → Node) (x : Pool.Fired) (m : Node)
    → in_pool f x ≡ advanced m
    → (q : Pool.Pool) × (x ≡ Pool.moved q) × (m ≡ f q)
in_pool-advanced f Pool.blocked m h = absurd (cc)
in_pool-advanced f Pool.panicked m h = absurd (cc)
in_pool-advanced f (Pool.moved q) m h = (q, refl, cc)

pub unless_ended-advanced :
    (s : Phase) (x : NodeFired) (m : Node)
    → unless_ended s x ≡ advanced m
    → (is_ended s ≡ false) × (x ≡ advanced m)
unless_ended-advanced waiting x m h = (refl, h)
unless_ended-advanced joining x m h = (refl, h)
unless_ended-advanced stopping x m h = (refl, h)
unless_ended-advanced ended x m h = absurd (cc)

-- What a step of a worker does to the node.
pub step_of :
    (e : Pool.Event) (n m : Node)
    → fire_node (work e) n ≡ advanced m
    → (q : Pool.Pool) × (Pool.fire e n.pool ≡ Pool.moved q)
      × (of_worker e ≡ true)
      × (is_ended n.phase ≡ false)
      × (m ≡ record n { pool = q })
unfolding fire_node
step_of e n m h =
    let (live, moves) = unless_ended-advanced n.phase (worker_step e n) m h in
    let (q, fires, mine, same) = by_event e moves in (q, fires, mine, live, same)
  where
    by_event :
        (e : Pool.Event)
        → worker_step e n ≡ advanced m
        → (q : Pool.Pool) × (Pool.fire e n.pool ≡ Pool.moved q)
          × (of_worker e ≡ true)
          × (m ≡ record n { pool = q })
    by_event (Pool.submit j) h = absurd (cc)
    by_event Pool.close h = absurd (cc)
    by_event (Pool.receive i) h =
        let (q, f, g) = in_pool-advanced (λ p. record n { pool = p }) _ m h in (q, f, refl, g)
    by_event (Pool.begin i) h =
        let (q, f, g) = in_pool-advanced (λ p. record n { pool = p }) _ m h in (q, f, refl, g)
    by_event (Pool.finish i) h =
        let (q, f, g) = in_pool-advanced (λ p. record n { pool = p }) _ m h in (q, f, refl, g)
    by_event (Pool.leave i) h =
        let (q, f, g) = in_pool-advanced (λ p. record n { pool = p }) _ m h in (q, f, refl, g)
    by_event (Pool.exit i) h =
        let (q, f, g) = in_pool-advanced (λ p. record n { pool = p }) _ m h in (q, f, refl, g)

work-IsOrderly :
    (e : Pool.Event) (n m : Node) → IsOrderly n → fire_node (work e) n ≡ advanced m → IsOrderly m
work-IsOrderly e n m v h =
    let (q, fires, mine, live, same) = step_of e n m h in
    let open_still = step_closed e n.pool q mine fires in
    subst IsOrderly (sym same)
      (record { held = v.held; joined = v.joined; unlocked = ground arith; gone = inl live })

fire_node-IsOrderly :
    (e : NodeEvent) (n m : Node) → IsOrderly n → fire_node e n ≡ advanced m → IsOrderly m
unfolding fire_node
fire_node-IsOrderly signal n m v h = record {
  held = ground arith;
  joined = ground arith;
  unlocked = ground arith;
  gone = ground arith;
}
fire_node-IsOrderly (claim js) n m v h = claim-IsOrderly js n m v h
fire_node-IsOrderly hand_over n m v h = hand_over-IsOrderly n m v h
fire_node-IsOrderly (return part) n m v h = return-IsOrderly part n m v h
fire_node-IsOrderly wake n m v h = wake-IsOrderly n m v h
fire_node-IsOrderly join n m v h = join-IsOrderly n m v h
fire_node-IsOrderly end n m v h = end-IsOrderly n m v h
fire_node-IsOrderly (work e) n m v h = work-IsOrderly e n m v h

pub NodeTrace-IsOrderly :
    (n : Node) (es : List NodeEvent) (o : Node) → IsOrderly n → NodeTrace n es o → IsOrderly o
NodeTrace-IsOrderly n es o v still = v
NodeTrace-IsOrderly n es o v (after {m} e {es = es'} h r) =
    NodeTrace-IsOrderly m es' o (fire_node-IsOrderly e n m v h) r
