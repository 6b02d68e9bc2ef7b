-- ===== src/Worker/Node/Calm.antt =====
-- No step of a worker node panics.
use codity_assignment.Base.{refl, ℕ, List, ◌≡◌, true, ◌≢◌, ◌∷◌, arith, []}
use codity_assignment.Worker.Node.{
  fire_hand_over, fire_node, Phase, fire_join, fire_claim, Node, NodeFired, in_pool, NodeEvent,
  worker_step, fire_return, unless_ended, crashed, fire_wake, NodeTrace, start_node, fire_end,
  waiting, stopping, joining, claim, return, ended, work, signal, wake, end, join, hand_over,
}
use codity_assignment.Worker.Pool.Stopping.{of_worker}
use codity_assignment.Domain.Job.{Job}
use codity_assignment.Worker.Node.Orderly.{IsOrderly, NodeTrace-IsOrderly, start_node-IsOrderly}
use codity_assignment.Worker.Pool

calm_step : (e : Pool.Event) (p : Pool.Pool) → of_worker e ≡ true → Pool.fire e p ≢ Pool.panicked
unfolding Pool.fire Pool.fire_receive Pool.fire_exit Pool.fire_begin Pool.fire_finish
    Pool.fire_leave
calm_step (Pool.submit j) p w h = cc
calm_step Pool.close p w h = cc
calm_step (Pool.receive i) p w h = ground arith
calm_step (Pool.begin i) p w h = ground arith
calm_step (Pool.finish i) p w h = ground arith
calm_step (Pool.leave i) p w h = ground arith
calm_step (Pool.exit i) p w h = ground arith

unless_ended-crashed : (s : Phase) (x : NodeFired) → unless_ended s x ≡ crashed → x ≡ crashed
unless_ended-crashed waiting x h = h
unless_ended-crashed joining x h = h
unless_ended-crashed stopping x h = h
unless_ended-crashed ended x h = absurd (cc)

in_pool-crashed :
    (f : Pool.Pool → Node) (x : Pool.Fired) → in_pool f x ≡ crashed → x ≡ Pool.panicked
in_pool-crashed f Pool.blocked h = absurd (cc)
in_pool-crashed f Pool.panicked h = refl
in_pool-crashed f (Pool.moved q) h = absurd (cc)

calm_work : (e : Pool.Event) (n : Node) → worker_step e n ≢ crashed
calm_work (Pool.submit j) n h = cc
calm_work Pool.close n h = cc
calm_work (Pool.receive i) n h = calm_step (Pool.receive i) n.pool refl (in_pool-crashed _ _ h)
calm_work (Pool.begin i) n h = calm_step (Pool.begin i) n.pool refl (in_pool-crashed _ _ h)
calm_work (Pool.finish i) n h = calm_step (Pool.finish i) n.pool refl (in_pool-crashed _ _ h)
calm_work (Pool.leave i) n h = calm_step (Pool.leave i) n.pool refl (in_pool-crashed _ _ h)
calm_work (Pool.exit i) n h = calm_step (Pool.exit i) n.pool refl (in_pool-crashed _ _ h)

calm_hand_over :
    (l : List Job) (n : Node) → IsOrderly n → n.claimed ≡ l → fire_hand_over l n ≢ crashed
unfolding fire_hand_over Pool.fire_submit
calm_hand_over [] n v e h = cc
calm_hand_over (j ∷ js) n v e h = ground arith

calm_join : (s : Phase) (n : Node) → IsOrderly n → n.phase ≡ s → fire_join s n ≢ crashed
unfolding fire_join Pool.fire_close
calm_join waiting n v e h = cc
calm_join stopping n v e h = cc
calm_join ended n v e h = cc
calm_join joining n v e h = ground arith

orderly_calm : (e : NodeEvent) (n : Node) → IsOrderly n → fire_node e n ≢ crashed
unfolding fire_node fire_claim fire_return fire_wake fire_end
orderly_calm signal n v h = cc
orderly_calm (claim js) n v h = ground arith
orderly_calm (return part) n v h = ground arith
orderly_calm wake n v h = ground arith
orderly_calm end n v h = ground arith
orderly_calm join n v h = calm_join n.phase n v refl h
orderly_calm hand_over n v h = calm_hand_over n.claimed n v refl (unless_ended-crashed n.phase _ h)
orderly_calm (work e) n v h = calm_work e n (unless_ended-crashed n.phase _ h)

-- A node never panics: whatever the order of its steps, no job is submitted to a closed channel,
-- and the channel is closed once.
pub fire_node_calm :
    (k : ℕ) (es : List NodeEvent) (n : Node) (e : NodeEvent)
    → NodeTrace (start_node k) es n
    → fire_node e n ≢ crashed
fire_node_calm k es n e r =
    orderly_calm e n (NodeTrace-IsOrderly (start_node k) es n (start_node-IsOrderly k) r)
