-- ===== src/Examples/Nodes.antt =====
-- The theorems on a worker node at one run, from its start to the end of its shutdown.
use codity_assignment.Base.{
  refl, true, count_rows, ◌+ℤ◌, List, ◌≢◌, ◌-ℤ◌, Bool, ◌≡◌, false, ◌∷◌, [], arith, pos,
}
use codity_assignment.Domain.Job.{Job}
use codity_assignment.Worker.Node.Calm.{fire_node_calm}
use codity_assignment.Examples.{email_job}
use codity_assignment.Worker.Node.Shutdown.{node_drained}
use codity_assignment.Worker.Pool
use codity_assignment.Worker.Node

abbrev node_events : List Node.NodeEvent
node_events =
    Node.claim (email_job ∷ [])
    ∷ Node.hand_over
    ∷ Node.signal
    ∷ Node.wake
    ∷ Node.return Node.dispatcher
    ∷ Node.return Node.reaper
    ∷ Node.return Node.scheduler
    ∷ Node.return Node.cron_engine
    ∷ Node.return Node.heartbeater
    ∷ Node.work (Pool.receive 0)
    ∷ Node.join
    ∷ Node.work (Pool.begin 0)
    ∷ Node.work (Pool.finish 0)
    ∷ Node.work (Pool.leave 0)
    ∷ Node.work (Pool.exit 0)
    ∷ Node.end
    ∷ []

abbrev node_at_end : Node.Node
node_at_end = record {
  cancelled = true;
  parts = record {
    dispatching = false;
    reaping = false;
    scheduling = false;
    firing = false;
    beating = false;
  };
  claimed = [];
  phase = Node.ended;
  pool = record {
    concurrency = 1;
    channel = [];
    closed = true;
    active = pos 0;
    workers = Pool.exited ∷ [];
    executed = email_job ∷ [];
  };
}

node_events-NodeTrace : Node.NodeTrace (Node.start_node 1) node_events node_at_end
unfolding Node.start_node Node.fire_node Node.fire_claim Node.fire_hand_over Node.fire_return
    Node.fire_wake Node.fire_join Node.fire_end Pool.start Pool.fire Pool.fire_submit
    Pool.fire_close Pool.fire_receive Pool.fire_exit Pool.fire_begin Pool.fire_finish
    Pool.fire_leave ◌+ℤ◌ ◌-ℤ◌
node_events-NodeTrace = Node.after (Node.claim (email_job ∷ [])) refl (
    Node.after Node.hand_over refl (
      Node.after Node.signal refl (
        Node.after Node.wake refl (
          Node.after (Node.return Node.dispatcher) refl (
            Node.after (Node.return Node.reaper) refl (
              Node.after (Node.return Node.scheduler) refl (
                Node.after (Node.return Node.cron_engine) refl (
                  Node.after (Node.return Node.heartbeater) refl (
                    Node.after (Node.work (Pool.receive 0)) refl (
                      Node.after Node.join refl (
                        Node.after (Node.work (Pool.begin 0)) refl (
                          Node.after (Node.work (Pool.finish 0)) refl (
                            Node.after (Node.work (Pool.leave 0)) refl (
                              Node.after (Node.work (Pool.exit 0)) refl
                                (Node.after Node.end refl Node.still)))))))))))))))

each_job : Job → Bool
each_job j = true

node_drained_example :
    count_rows each_job node_at_end.pool.executed
    ≡ count_rows each_job (Node.claimed_in node_events)
node_drained_example =
    node_drained 1 node_events node_at_end each_job (omega arith) node_events-NodeTrace refl

fire_node_calm_example : Node.fire_node Node.hand_over node_at_end ≢ Node.crashed
fire_node_calm_example =
    fire_node_calm 1 node_events node_at_end Node.hand_over node_events-NodeTrace
