-- ===== src/Worker/Node/Shutdown.antt =====
-- What a worker node that has shut down has executed: no claimed job is lost.
use mathlib.Core.List.{append_assoc, append-nil}
use codity_assignment.Base.{
  refl, ◌≡◌, true, ◌++◌, List, ◌∷◌, arith, [], ◌∙◌, ap, sym, ℕ, ◌⊎◌, inl, Bool, ◌<◌, subst, inr,
  count_rows, length,
}
use codity_assignment.Worker.Pool.Stopping.{of_worker}
use codity_assignment.Worker.Node.{
  joining, fire_node, NodeEvent, fire_claim, Node, fire_hand_over, hand_over, claimed_by, advanced,
  claim, signal, fire_return, fire_join, fire_wake, fire_end, join, wake, end, Part, Phase, return,
  waiting, stopping, ended, claimed_in, NodeTrace, start_node, after, still, work, nothing_claimed,
  all_exited,
}
use codity_assignment.Domain.Job.{Job}
use codity_assignment.Worker.Node.Orderly.{
  in_pool-advanced, IsOrderly, NodeTrace-IsOrderly, step_of, start_node-IsOrderly,
  unless_ended-advanced,
}
use codity_assignment.Worker.Pool.Reachable.{stop-drained, Trace-IsValid, concurrency_kept}
use codity_assignment.Worker.Pool.Totals.{total, gone}
use codity_assignment.Worker.Pool.Valid.{start-IsValid}
use codity_assignment.Worker.Pool

-- What one event of the node does to the pool and to the jobs that the dispatcher holds.
abbrev Quiet : NodeEvent → Node → Node → Type 0
Quiet e n m = (m.pool ≡ n.pool) × (n.claimed ++ claimed_by e ≡ m.claimed)

abbrev Moving : NodeEvent → Node → Node → Type 0
Moving e n m =
    (ev : Pool.Event) × (Pool.fire ev n.pool ≡ Pool.moved m.pool)
    × (n.claimed ++ claimed_by e ≡ Pool.submitted (ev ∷ []) ++ m.claimed)

abbrev Untouched : Node → Node → Type 0
Untouched n m = (m.pool ≡ n.pool) × (m.claimed ≡ n.claimed)

claim_effect :
    (js : List Job) (n m : Node) → fire_node (claim js) n ≡ advanced m → Quiet (claim js) n m
unfolding fire_node fire_claim
claim_effect js n m h = ground arith

signal_effect : (n m : Node) → fire_node signal n ≡ advanced m → Untouched n m
unfolding fire_node
signal_effect n m h = ground arith

return_effect : (part : Part) (n m : Node) → fire_node (return part) n ≡ advanced m → Untouched n m
unfolding fire_node fire_return
return_effect part n m h = ground arith

wake_effect : (n m : Node) → fire_node wake n ≡ advanced m → Untouched n m
unfolding fire_node fire_wake
wake_effect n m h = ground arith

end_effect : (n m : Node) → fire_node end n ≡ advanced m → Untouched n m
unfolding fire_node fire_end
end_effect n m h = ground arith

join_effect :
    (n m : Node)
    → fire_node join n ≡ advanced m
    → (Pool.fire Pool.close n.pool ≡ Pool.moved m.pool) × (m.claimed ≡ n.claimed)
unfolding fire_node fire_join Pool.fire
join_effect n m h = by_phase n.phase h
  where
    by_phase :
        (s : Phase)
        → fire_join s n ≡ advanced m
        → (Pool.fire Pool.close n.pool ≡ Pool.moved m.pool) × (m.claimed ≡ n.claimed)
    by_phase waiting h = absurd (cc)
    by_phase stopping h = absurd (cc)
    by_phase ended h = absurd (cc)
    by_phase joining h = ground arith

hand_over_effect :
    (l : List Job) (n m : Node)
    → n.claimed ≡ l
    → fire_hand_over l n ≡ advanced m
    → Moving hand_over n m
unfolding fire_hand_over Pool.fire Pool.submitted
hand_over_effect [] n m e h = absurd (cc)
hand_over_effect (j ∷ js) n m e h =
    let (q, fires, same) = in_pool-advanced _ _ m h in
    (
      Pool.submit j,
      fires ∙ ap Pool.moved (sym (ap (λ (o : Node). o.pool) same)),
      append-nil n.claimed ∙ e ∙ ap (λ l. j ∷ l) (sym (ap (λ (o : Node). o.claimed) same)),
    )

same_jobs : (e : NodeEvent) (n m : Node) → claimed_by e ≡ [] → Untouched n m → Quiet e n m
same_jobs e n m none_claimed (pool, kept) =
    (pool, rw none_claimed (append-nil n.claimed ∙ sym kept))

handed : (n m : Node) → fire_node hand_over n ≡ advanced m → fire_hand_over n.claimed n ≡ advanced m
unfolding fire_node
handed n m h = (unless_ended-advanced n.phase _ m h).1

effect_of : (e : NodeEvent) (n m : Node) → fire_node e n ≡ advanced m → Quiet e n m ⊎ Moving e n m
unfolding Pool.submitted
effect_of signal n m h = inl (same_jobs signal n m refl (signal_effect n m h))
effect_of (claim js) n m h = inl (claim_effect js n m h)
effect_of (return part) n m h = inl (same_jobs (return part) n m refl (return_effect part n m h))
effect_of wake n m h = inl (same_jobs wake n m refl (wake_effect n m h))
effect_of end n m h = inl (same_jobs end n m refl (end_effect n m h))
effect_of join n m h =
    let (fires, kept) = join_effect n m h in
    inr (Pool.close, fires, append-nil n.claimed ∙ sym kept)
effect_of hand_over n m h = inr (hand_over_effect n.claimed n m refl (handed n m h))
effect_of (work e) n m h =
    let (q, fires, mine, live, same) = step_of e n m h in
    inr (
      e,
      fires ∙ ap Pool.moved (sym (ap (λ (o : Node). o.pool) same)),
      append-nil n.claimed
          ∙ not_submitted e n.claimed mine
          ∙ ap (λ l. Pool.submitted (e ∷ []) ++ l) (sym (ap (λ (o : Node). o.claimed) same)),
    )
  where
    not_submitted :
        (e : Pool.Event) (l : List Job) → of_worker e ≡ true → l ≡ Pool.submitted (e ∷ []) ++ l
    not_submitted (Pool.submit j) l w = absurd (cc)
    not_submitted Pool.close l w = refl
    not_submitted (Pool.receive i) l w = refl
    not_submitted (Pool.begin i) l w = refl
    not_submitted (Pool.finish i) l w = refl
    not_submitted (Pool.leave i) l w = refl
    not_submitted (Pool.exit i) l w = refl

submitted-cons :
    (e : Pool.Event) (es : List Pool.Event)
    → Pool.submitted (e ∷ es) ≡ Pool.submitted (e ∷ []) ++ Pool.submitted es
unfolding Pool.submitted
submitted-cons (Pool.submit j) es = refl
submitted-cons Pool.close es = refl
submitted-cons (Pool.receive i) es = refl
submitted-cons (Pool.begin i) es = refl
submitted-cons (Pool.finish i) es = refl
submitted-cons (Pool.leave i) es = refl
submitted-cons (Pool.exit i) es = refl

-- The pool of a node goes through a run of its own, in which the jobs submitted, followed by those
-- that the dispatcher still holds, are the jobs that were held and claimed.
abbrev PoolRun : Node → List NodeEvent → Node → Type 0
PoolRun n es o =
    (ps : List Pool.Event) × Pool.Trace n.pool ps o.pool
    × (n.claimed ++ claimed_in es ≡ Pool.submitted ps ++ o.claimed)

run_after :
    (e : NodeEvent) (es : List NodeEvent) (n m o : Node)
    → Quiet e n m ⊎ Moving e n m
    → PoolRun m es o
    → PoolRun n (e ∷ es) o
unfolding claimed_in
run_after e es n m o (inl (pool, kept)) (ps, run, jobs) = (
  ps,
  subst (λ p. Pool.Trace p ps o.pool) pool run,
  sym (append_assoc n.claimed (claimed_by e) (claimed_in es))
      ∙ ap (λ l. l ++ claimed_in es) kept
      ∙ jobs,
)
run_after e es n m o (inr (ev, fires, kept)) (ps, run, jobs) = (
  ev ∷ ps,
  Pool.next ev fires run,
  sym (append_assoc n.claimed (claimed_by e) (claimed_in es))
      ∙ ap (λ l. l ++ claimed_in es) kept
      ∙ append_assoc (Pool.submitted (ev ∷ [])) m.claimed (claimed_in es)
      ∙ ap (λ l. Pool.submitted (ev ∷ []) ++ l) jobs
      ∙ sym (append_assoc (Pool.submitted (ev ∷ [])) (Pool.submitted ps) o.claimed)
      ∙ ap (λ l. l ++ o.claimed) (sym (submitted-cons ev ps)),
)

pool_run : (n : Node) (es : List NodeEvent) (o : Node) → NodeTrace n es o → PoolRun n es o
unfolding claimed_in Pool.submitted
pool_run n es o still = ([], Pool.stop, append-nil n.claimed)
pool_run n es o (after {m} e {es = es'} h r) =
    run_after e es' n m o (effect_of e n m h) (pool_run m es' o r)

exited-gone : (ws : List Pool.WorkerState) → all_exited ws ≡ true → total gone ws ≡ length ws
exited-gone [] h = refl
exited-gone (Pool.exited ∷ ws) h = omega (arith, exited-gone ws h)
exited-gone (Pool.idle ∷ ws) h = absurd (cc)
exited-gone (Pool.finished ∷ ws) h = absurd (cc)
exited-gone (Pool.received j ∷ ws) h = absurd (cc)
exited-gone (Pool.executing j ∷ ws) h = absurd (cc)

workers_kept :
    (k : ℕ) (ps : List Pool.Event) (q : Pool.Pool)
    → Pool.Trace (Pool.start k) ps q
    → length q.workers ≡ k
unfolding Pool.start
workers_kept k ps q run =
    let (active, size, room, over) = Trace-IsValid (Pool.start k) ps q (start-IsValid k) run in
    size ∙ concurrency_kept (Pool.start k) ps q run

nothing_held : (l : List Job) → nothing_claimed l ≡ true → l ≡ []
nothing_held [] h = refl
nothing_held (j ∷ js) h = absurd (cc)

exited_at_end : (n : Node) → IsOrderly n → n.phase ≡ ended → all_exited n.pool.workers ≡ true
exited_at_end n v over = ground arith

nothing_at_end : (n : Node) → IsOrderly n → n.phase ≡ ended → nothing_claimed n.claimed ≡ true
nothing_at_end n v over = ground arith

-- Where Start has returned, with k > 0 workers, the jobs executed are those that the dispatcher
-- claimed: as many of each kind, whichever jobs a test picks. None is left in the channel, with a
-- worker or with the dispatcher.
pub node_drained :
    (k : ℕ) (es : List NodeEvent) (n : Node) (t : Job → Bool)
    → 0 < k
    → NodeTrace (start_node k) es n
    → n.phase ≡ ended
    → count_rows t n.pool.executed ≡ count_rows t (claimed_in es)
unfolding start_node
node_drained k es n t some_worker r over =
    let v = NodeTrace-IsOrderly (start_node k) es n (start_node-IsOrderly k) r in
    let (ps, run, jobs) = pool_run (start_node k) es n r in
    let held = nothing_held n.claimed (nothing_at_end n v over) in
    let all = jobs ∙ ap (λ l. Pool.submitted ps ++ l) held ∙ append-nil (Pool.submitted ps) in
    stop-drained k ps n.pool t some_worker run
      (exited-gone n.pool.workers (exited_at_end n v over) ∙ workers_kept k ps n.pool run)
    ∙ ap (count_rows t) (sym all)
