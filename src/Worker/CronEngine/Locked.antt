-- ===== src/Worker/CronEngine/Locked.antt =====
-- The lock of a firing, and a tick of the engine.
use codity_assignment.Worker.CronEngine.{
  fire_cron, Parser, Fire, Node, lock_name, fire_each, execute_fire, evaluate, due_or_none,
}
use codity_assignment.Lock.{try_with_lock, on_redis, is_live, Redis, on_store, acquire, release}
use codity_assignment.Exec.{◌>>=◌, ◌>>◌, World, Exec, ok, attempt, pure, lift, map_err, query, sql}
use codity_assignment.Base.{
  ℕ, String, any_row, str_append, ◌≡◌, true, false, arith, List, All, ◌∷◌, suc, [], where_rows,
  Bool-cases, ◌∙◌, inl, inr,
}
use codity_assignment.Domain.Cron.{CronJob}
use codity_assignment.Lock.Exclusive.{acquire_held}
use codity_assignment.Store.{Db}
use codity_assignment.Exec.Same.{
  Same, then-Same, bind-Same, pure-Same, attempt-Same, lift-Same, map_err-Same, query-Same,
}
use codity_assignment.Worker.CronEngine.Firing.{execute_fire-scheduled}
use codity_assignment.Errors.{wrapf}
use codity_assignment.Sorting.{All-sort_rows}
use codity_assignment.CronRepo

-- A firing while another holds the lock of the same cron job and minute changes nothing.
pub fire_cron-held :
    (parse : Parser) (uuid_text : ℕ → String) (lock_ttl : ℕ) (f : Fire) (c : CronJob) (now : ℕ)
    (w : World Node)
    → any_row (is_live (str_append "lock:" (lock_name uuid_text c.id now)) f.redis_now) w.db.0
      ≡ true
    → w.down w.calls ≡ false
    → (fire_cron parse uuid_text lock_ttl f c now w).1.db ≡ w.db
unfolding fire_cron try_with_lock on_redis ◌>>=◌ ◌>>◌
fire_cron-held parse uuid_text lock_ttl f c now w held up =
    let beside : World Redis = record { db = w.db.0; calls = w.calls; down = w.down } in
    let (refused, same) =
      acquire_held (lock_name uuid_text c.id now) f.token lock_ttl f.redis_now beside held up in
    ground arith

-- The tables of the node.
abbrev tables_of : Node → Db
tables_of n = n.1

on_redis-Same : {A : Type 0} (m : Exec Redis A) → Same tables_of (on_redis m)
unfolding on_redis
on_redis-Same m w = λ i. w.db.1

locked-Same :
    (name token : String) (ttl now later : ℕ) (body : Exec Node (Unit {0}))
    → Same tables_of body
    → Same tables_of (try_with_lock name token ttl now later body)
unfolding try_with_lock
locked-Same name token ttl now later body h =
    bind-Same tables_of (on_redis (acquire name token ttl now)) _ (on_redis-Same _) (λ l.
      bind-Same tables_of (attempt body) _ (attempt-Same tables_of body h) (λ r.
        then-Same tables_of (attempt (on_redis (release l later))) (lift r)
          (attempt-Same tables_of (on_redis (release l later)) (on_redis-Same (release l later)))
          (lift-Same tables_of r)))

-- Listing the due cron jobs changes nothing.
listed : (now : ℕ) → Same (λ (d : Db). d) (CronRepo.list_due now)
unfolding CronRepo.list_due
listed now = map_err-Same (λ d. d) (wrapf "list due cron jobs") _ (query-Same (λ d. d) _)

module _ (parse : Parser) (uuid_text : ℕ → String) (lock_ttl : ℕ) (now : ℕ) where
  -- A cron job whose expression is parsed.
  abbrev pub IsScheduled : CronJob → Type 0
  IsScheduled c = (next : ℕ → ℕ) × (parse c.cron_expr ≡ ok next)

  fire-Same :
      (f : Fire) (c : CronJob)
      → IsScheduled c
      → Same tables_of (fire_cron parse uuid_text lock_ttl f c now)
  unfolding fire_cron on_store
  fire-Same f c (next, p) =
      then-Same tables_of
        (attempt (
          try_with_lock (lock_name uuid_text c.id now) f.token lock_ttl f.redis_now f.redis_later
            (on_store (execute_fire parse f.job_id c now f.at))))
        (pure tt)
        (locked-Same (lock_name uuid_text c.id now) f.token lock_ttl f.redis_now f.redis_later _
          (λ w.
            (execute_fire-scheduled parse f.job_id c now f.at next
              (record { db = w.db.1; calls = w.calls; down = w.down }) p).1))
        (pure-Same tables_of tt)

  fire_each-Same :
      (fires : ℕ → Fire) (n : ℕ) (cs : List CronJob)
      → All IsScheduled cs
      → Same tables_of (fire_each parse uuid_text lock_ttl fires now n cs)
  unfolding fire_each
  fire_each-Same fires n [] h = pure-Same tables_of tt
  fire_each-Same fires n (c ∷ cs) h =
      then-Same tables_of (fire_cron parse uuid_text lock_ttl (fires n) c now) _
        (fire-Same (fires n) c h.0) (fire_each-Same fires (suc n) cs h.1)

  due-IsScheduled :
      (w : World Db)
      → All IsScheduled (where_rows (CronRepo.is_due_cron now) w.db.crons)
      → All IsScheduled (due_or_none (CronRepo.list_due now w).0)
  unfolding CronRepo.list_due map_err query sql
  due-IsScheduled w h = elim (Bool-cases (w.down w.calls)) [
    | inl down ↦ rw down tt
    | inr up ↦
        rw up (All-sort_rows IsScheduled _ (where_rows (CronRepo.is_due_cron now) w.db.crons) h)
  ]

  -- A tick at which every due cron job has a schedule changes no table, whoever holds the locks and
  -- whichever calls are answered: no job is spawned, and the cron jobs are due again at the next
  -- tick.
  pub evaluate-IsScheduled :
      (fires : ℕ → Fire) (w : World Node)
      → All IsScheduled (where_rows (CronRepo.is_due_cron now) w.db.1.crons)
      → (evaluate parse uuid_text lock_ttl fires now w).1.db.1 ≡ w.db.1
  unfolding evaluate on_store ◌>>=◌
  evaluate-IsScheduled fires w h =
      let inner : World Db = record { db = w.db.1; calls = w.calls; down = w.down } in
      fire_each-Same fires 0 (due_or_none (CronRepo.list_due now inner).0) (due-IsScheduled inner h)
        ((attempt (on_store (CronRepo.list_due now)) w).1)
      ∙ listed now inner
