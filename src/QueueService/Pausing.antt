-- ===== src/QueueService/Pausing.antt =====
-- Pausing a queue, and what it does to the requests to enqueue jobs.
use codity_assignment.Exec.{sql, ◌>>=◌, map_err, World, query, ok, err, raise, Result}
use codity_assignment.Base.{
  ℕ, Bool, List, ◌≡◌, update_rows, first_row, some, arith, none, false, true, if◌then◌else◌, refl,
  ap, ◌∙◌,
}
use codity_assignment.JobService.{EnqueueRequest, JobResponse}
use codity_assignment.Store.{Db}
use codity_assignment.Domain.Queue.{Queue}
use codity_assignment.Errors.{app, conflict}
use codity_assignment.Exec.Laws.{bind-ok}
use codity_assignment.JobService.Enqueue.{queue_found}
use codity_assignment.Tables.{first-update_hit}
use codity_assignment.QueueRepo
use codity_assignment.QueueService
use codity_assignment.JobService

-- The statement of a pause.
abbrev paused_rows : ℕ → Bool → ℕ → List Queue → List Queue
paused_rows i b now qs =
    update_rows (QueueRepo.queue_has_id i) (λ q. record q { is_paused = b; updated_at = now }) qs

set_paused-ok :
    (i : ℕ) (b : Bool) (now : ℕ) (w : World Db)
    → (QueueRepo.set_paused i b now w).0 ≡ ok tt
    → (QueueRepo.set_paused i b now w).1.db
      ≡ record w.db { queues = paused_rows i b now w.db.queues }
unfolding QueueRepo.set_paused sql map_err ◌>>=◌
set_paused-ok i b now w h = ground arith

-- The pause that succeeds found the queue not paused, and has set its flag only.
pub pause-ok :
    (i now : ℕ) (w : World Db)
    → (QueueService.pause i now w).0 ≡ ok tt
    → (q : Queue) × (first_row (QueueRepo.queue_has_id i) w.db.queues ≡ some q)
      × (q.is_paused ≡ false)
      × ((QueueService.pause i now w).1.db
          ≡ record w.db { queues = paused_rows i true now w.db.queues })
unfolding QueueService.pause
pause-ok i now w h =
    let (q, got, e, h2) = bind-ok (QueueRepo.get_by_id i) _ w h in
    let (found, same) = queue_found i q w got in
    let (open_queue, after) = flagged q (QueueRepo.get_by_id i w).1 h2 in
    (
      q,
      found,
      open_queue,
      ap (λ (x : Result (Unit {0}) × World Db). x.1.db) e
          ∙ after
          ∙ ap (λ (d : Db). record d { queues = paused_rows i true now d.queues }) same,
    )
  where
    on_flag :
        (b : Bool) (w1 : World Db)
        → let m =
            if b
            then raise (app conflict "queue is already paused")
            else QueueRepo.set_paused i true now in
          (m w1).0 ≡ ok tt
          → (b ≡ false)
            × ((m w1).1.db ≡ record w1.db { queues = paused_rows i true now w1.db.queues })
    on_flag Bool.true w1 h = absurd (cc)
    on_flag Bool.false w1 h = (refl, set_paused-ok i true now w1 h)

    flagged :
        (q : Queue) (w1 : World Db)
        → let m =
            if q.is_paused
            then raise (app conflict "queue is already paused")
            else QueueRepo.set_paused i true now in
          (m w1).0 ≡ ok tt
          → (q.is_paused ≡ false)
            × ((m w1).1.db ≡ record w1.db { queues = paused_rows i true now w1.db.queues })
    flagged q w1 h = on_flag q.is_paused w1 h

-- A submission to a queue that is paused is refused and changes nothing.
submit_paused :
    (k i : ℕ) (req : EnqueueRequest) (now : ℕ) (w : World Db) (q : Queue)
    → first_row (QueueRepo.queue_has_id i) w.db.queues ≡ some q
    → q.is_paused ≡ true
    → w.down w.calls ≡ false
    → ((JobService.submit k i req now w).0
        ≡ err (app conflict "queue is paused — jobs cannot be enqueued"))
      × ((JobService.submit k i req now w).1.db ≡ w.db)
unfolding JobService.submit ◌>>=◌ QueueRepo.get_by_id map_err query sql
submit_paused k i req now w q found p up = ground arith

keyless :
    (k i : ℕ) (req : EnqueueRequest) (now : ℕ) (w : World Db)
    → req.idempotency_key ≡ none
    → JobService.enqueue k i req now w ≡ JobService.submit k i req now w
unfolding JobService.enqueue
keyless k i req now w h = cc

-- Once a pause has succeeded, a request without a key to enqueue a job in that queue is refused
-- with a conflict and changes nothing, if its call reaches the database.
pub pause-enqueue :
    (i now k later : ℕ) (req : EnqueueRequest) (w : World Db)
    → (QueueService.pause i now w).0 ≡ ok tt
    → req.idempotency_key ≡ none
    → (QueueService.pause i now w).1.down (QueueService.pause i now w).1.calls ≡ false
    → let w1 = (QueueService.pause i now w).1 in
      ((JobService.enqueue k i req later w1).0
        ≡ err (app conflict "queue is paused — jobs cannot be enqueued"))
      × ((JobService.enqueue k i req later w1).1.db ≡ w1.db)
pause-enqueue i now k later req w h no_key up =
    let (q, found, open_queue, after) = pause-ok i now w h in
    let paused : Queue = record q { is_paused = true; updated_at = now } in
    let w1 = (QueueService.pause i now w).1 in
    let found1 : first_row (QueueRepo.queue_has_id i) w1.db.queues ≡ some paused =
      ap (λ (d : Db). first_row (QueueRepo.queue_has_id i) d.queues) after
      ∙ first-update_hit (QueueRepo.queue_has_id i)
          (λ q. record q { is_paused = true; updated_at = now }) w.db.queues q (λ q. refl) found in
    let refused = submit_paused k i req later w1 paused found1 refl up in
    let direct = keyless k i req later w1 no_key in
    (
      ap (λ (x : Result JobResponse × World Db). x.0) direct ∙ refused.0,
      ap (λ (x : Result JobResponse × World Db). x.1.db) direct ∙ refused.1,
    )
