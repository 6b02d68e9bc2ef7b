-- ===== src/JobService/Enqueue.antt =====
-- JobService.enqueue: what a success has done to the store, and that a failure has done nothing.
pub mod Untagged
use codity_assignment.Domain.Job.{Job}
use codity_assignment.Base.{
  String, ℕ, ◌≡◌, Bool, true, arith, ◌⊎◌, if◌then◌else◌, false, ◌++◌, ◌∷◌, [], Option, none, some,
  str_eq, first_row, refl, ap, ◌∙◌, inl, inr, subst, sym,
}
use codity_assignment.Store.{Db}
use codity_assignment.JobService.{
  EnqueueRequest, enqueue, resolve, submit, JobResponse, new_job, to_job_response,
}
use codity_assignment.Exec.Atomic.{
  Reads, Atomic, map_err-Atomic, map_err-Reads, sql-Atomic, query-Reads, pure-Atomic,
  read_bind-Atomic, attempt-Reads, then_pure-Atomic, if-Atomic, raise-Atomic,
}
use codity_assignment.Errors.{GoError, app, conflict, is_not_found}
use codity_assignment.Exec.{
  Result, err, World, ok, Exec, raise, ◌>>=◌, attempt, ◌>>◌, pure, sql, query, map_err, or_no_rows,
}
use codity_assignment.Domain.Queue.{Queue}
use codity_assignment.Exec.Laws.{bind-ok, wrapped_sql-ok, wrapped_query-ok, row_of}
use codity_assignment.JobRepo
use codity_assignment.QueueRepo

-- The two ways in which an insertion succeeds, the columns of the job being allowed: the key of the job is in the table and nothing
-- changes, or it is not and the row of the job is added.
abbrev pub Inserted : Job → Db → Db → Type 0
Inserted j d e =
    (JobRepo.columns_ok j ≡ true)
    × (((JobRepo.key_taken j.idempotency_key d.jobs ≡ true) × (e ≡ d))
        ⊎ ((JobRepo.key_taken j.idempotency_key d.jobs ≡ false)
            × (e ≡ record d { jobs = d.jobs ++ JobRepo.new_row j ∷ [] })))

insert_job-ok :
    (j : Job) (d : Db)
    → (JobRepo.insert_job j d).0 ≡ ok tt
    → Inserted j d (JobRepo.insert_job j d).1
unfolding JobRepo.insert_job
insert_job-ok j d h = ground arith

insert_job-err :
    (j : Job) (d : Db) (e : GoError)
    → (JobRepo.insert_job j d).0 ≡ err e
    → (JobRepo.insert_job j d).1 ≡ d
unfolding JobRepo.insert_job
insert_job-err j d e h = ground arith

pub create-Atomic : (j : Job) → Atomic (JobRepo.create j)
unfolding JobRepo.create
create-Atomic j = map_err-Atomic _ _ (sql-Atomic _ (insert_job-err j))

pub job-Reads : (i : ℕ) → Reads (JobRepo.get_by_id i)
unfolding JobRepo.get_by_id
job-Reads i = map_err-Reads _ _ (query-Reads _)

key-Reads : (k : String) → Reads (JobRepo.get_by_idempotency_key k)
unfolding JobRepo.get_by_idempotency_key
key-Reads k = map_err-Reads _ _ (query-Reads _)

queue-Reads : (i : ℕ) → Reads (QueueRepo.get_by_id i)
unfolding QueueRepo.get_by_id
queue-Reads i = map_err-Reads _ _ (query-Reads _)

pub job_found :
    (i : ℕ) (j : Job) (w : World Db)
    → (JobRepo.get_by_id i w).0 ≡ ok j
    → (first_row (JobRepo.has_id i) w.db.jobs ≡ some j) × ((JobRepo.get_by_id i w).1.db ≡ w.db)
unfolding JobRepo.get_by_id
job_found i j w h =
    let (r, e) = wrapped_query-ok _ (λ d. or_no_rows (first_row (JobRepo.has_id i) d.jobs)) w h in
    (row_of _ j r, e)

pub queue_found :
    (i : ℕ) (q : Queue) (w : World Db)
    → (QueueRepo.get_by_id i w).0 ≡ ok q
    → (first_row (QueueRepo.queue_has_id i) w.db.queues ≡ some q)
      × ((QueueRepo.get_by_id i w).1.db ≡ w.db)
unfolding QueueRepo.get_by_id
queue_found i q w h =
    let (r, e) =
      wrapped_query-ok _ (λ d. or_no_rows (first_row (QueueRepo.queue_has_id i) d.queues)) w h in
    (row_of _ q r, e)

key_found :
    (key : String) (w : World Db) (j : Job)
    → (JobRepo.get_by_idempotency_key key w).0 ≡ ok j
    → first_row (λ o. JobRepo.same_key (some key) o.idempotency_key) w.db.jobs ≡ some j
unfolding JobRepo.get_by_idempotency_key
key_found key w j h =
    let (r, e) =
      wrapped_query-ok _
        (λ (d : Db).
          or_no_rows (first_row (λ o. JobRepo.same_key (some key) o.idempotency_key) d.jobs))
        w h in
    row_of _ j r

created-ok :
    (j : Job) (b : Bool) (e : GoError) (w : World Db) (r : JobResponse)
    → ((if b then raise e else (JobRepo.create j >> pure (to_job_response j))) w).0 ≡ ok r
    → (b ≡ false)
      × (r ≡ to_job_response j)
      × Inserted j w.db
          ((if b then raise e else (JobRepo.create j >> pure (to_job_response j))) w).1.db
unfolding JobRepo.create ◌>>◌
created-ok j Bool.true e w r h = absurd (cc)
created-ok j Bool.false e w r h =
    let (u, made, e2, h2) = bind-ok (JobRepo.create j) _ w h in
    let (done, kept) = wrapped_sql-ok _ (JobRepo.insert_job j) w made in
    let same = ap (λ (x : Result JobResponse × World Db). x.1.db) e2 ∙ kept in
    let (allowed, ways) = insert_job-ok j w.db done in
    (
      refl,
      shown h2,
      (
        allowed,
        elim ways [
          | inl (known, old) ↦ inl (known, same ∙ old)
          | inr (fresh, new) ↦ inr (fresh, same ∙ new)
        ],
      ),
    )
  where
    shown : {a : JobResponse} → ok a ≡ ok r → r ≡ a
    shown h = cc

module _ (i queue_id : ℕ) (req : EnqueueRequest) (now : ℕ) where
  submit-Atomic : Atomic (submit i queue_id req now)
  unfolding submit
  submit-Atomic =
      read_bind-Atomic _ _ (queue-Reads queue_id) (λ q.
        if-Atomic q.is_paused _ _ (raise-Atomic _ _ _) (then_pure-Atomic _ _ (create-Atomic _)))

  resolve-Atomic : (r : Result Job) → Atomic (resolve (submit i queue_id req now) r)
  unfolding resolve
  resolve-Atomic (ok j) = pure-Atomic _
  resolve-Atomic (err e) = if-Atomic (is_not_found e) _ _ submit-Atomic (raise-Atomic _ _ _)

  -- A request to enqueue that fails, whichever of its statements fails, has changed nothing.
  pub enqueue-err :
      (w : World Db) (e : GoError)
      → (enqueue i queue_id req now w).0 ≡ err e
      → (enqueue i queue_id req now w).1.db ≡ w.db
  unfolding enqueue
  enqueue-err =
      elim req.idempotency_key
        as (λ k. Atomic (elim k as (λ _. Exec Db JobResponse) [
          | none ↦ submit i queue_id req now
          | some key ↦ if str_eq key "" then submit i queue_id req now else (do
            found ← attempt (JobRepo.get_by_idempotency_key key)
            resolve (submit i queue_id req now) found)
        ])) [
          | none ↦ submit-Atomic
          | some key ↦ if-Atomic (str_eq key "") _ _ submit-Atomic (
              read_bind-Atomic (attempt (JobRepo.get_by_idempotency_key key)) _
                (attempt-Reads (JobRepo.get_by_idempotency_key key) (key-Reads key)) resolve-Atomic)
        ]

  -- The queue is there and not paused; the response shows the new job, which has been inserted.
  abbrev pub Submitted : Db → Db → JobResponse → Type 0
  Submitted d e r =
      (q : Queue) × (first_row (QueueRepo.queue_has_id queue_id) d.queues ≡ some q)
      × (q.is_paused ≡ false)
      × (let j = record (new_job i q req now) { queue_id = queue_id } in
          (r ≡ to_job_response j) × Inserted j d e)

  -- The job that has the key of the request is shown, and nothing has changed.
  abbrev pub Reused : Db → Db → JobResponse → Type 0
  Reused d e r =
      (key : String) × (j : Job) × (req.idempotency_key ≡ some key)
      × (first_row (λ k. JobRepo.same_key (some key) k.idempotency_key) d.jobs ≡ some j)
      × (r ≡ to_job_response j)
      × (e ≡ d)

  -- What a submission that succeeds has done.
  submit-ok :
      (w : World Db) (r : JobResponse)
      → (submit i queue_id req now w).0 ≡ ok r
      → Submitted w.db (submit i queue_id req now w).1.db r
  unfolding submit
  submit-ok w r h =
      let (q, got, e, h2) = bind-ok (QueueRepo.get_by_id queue_id) _ w h in
      let (found, same) = queue_found queue_id q w got in
      let j : Job = record (new_job i q req now) { queue_id = queue_id } in
      let (open_queue, shown, rest) =
        created-ok j q.is_paused (app conflict "queue is paused — jobs cannot be enqueued")
          (QueueRepo.get_by_id queue_id w).1 r h2 in
      (
        q,
        found,
        open_queue,
        (
          shown,
          subst (λ d. Inserted j d (submit i queue_id req now w).1.db) same
              (subst (Inserted j (QueueRepo.get_by_id queue_id w).1.db)
                (sym (ap (λ (x : Result JobResponse × World Db). x.1.db) e)) rest),
        ),
      )

  -- A request with a key that the table has is answered with the job that has it, whether its queue
  -- is paused or not, and nothing changes.
  pub enqueue-known :
      (key : String) (j : Job) (w : World Db)
      → req.idempotency_key ≡ some key
      → str_eq key "" ≡ false
      → first_row (λ k. JobRepo.same_key (some key) k.idempotency_key) w.db.jobs ≡ some j
      → w.down w.calls ≡ false
      → ((enqueue i queue_id req now w).0 ≡ ok (to_job_response j))
        × ((enqueue i queue_id req now w).1.db ≡ w.db)
  unfolding enqueue resolve ◌>>=◌ JobRepo.get_by_idempotency_key map_err query sql
  enqueue-known key j w k nonempty found up = ground arith

  lookup-ok :
      (key : String) (w : World Db) (r : JobResponse)
      → req.idempotency_key ≡ some key
      → let m = (do
        found ← attempt (JobRepo.get_by_idempotency_key key)
        resolve (submit i queue_id req now) found) in
        (m w).0 ≡ ok r → Submitted w.db (m w).1.db r ⊎ Reused w.db (m w).1.db r
  unfolding resolve ◌>>=◌
  lookup-ok key w r k h =
      by_result (JobRepo.get_by_idempotency_key key w).0 (JobRepo.get_by_idempotency_key key w).1
        (key-Reads key w) (key_found key w) h
    where
      by_result :
          (found : Result Job) (w1 : World Db)
          → w1.db ≡ w.db
          → ((j : Job)
              → found ≡ ok j
              → first_row (λ o. JobRepo.same_key (some key) o.idempotency_key) w.db.jobs ≡ some j)
          → (resolve (submit i queue_id req now) found w1).0 ≡ ok r
          → Submitted w.db (resolve (submit i queue_id req now) found w1).1.db r
            ⊎ Reused w.db (resolve (submit i queue_id req now) found w1).1.db r
      by_result (ok j) w1 same row h = inr (key, j, k, row j refl, cc, same)
      by_result (err e) w1 same row h = on_missing (is_not_found e) h
        where
          on_missing :
              (b : Bool)
              → ((if b then submit i queue_id req now else raise e) w1).0 ≡ ok r
              → let m = if b then submit i queue_id req now else raise e in
                Submitted w.db (m w1).1.db r ⊎ Reused w.db (m w1).1.db r
          on_missing Bool.true h = inl (
              subst (λ d. Submitted d (submit i queue_id req now w1).1.db r) same
                (submit-ok w1 r h))
          on_missing Bool.false h = absurd (cc)

  -- A request to enqueue that succeeds has been submitted to a queue that is not paused, or has
  -- been answered with the job that has its key.
  pub enqueue-ok :
      (w : World Db) (r : JobResponse)
      → (enqueue i queue_id req now w).0 ≡ ok r
      → Submitted w.db (enqueue i queue_id req now w).1.db r
        ⊎ Reused w.db (enqueue i queue_id req now w).1.db r
  unfolding enqueue
  enqueue-ok w r h = by_key req.idempotency_key refl h
    where
      lookup : String → Exec Db JobResponse
      lookup key = do
        found ← attempt (JobRepo.get_by_idempotency_key key)
        resolve (submit i queue_id req now) found

      on_empty :
          (key : String) (b : Bool)
          → req.idempotency_key ≡ some key
          → let m = if b then submit i queue_id req now else lookup key in
            (m w).0 ≡ ok r → Submitted w.db (m w).1.db r ⊎ Reused w.db (m w).1.db r
      on_empty key Bool.true k h = inl (submit-ok w r h)
      on_empty key Bool.false k h = lookup-ok key w r k h

      by_key :
          (k : Option String)
          → req.idempotency_key ≡ k
          → let m = elim k as (λ _. Exec Db JobResponse) [
            | none ↦ submit i queue_id req now
            | some key ↦ if str_eq key "" then submit i queue_id req now else lookup key
          ] in
            (m w).0 ≡ ok r → Submitted w.db (m w).1.db r ⊎ Reused w.db (m w).1.db r
      by_key Option.none k h = inl (submit-ok w r h)
      by_key (Option.some key) k h = on_empty key (str_eq key "") k h
