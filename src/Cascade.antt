-- ===== src/Cascade.antt =====
-- The references of backend/migrations/000001_init_schema.up.sql that a DELETE follows: ON DELETE
-- CASCADE from an organization to its members and projects, from a project to its members and
-- queues, and from a queue to its jobs, cron jobs and batches; a reference to a queue as DLQ becomes
-- NULL. (No job of another queue refers to the jobs, cron jobs and batches of a queue.)
use codity_assignment.Base.{
  Bool, ℕ, List, none, where_rows, some, any_row, if◌then◌else◌, not, ◌&&◌, ◌==◌, map,
}
use codity_assignment.Domain.Queue.{Queue}
use codity_assignment.Store.{Db}
use codity_assignment.Domain.Org
use codity_assignment.Domain.Project

abbrev pub drop_rows : {A : Type 0} → (A → Bool) → List A → List A
drop_rows p xs = where_rows (λ x. not (p x)) xs

abbrev forget_queue : (ℕ → Bool) → Queue → Queue
forget_queue gone q = record q {
  dlq_queue_id = elim q.dlq_queue_id [ none ↦ none | some k ↦ if gone k then none else some k ];
}

unfoldable pub drop_queues : (Queue → Bool) → Db → Db
drop_queues p d =
    let gone : ℕ → Bool = λ i. any_row (λ q. p q && q.id == i) d.queues in
    record d {
      queues = map (forget_queue gone) (drop_rows p d.queues);
      jobs = drop_rows (λ j. gone j.queue_id) d.jobs;
      crons = drop_rows (λ c. gone c.queue_id) d.crons;
      batches = drop_rows (λ b. gone b.queue_id) d.batches;
    }

unfoldable pub drop_projects : (Project.Project → Bool) → Db → Db
drop_projects p d =
    let gone : ℕ → Bool = λ i. any_row (λ r. p r && r.id == i) d.projects in
    let kept = drop_queues (λ q. gone q.project_id) d in
    record kept {
      projects = drop_rows p d.projects;
      project_members = drop_rows (λ m. gone m.project_id) d.project_members;
    }

unfoldable pub drop_orgs : (Org.Organization → Bool) → Db → Db
drop_orgs p d =
    let gone : ℕ → Bool = λ i. any_row (λ o. p o && o.id == i) d.orgs in
    let kept = drop_projects (λ r. gone r.org_id) d in
    record kept {
      orgs = drop_rows p d.orgs;
      org_members = drop_rows (λ m. gone m.org_id) d.org_members;
    }
