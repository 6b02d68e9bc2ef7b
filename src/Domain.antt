-- ===== src/Domain.antt =====
-- backend/internal/domain: the entities, each with its methods. An identifier (`uuid.UUID`) and an
-- instant (`time.Time`, nanoseconds from the zero time) are numbers; an `int` that the source does
-- not keep non-negative is a ℤ; a `map[string]any` is the list of its keys with their JSON texts.
pub mod Job
pub mod Queue
pub mod Cron
pub mod Batch
pub mod User
pub mod Org
pub mod Project
pub mod Worker
