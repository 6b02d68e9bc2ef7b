-- ===== src/Worker.antt =====
-- backend/internal/worker: the parts of a worker node, one module each.
pub mod Node
pub mod Registry
pub mod Executor
pub mod Pool
pub mod Dispatcher
pub mod Loops
pub mod CronEngine
