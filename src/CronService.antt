-- ===== src/CronService.antt =====
-- backend/internal/service/cron/cron.go. `i` is the value of `uuid.New()`, `now` the clock.
use codity_assignment.Base.{ℕ, String, Bool, List}
use codity_assignment.Domain.Cron.{CronJob}
use codity_assignment.Exec.{Exec}
use codity_assignment.Store.{Db}
use codity_assignment.CronRepo

unfoldable pub create : ℕ → CronJob → ℕ → Exec Db (Unit {0})
create i c now = CronRepo.create (record c { id = i; created_at = now; updated_at = now })

unfoldable pub list_by_queue_id : (String → String → Bool) → ℕ → Exec Db (List CronJob)
list_by_queue_id before q = CronRepo.list_by_queue_id before q

unfoldable pub delete : ℕ → Exec Db (Unit {0})
delete i = CronRepo.delete i
