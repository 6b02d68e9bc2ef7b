-- ===== src/Api/CronHandler/Missing.antt =====
-- The status that a client gets for an error that the handler returns.
use codity_assignment.Api.{finish, error_handler, error_response, reply_raw, Request, Params, param}
use codity_assignment.Base.{refl, ℕ, ◌≡◌, some, count_rows, false}
use codity_assignment.Exec.{◌>>=◌, map_err, sql, World, err}
use codity_assignment.Api.Site.{Site, Moment}
use codity_assignment.Store.{Db}
use codity_assignment.Errors.{GoError, app, not_found}
use codity_assignment.Api.CronHandler
use codity_assignment.CronService
use codity_assignment.CronRepo

refused :
    (i : ℕ) (w : World Db)
    → count_rows (CronRepo.cron_has_id i) w.db.crons ≡ 0
    → w.down w.calls ≡ false
    → (CronService.delete i w).0 ≡ err (app not_found "cron job not found")
unfolding CronService.delete CronRepo.delete map_err sql ◌>>=◌
refused i w missing up = rw up (rw missing refl)

-- A deletion of a cron job that does not exist, where the database answers, is answered with 500,
-- although the error of the service is one for which RespondError sends 404.
pub delete-missing :
    (site : Site) (req : Request) (at : Moment) (ps : Params) (i : ℕ) (w : World Db)
    → site.parse_uuid (param "cronId" ps) ≡ some i
    → count_rows (CronRepo.cron_has_id i) w.db.crons ≡ 0
    → w.down w.calls ≡ false
    → ((finish (CronHandler.delete site req at ps) w).0.status ≡ 500)
      × ((e : GoError) × ((CronService.delete i w).0 ≡ err e) × ((error_response e).status ≡ 404))
unfolding finish CronHandler.delete reply_raw ◌>>=◌ error_handler error_response
delete-missing site req at ps i w given missing up =
    let e = refused i w missing up in (rw given (rw e refl), (_, e, refl))
