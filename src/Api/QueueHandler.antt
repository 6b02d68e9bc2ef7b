-- ===== src/Api/QueueHandler.antt =====
-- backend/internal/handler/queue/handler.go.
use codity_assignment.Base.{String, ℕ}
use codity_assignment.Api.Site.{Site, Moment}
use codity_assignment.Api.{
  Request, Params, Response, uuid_param, or_respond, read_body, reply, done, success, created,
  queues, queue_stats, queue,
}
use codity_assignment.Exec.{Exec, Result}
use codity_assignment.Store.{Db}
use codity_assignment.QueueService

module _ (site : Site) (req : Request) (at : Moment) where
  abbrev id_in : Params → String → Result ℕ
  id_in ps name = uuid_param site.parse_uuid ps name

  unfoldable pub create : Params → Exec Db Response
  create ps = or_respond (id_in ps "projectId") (λ i.
      read_body site.queue_body "malformed JSON" req
        (λ b. reply (λ q. created (queue q)) (QueueService.create at.id i b at.now)))

  unfoldable pub get : Params → Exec Db Response
  get ps =
      or_respond (id_in ps "queueId")
        (λ i. reply (λ q. success (queue q)) (QueueService.get_by_id i))

  unfoldable pub list : Params → Exec Db Response
  list ps =
      or_respond (id_in ps "projectId")
        (λ i. reply (λ found. success (queues found)) (QueueService.list_by_project site.before i))

  unfoldable pub update : Params → Exec Db Response
  update ps = or_respond (id_in ps "queueId") (λ i.
      read_body site.queue_update_body "malformed JSON" req
        (λ b. reply (λ q. success (queue q)) (QueueService.update i b at.now)))

  unfoldable pub delete : Params → Exec Db Response
  delete ps = or_respond (id_in ps "queueId") (λ i. reply done (QueueService.delete i))

  unfoldable pub pause : Params → Exec Db Response
  pause ps = or_respond (id_in ps "queueId") (λ i. reply done (QueueService.pause i at.at))

  unfoldable pub resume : Params → Exec Db Response
  resume ps = or_respond (id_in ps "queueId") (λ i. reply done (QueueService.resume i at.at))

  unfoldable pub get_stats : Params → Exec Db Response
  get_stats ps =
      or_respond (id_in ps "queueId")
        (λ i. reply (λ n. success (queue_stats n)) (QueueService.get_stats i))
