-- ===== src/Api/AuthHandler.antt =====
-- backend/internal/handler/auth/handler.go.
use codity_assignment.Base.{String, if◌then◌else◌, str_eq}
use codity_assignment.Api.Site.{Site, Moment}
use codity_assignment.Api.{
  Request, error_response, Response, or_respond, read_body, reply, parsed, success, created, done,
  account, session, access,
}
use codity_assignment.Exec.{Exec, ◌>>◌, attempt, pure}
use codity_assignment.Store.{Db}
use codity_assignment.Errors.{app, invalid_input}
use codity_assignment.AuthService

module _ (site : Site) (req : Request) (at : Moment) where
  unfoldable pub register : Exec Db Response
  register =
      read_body site.register_body "request body is malformed JSON" req
        (λ b. reply (λ u. created (account u)) (AuthService.register site.auth b at.id at.now))

  unfoldable pub login : Exec Db Response
  login = read_body site.login_body "request body is malformed JSON" req (λ b.
      reply (λ s. success (session s))
        (AuthService.login site.auth (record b { user_agent = req.user_agent; ip = req.ip })
          at.draws))

  abbrev exchange : String → Exec Db Response
  exchange token =
      if str_eq token ""
      then pure (error_response (app invalid_input "refresh_token is required"))
      else reply (λ s. success (access s))
          (AuthService.refresh site.auth token at.now at.draws.signed_at)

  unfoldable pub refresh : Exec Db Response
  unfolding error_response
  refresh =
      or_respond (parsed "request body is malformed JSON" (site.refresh_body.parse req.text))
        exchange

  -- The error of the service is ignored.
  abbrev close_session : String → Exec Db Response
  close_session token = do attempt (AuthService.logout site.auth token); pure (done tt)

  unfoldable pub logout : Exec Db Response
  unfolding error_response
  logout =
      or_respond (parsed "request body is malformed JSON" (site.refresh_body.parse req.text))
        close_session
