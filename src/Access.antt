-- ===== src/Access.antt =====
-- backend/internal/middleware/auth.go: RequireOrgRole and RequireProjectRole. The parameter of the
-- URL comes parsed, or with the error of its parser; `reader` is the GetMember of the interface.
pub mod Bearer
pub mod Roles
use codity_assignment.Base.{ℕ, if◌then◌else◌, ltb}
use codity_assignment.Exec.{Result, err, ok}
use codity_assignment.Errors.{app, forbidden}
use codity_assignment.Domain.Org
use codity_assignment.Domain.Project

unfoldable pub org_level : Org.Role → ℕ
org_level Org.owner = 3
org_level Org.admin = 2
org_level Org.member = 1

unfoldable pub project_level : Project.Role → ℕ
project_level Project.admin = 3
project_level Project.developer = 2
project_level Project.viewer = 1

-- `ok r` is `c.Next()` with the role r, `err e` the error that RespondError sends.
unfoldable pub require_org_role :
    (ℕ → ℕ → Result Org.Role) → Org.Role → Result ℕ → ℕ → Result Org.Role
unfolding org_level
require_org_role reader least (err e) user_id = err e
require_org_role reader least (ok org_id) user_id = elim (reader org_id user_id) [
  | err e ↦ err (app forbidden "you are not a member of this organization")
  | ok role ↦
      if ltb (org_level role) (org_level least)
      then err (app forbidden "insufficient organization role")
      else ok role
]

unfoldable pub require_project_role :
    (ℕ → ℕ → Result Project.Role) → Project.Role → Result ℕ → ℕ → Result Project.Role
unfolding project_level
require_project_role reader least (err e) user_id = err e
require_project_role reader least (ok project_id) user_id = elim (reader project_id user_id) [
  | err e ↦ err (app forbidden "you are not a member of this project")
  | ok role ↦
      if ltb (project_level role) (project_level least)
      then err (app forbidden "insufficient project role")
      else ok role
]
