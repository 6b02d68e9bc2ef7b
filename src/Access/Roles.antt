-- ===== src/Access/Roles.antt =====
-- The levels of the middleware agree with the permissions of the domain.
use codity_assignment.Access.{require_project_role, require_org_role}
use codity_assignment.Base.{ℕ, ◌≡◌, ◌↔◌, true, arith}
use codity_assignment.Exec.{Result, ok}
use codity_assignment.Domain.Org
use codity_assignment.Domain.Project

-- A request that needs the role of an administrator of an organization passes exactly if the user is
-- a member whose role may manage members; where only an owner is let through, exactly if the role
-- may delete the organization.
pub require_org_role-can :
    (reader : ℕ → ℕ → Result Org.Role) (org_id user_id : ℕ) (role : Org.Role)
    → reader org_id user_id ≡ ok role
    → ((require_org_role reader Org.admin (ok org_id) user_id ≡ ok role)
        ↔ (Org.can_manage_members role ≡ true))
      × ((require_org_role reader Org.owner (ok org_id) user_id ≡ ok role)
          ↔ (Org.can_delete_org role ≡ true))
unfolding require_org_role Org.can_manage_members Org.can_delete_org
require_org_role-can reader org_id user_id Org.owner h = ground arith
require_org_role-can reader org_id user_id Org.admin h = ground arith
require_org_role-can reader org_id user_id Org.member h = ground arith

-- A request that needs the role of a developer of a project passes exactly if the role of the user
-- may manage queues, and exactly if it may enqueue jobs; one that needs a viewer, exactly if the
-- role may view.
pub require_project_role-can :
    (reader : ℕ → ℕ → Result Project.Role) (project_id user_id : ℕ) (role : Project.Role)
    → reader project_id user_id ≡ ok role
    → ((require_project_role reader Project.developer (ok project_id) user_id ≡ ok role)
        ↔ (Project.can_manage_queues role ≡ true))
      × ((require_project_role reader Project.developer (ok project_id) user_id ≡ ok role)
          ↔ (Project.can_enqueue_jobs role ≡ true))
      × ((require_project_role reader Project.viewer (ok project_id) user_id ≡ ok role)
          ↔ (Project.can_view role ≡ true))
unfolding require_project_role Project.can_manage_queues Project.can_enqueue_jobs Project.can_view
require_project_role-can reader project_id user_id Project.admin h = ground arith
require_project_role-can reader project_id user_id Project.developer h = ground arith
require_project_role-can reader project_id user_id Project.viewer h = ground arith
