-- ===== src/Access/Guard.antt =====
-- `PermissionGuard.canActivate` of apps/api/src/access/permission.guard.ts.
use manychat.Prelude.{
  String, Bool, true, false, not, ◌&&◌, List, Option, none, some, has, ◌==◌, if◌then◌else◌,
}
use manychat.Access.Permissions.{super_admin_role}
use manychat.Access.Service.{Database, has_project_permission}

-- `request.auth`
pub record Auth : Type 0 where
  pub global_permissions : List String
  pub global_role_names : List String
  pub user_id : String

-- What a handler requires, by `RequireGlobalPermission` and `RequireProjectPermission`.
pub record Required : Type 0 where
  pub global_permission : Option String
  pub project_permission : Option String

-- The answer `true` or `false`, or a ForbiddenException with its message.
pub data Verdict : Type 0 where
  allowed refused : Verdict
  forbidden : (message : String) → Verdict

-- A name that is there and not empty counts as true.
abbrev pub truthy : Option String → Option String
truthy none = none
truthy (some s) = if s == "" then none else some s

abbrev pub lacks_global : Option String → Auth → Bool
lacks_global none auth = false
lacks_global (some permission) auth =
    not (has super_admin_role auth.global_role_names)
    && not (has permission auth.global_permissions)

module _ (db : Database) where
  abbrev pub lacks_project : Option String → Option String → Auth → Bool
  lacks_project none project_id auth = false
  lacks_project (some permission) none auth = true
  lacks_project (some permission) (some project_id) auth =
      not (has_project_permission db auth.user_id project_id permission)

  unfoldable pub can_activate : Required → Option Auth → Option String → Verdict
  can_activate required none project_id = refused
  can_activate required (some auth) project_id =
      if lacks_global (truthy required.global_permission) auth
      then forbidden "Global permission is required"
      else if lacks_project (truthy required.project_permission) (truthy project_id) auth
      then forbidden "Project permission is required"
      else allowed
