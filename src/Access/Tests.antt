-- ===== src/Access/Tests.antt =====
-- Runs of the access model, and its theorems at inputs that meet their hypotheses.
use manychat.Prelude.{
  String, ◌≡◌, refl, true, List, [], ◌∷◌, Option, none, some, has, all, ◌==◌, if◌then◌else◌, ◌&&◌,
}
use manychat.Access.Permissions.{project_permissions, project_admin, viewer, system_project_roles}
use manychat.Access.Service.{
  Database, Role, Membership, unique, is_super_admin, get_global_access, has_project_permission,
  get_project_access,
}
use manychat.Access.Guard.{Auth, Required, allowed, truthy, can_activate}
use manychat.Access.Laws.{Grants, get_project_access-has, can_activate-Grants}

-- Unfolds what the runs need.
access : Unit {0}
unfolding unique is_super_admin get_global_access has_project_permission get_project_access
    can_activate
access = tt

abbrev role_of : String → List String → Role
role_of name permissions = record { normalized_name = name; permissions = permissions }

abbrev member_of : String → String → Option Membership
member_of user project =
    if user == "ann" && project == "p1"
    then some (record { status = "ACTIVE"; project_role = role_of "viewer" viewer.permissions })
    else none

-- Ann is a viewer of p1, Root a super admin.
abbrev sample : Database
sample = record {
  user_status = λ user. some "ACTIVE";
  global_roles = λ user. if user == "root" then role_of "super-admin" [] ∷ [] else [];
  membership = member_of;
  sessions = [];
}

abbrev reading : Required
reading = record { global_permission = none; project_permission = some "contacts:read" }

abbrev ann : Auth
ann = record { global_permissions = []; global_role_names = []; user_id = "ann" }

system_roles_known :
    all (λ role. all (λ p. has p project_permissions) role.permissions) system_project_roles ≡ true
system_roles_known = refl

project_admin_complete : all (λ p. has p project_admin.permissions) project_permissions ≡ true
project_admin_complete = refl

ann_reads : can_activate sample reading (some ann) (some "p1") ≡ allowed
unfolding access
ann_reads = refl

get_project_access-has_example :
    has "contacts:manage" (get_project_access sample "ann" "p1").permissions
    ≡ has_project_permission sample "ann" "p1" "contacts:manage"
get_project_access-has_example = get_project_access-has sample "ann" "p1" "contacts:manage" refl

can_activate-Grants_example :
    (a : Auth) × (some ann ≡ some a)
    × (id : String) × (truthy (some "p1") ≡ some id)
    × Grants sample a.user_id id "contacts:read"
can_activate-Grants_example =
    can_activate-Grants sample reading (some ann) (some "p1") "contacts:read" refl ann_reads
