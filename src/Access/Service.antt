-- ===== src/Access/Service.antt =====
-- `AccessService` of apps/api/src/access/access.service.ts.
use manychat.Prelude.{
  ℕ, String, Bool, true, false, ◌&&◌, List, [], ◌∷◌, map, Option, none, some, has, any, flat_map,
  filter, ltb, not, ◌==◌, if◌then◌else◌,
}
use manychat.Access.Permissions.{project_permissions, super_admin_role}

-- A role with the codes of its permissions.
pub record Role : Type 0 where
  pub normalized_name : String
  pub permissions : List String

pub record Membership : Type 0 where
  pub status : String
  pub project_role : Role

pub record Session : Type 0 where
  pub id : String
  pub user_id : String
  pub status : String
  pub expires_at : ℕ

-- What the queries read: the status of a user, the global roles of a user, the membership of a user in a
-- project (user first), and the sessions.
pub record Database : Type 0 where
  pub user_status : String → Option String
  pub global_roles : String → List Role
  pub membership : String → String → Option Membership
  pub sessions : List Session

pub record GlobalAccess : Type 0 where
  pub permissions : List String
  pub role_names : List String

pub record ProjectAccess : Type 0 where
  pub permissions : List String
  pub project_role_name : Option String

-- `[...new Set(codes)]`: the first of equal codes stays.
unfoldable pub unique : List String → List String
unique [] = []
unique (x ∷ xs) = x ∷ filter (λ y. not (y == x)) (unique xs)

abbrev pub no_access : GlobalAccess
no_access = record { permissions = []; role_names = [] }

abbrev pub is_active : Option String → Bool
is_active none = false
is_active (some status) = status == "ACTIVE"

module _ (db : Database) where
  unfoldable pub is_session_active : ℕ → String → String → Bool
  is_session_active now user_id session_id =
      any
        (λ (s : Session).
          ltb now s.expires_at
          && s.id == session_id
          && s.status == "ACTIVE"
          && is_active (db.user_status s.user_id)
          && s.user_id == user_id)
        db.sessions

  unfoldable pub get_global_access : String → GlobalAccess
  unfolding unique
  get_global_access user_id =
      if is_active (db.user_status user_id)
      then record {
        permissions =
            unique (flat_map (λ (role : Role). role.permissions) (db.global_roles user_id));
        role_names = map (λ (role : Role). role.normalized_name) (db.global_roles user_id);
      }
      else no_access

  unfoldable pub is_super_admin : String → Bool
  unfolding get_global_access
  is_super_admin user_id = has super_admin_role (get_global_access user_id).role_names

  -- `membership?.status === 'ACTIVE' && membership.projectRole.permissions.some(...)`
  abbrev pub member_has : Option Membership → String → Bool
  member_has none permission = false
  member_has (some m) permission = m.status == "ACTIVE" && has permission m.project_role.permissions

  unfoldable pub has_project_permission : String → String → String → Bool
  unfolding is_super_admin
  has_project_permission user_id project_id permission =
      if is_super_admin user_id
      then true
      else member_has (db.membership user_id project_id) permission

  abbrev pub no_project_access : ProjectAccess
  no_project_access = record { permissions = []; project_role_name = none }

  abbrev pub member_access : Option Membership → ProjectAccess
  member_access none = no_project_access
  member_access (some m) =
      if m.status == "ACTIVE"
      then record {
        permissions = unique m.project_role.permissions;
        project_role_name = some m.project_role.normalized_name;
      }
      else no_project_access

  unfoldable pub get_project_access : String → String → ProjectAccess
  unfolding is_super_admin unique
  get_project_access user_id project_id =
      if is_super_admin user_id
      then record { permissions = project_permissions; project_role_name = none }
      else member_access (db.membership user_id project_id)
