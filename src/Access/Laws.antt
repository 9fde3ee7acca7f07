-- ===== src/Access/Laws.antt =====
-- Who passes the guard, and that the two answers on a project agree.
use manychat.Prelude.{
  String, ◌≡◌, refl, inl, inr, Bool, true, false, not, ◌&&◌, List, [], ◌∷◌, map, Option, none, some,
  has, filter, ◌==◌, arith, Bool-cases, Option-cases, eq_iff,
}
use manychat.Access.Permissions.{project_permissions, super_admin_role}
use manychat.Access.Service.{
  Database, Membership, Role, unique, is_active, is_super_admin, member_has, member_access,
  has_project_permission, get_project_access,
}
use manychat.Access.Guard.{
  Auth, Required, allowed, truthy, lacks_global, lacks_project, can_activate,
}

has-filter_ne :
    (c x : String) (xs : List String)
    → (c == x) ≡ false
    → has c (filter (λ y. not (y == x)) xs) ≡ has c xs
has-filter_ne c x [] h = refl
has-filter_ne c x (y ∷ xs) h =
    ground (arith, eq_iff c x, eq_iff y x, eq_iff y c, has-filter_ne c x xs h)

-- A code is among the unique ones exactly when it is there.
has-unique : (c : String) (xs : List String) → has c (unique xs) ≡ has c xs
unfolding unique
has-unique c [] = refl
has-unique c (x ∷ xs) = elim (Bool-cases (c == x)) [
  | inl same ↦ ground (arith, eq_iff c x, eq_iff x c)
  | inr other ↦
      ground (arith, eq_iff c x, eq_iff x c, has-filter_ne c x (unique xs) other, has-unique c xs)
]

both_true : (a b : Bool) → (a && b) ≡ true → (a ≡ true) × (b ≡ true)
both_true a b h = ground arith

module _ (db : Database) where
  member_access-has :
      (m : Option Membership) (permission : String)
      → has permission (member_access db m).permissions ≡ member_has db m permission
  member_access-has none permission = refl
  member_access-has (some m) permission = elim (Bool-cases (m.status == "ACTIVE")) [
    | inl active ↦ rw active (has-unique permission m.project_role.permissions)
    | inr inactive ↦ rw inactive refl
  ]

  -- For every permission of projects, `hasProjectPermission` answers what the list of
  -- `getProjectAccess` says, for super admins, members and others.
  pub get_project_access-has :
      (user_id project_id permission : String)
      → has permission project_permissions ≡ true
      → has permission (get_project_access db user_id project_id).permissions
        ≡ has_project_permission db user_id project_id permission
  unfolding get_project_access has_project_permission
  get_project_access-has user_id project_id permission known =
      elim (Bool-cases (is_super_admin db user_id)) [
        | inl super ↦ rw super known
        | inr plain ↦ rw plain (member_access-has (db.membership user_id project_id) permission)
      ]

  -- Why a user may do something in a project.
  pub data Grants (user_id project_id permission : String) : Type 0 where
    super_admin :
        is_active (db.user_status user_id) ≡ true
        → has super_admin_role
            (map (λ (role : Role). role.normalized_name) (db.global_roles user_id))
          ≡ true
        → Grants user_id project_id permission
    member :
        (m : Membership)
        → db.membership user_id project_id ≡ some m
        → (m.status == "ACTIVE") ≡ true
        → has permission m.project_role.permissions ≡ true
        → Grants user_id project_id permission

  Grants_of_super :
      (user_id project_id permission : String)
      → is_super_admin db user_id ≡ true
      → Grants user_id project_id permission
  unfolding is_super_admin
  Grants_of_super user_id project_id permission h =
      elim (Bool-cases (is_active (db.user_status user_id))) [
        | inl active ↦ super_admin active (rw active at h)
        | inr inactive ↦ cc (rw inactive at h)
      ]

  Grants_of_member :
      (user_id project_id permission : String)
      → member_has db (db.membership user_id project_id) permission ≡ true
      → Grants user_id project_id permission
  Grants_of_member user_id project_id permission h =
      elim (Option-cases (db.membership user_id project_id)) [
        | inl none_there ↦ cc (rw none_there at h)
        | inr (m, e) ↦
            let both =
              both_true (m.status == "ACTIVE") (has permission m.project_role.permissions)
                (rw e at h) in
            member m e both.0 both.1
      ]

  Grants_of_permission :
      (user_id project_id permission : String)
      → has_project_permission db user_id project_id permission ≡ true
      → Grants user_id project_id permission
  unfolding has_project_permission
  Grants_of_permission user_id project_id permission h =
      elim (Bool-cases (is_super_admin db user_id)) [
        | inl super ↦ Grants_of_super user_id project_id permission super
        | inr plain ↦ Grants_of_member user_id project_id permission (rw plain at h)
      ]

  allowed_parts :
      (required : Required) (auth : Auth) (project_id : Option String)
      → can_activate db required (some auth) project_id ≡ allowed
      → (lacks_global (truthy required.global_permission) auth ≡ false)
        × (lacks_project db (truthy required.project_permission) (truthy project_id) auth ≡ false)
  unfolding can_activate
  allowed_parts required auth project_id h =
      elim (Bool-cases (lacks_global (truthy required.global_permission) auth)) [
        | inl lacks ↦ cc (rw lacks at h)
        | inr global ↦
            elim (Bool-cases
              (lacks_project db (truthy required.project_permission) (truthy project_id) auth)) [
                | inl lacks ↦ cc (rw (global, lacks) at h)
                | inr project ↦ (global, project)
              ]
      ]

  Grants_of_not_lacks :
      (project_id : Option String) (permission : String) (auth : Auth)
      → lacks_project db (some permission) project_id auth ≡ false
      → (id : String) × (project_id ≡ some id) × Grants auth.user_id id permission
  Grants_of_not_lacks none permission auth h = cc
  Grants_of_not_lacks (some id) permission auth h =
      (id, refl, Grants_of_permission auth.user_id id permission (ground arith))

  allowed-authenticated :
      (required : Required) (auth : Option Auth) (project_id : Option String)
      → can_activate db required auth project_id ≡ allowed
      → (a : Auth) × (auth ≡ some a)
  unfolding can_activate
  allowed-authenticated required none project_id h = cc
  allowed-authenticated required (some a) project_id h = (a, refl)

  -- A request that passes the guard of a handler with a project permission is authenticated and names a
  -- project, and the user is active and a super admin, or has an active membership in this project with a
  -- role that has the permission.
  pub can_activate-Grants :
      (required : Required) (auth : Option Auth) (project_id : Option String) (permission : String)
      → truthy required.project_permission ≡ some permission
      → can_activate db required auth project_id ≡ allowed
      → (a : Auth) × (auth ≡ some a)
        × (id : String) × (truthy project_id ≡ some id)
        × Grants a.user_id id permission
  can_activate-Grants required auth project_id permission e h =
      let (a, known) = allowed-authenticated required auth project_id h in
      let (global, project) = allowed_parts required a project_id (rw known at h) in
      let (id, named, granted) =
        Grants_of_not_lacks (truthy project_id) permission a (rw e at project) in
      (a, known, id, named, granted)
