-- ===== src/Access/Permissions.antt =====
-- The permission codes and system roles of apps/api/src/access/permissions.ts.
use manychat.Prelude.{String, List, [], ◌∷◌, ◌++◌}

abbrev pub global_permissions : List String
global_permissions =
    "projects:create" ∷ "projects:read" ∷ "users:manage" ∷ "users:read" ∷ "roles:manage" ∷ []

abbrev pub project_permissions : List String
project_permissions =
    "project:read" ∷ "project:manage" ∷ "members:manage" ∷ "contacts:read" ∷ "contacts:manage"
    ∷ "contacts:update" ∷ "contacts:export" ∷ "contacts:merge" ∷ "tags:read" ∷ "tags:manage"
    ∷ "automation:read" ∷ "automation:manage" ∷ "integrations:manage" ∷ "channels:read"
    ∷ "channels:manage" ∷ "channels:rotate_secrets" ∷ "broadcasts:read" ∷ "broadcasts:create"
    ∷ "broadcasts:launch" ∷ "broadcasts:pause" ∷ "broadcasts:cancel" ∷ "media:read" ∷ "media:manage"
    ∷ "templates:read" ∷ "templates:manage" ∷ []

abbrev pub all_permission_codes : List String
all_permission_codes = global_permissions ++ project_permissions

abbrev pub super_admin_role : String
super_admin_role = "super-admin"

-- A system role of projects.
pub record SystemRole : Type 0 where
  pub name : String
  pub normalized_name : String
  pub permissions : List String

abbrev pub project_admin : SystemRole
project_admin = record {
  name = "Project Admin";
  normalized_name = "project-admin";
  permissions =
      "project:read" ∷ "project:manage" ∷ "members:manage" ∷ "contacts:read" ∷ "contacts:manage"
      ∷ "contacts:update" ∷ "contacts:export" ∷ "contacts:merge" ∷ "tags:read" ∷ "tags:manage"
      ∷ "automation:read" ∷ "automation:manage" ∷ "integrations:manage" ∷ "channels:read"
      ∷ "channels:manage" ∷ "channels:rotate_secrets" ∷ "broadcasts:read" ∷ "broadcasts:create"
      ∷ "broadcasts:launch" ∷ "broadcasts:pause" ∷ "broadcasts:cancel" ∷ "media:read"
      ∷ "media:manage" ∷ "templates:read" ∷ "templates:manage" ∷ [];
}

abbrev pub automation_editor : SystemRole
automation_editor = record {
  name = "Automation Editor";
  normalized_name = "automation-editor";
  permissions =
      "project:read" ∷ "automation:read" ∷ "automation:manage" ∷ "media:read" ∷ "media:manage"
      ∷ "templates:read" ∷ "templates:manage" ∷ [];
}

abbrev pub integration_manager : SystemRole
integration_manager = record {
  name = "Integration Manager";
  normalized_name = "integration-manager";
  permissions =
      "project:read" ∷ "integrations:manage" ∷ "channels:read" ∷ "channels:manage"
      ∷ "channels:rotate_secrets" ∷ [];
}

abbrev pub contact_manager : SystemRole
contact_manager = record {
  name = "Contact Manager";
  normalized_name = "contact-manager";
  permissions =
      "project:read" ∷ "contacts:read" ∷ "contacts:manage" ∷ "contacts:update" ∷ "contacts:export"
      ∷ "contacts:merge" ∷ "tags:read" ∷ "tags:manage" ∷ [];
}

abbrev pub viewer : SystemRole
viewer = record {
  name = "Viewer";
  normalized_name = "viewer";
  permissions =
      "project:read" ∷ "contacts:read" ∷ "tags:read" ∷ "automation:read" ∷ "media:read"
      ∷ "templates:read" ∷ [];
}

abbrev pub system_project_roles : List SystemRole
system_project_roles =
    project_admin ∷ automation_editor ∷ integration_manager ∷ contact_manager ∷ viewer ∷ []
