-- ===== src/Auth/Catalog.antt =====
-- The permission catalog and the permissions of the built-in roles: the tables of
-- internal/auth/rbac.go.
use cloudpam.Base.{String, List, [], ◌∷◌}

pub record Permission : Type 0 where
  pub resource : String
  pub action : String

pub record PermissionDefinition : Type 0 where
  pub id : String
  pub resource : String
  pub action : String
  pub name : String
  pub description : String
  pub category : String

abbrev pub definition : String → String → String → String → String → String → PermissionDefinition
definition id resource action name description category = record {
  id = id;
  resource = resource;
  action = action;
  name = name;
  description = description;
  category = category;
}

abbrev pub permission : String → String → Permission
permission resource action = record { resource = resource; action = action }

-- PermissionCatalog
abbrev pub permission_catalog : List PermissionDefinition
permission_catalog =
    definition "pools:create" "pools" "create" "Create pools"
      "Create address pools and planned allocations." "IPAM"
    ∷ definition "pools:read" "pools" "read" "Read pools"
        "View pool details, blocks, utilization, and schema checks." "IPAM"
    ∷ definition "pools:update" "pools" "update" "Update pools"
        "Edit pool metadata, hierarchy, and assignment." "IPAM"
    ∷ definition "pools:delete" "pools" "delete" "Delete pools"
        "Delete pools and planned allocations." "IPAM"
    ∷ definition "pools:list" "pools" "list" "List pools" "Browse pool lists and tree views." "IPAM"
    ∷ definition "accounts:create" "accounts" "create" "Create accounts"
        "Create cloud account records." "Accounts"
    ∷ definition "accounts:read" "accounts" "read" "Read accounts"
        "View account details and account-linked resources." "Accounts"
    ∷ definition "accounts:update" "accounts" "update" "Update accounts" "Edit account metadata."
        "Accounts"
    ∷ definition "accounts:delete" "accounts" "delete" "Delete accounts" "Delete account records."
        "Accounts"
    ∷ definition "accounts:list" "accounts" "list" "List accounts" "Browse account lists."
        "Accounts"
    ∷ definition "apikeys:create" "apikeys" "create" "Create API keys"
        "Create API tokens within the caller's permission envelope." "Identity"
    ∷ definition "apikeys:read" "apikeys" "read" "Read API keys" "View API key metadata." "Identity"
    ∷ definition "apikeys:update" "apikeys" "update" "Update API keys"
        "Reserved for future API key metadata updates." "Identity"
    ∷ definition "apikeys:delete" "apikeys" "delete" "Delete API keys" "Revoke API keys." "Identity"
    ∷ definition "apikeys:list" "apikeys" "list" "List API keys" "Browse API key metadata."
        "Identity"
    ∷ definition "audit:read" "audit" "read" "Read audit logs" "View audit event details." "Audit"
    ∷ definition "audit:list" "audit" "list" "List audit logs" "Browse audit events." "Audit"
    ∷ definition "users:create" "users" "create" "Create users" "Create local user accounts."
        "Identity"
    ∷ definition "users:read" "users" "read" "Read users" "View user account details." "Identity"
    ∷ definition "users:update" "users" "update" "Update users"
        "Edit users, roles, password state, and active status." "Identity"
    ∷ definition "users:delete" "users" "delete" "Delete users" "Deactivate user accounts."
        "Identity"
    ∷ definition "users:list" "users" "list" "List users" "Browse user accounts." "Identity"
    ∷ definition "discovery:create" "discovery" "create" "Start discovery"
        "Start discovery syncs and register agents." "Discovery"
    ∷ definition "discovery:read" "discovery" "read" "Read discovery"
        "View discovered resources, agents, drift, and recommendations." "Discovery"
    ∷ definition "discovery:update" "discovery" "update" "Update discovery"
        "Apply discovery results and reconcile drift." "Discovery"
    ∷ definition "discovery:delete" "discovery" "delete" "Delete discovery"
        "Reserved for future discovery cleanup operations." "Discovery"
    ∷ definition "discovery:list" "discovery" "list" "List discovery"
        "Browse discovery resources, jobs, agents, drift, and recommendations." "Discovery"
    ∷ definition "settings:read" "settings" "read" "Read settings"
        "View security, OIDC, update, and system configuration." "Settings"
    ∷ definition "settings:write" "settings" "write" "Write settings"
        "Change security, OIDC, update, and system configuration." "Settings"
    ∷ []

abbrev pub admin_permissions : List Permission
admin_permissions =
    permission "pools" "create"
    ∷ permission "pools" "read"
    ∷ permission "pools" "update"
    ∷ permission "pools" "delete"
    ∷ permission "pools" "list"
    ∷ permission "accounts" "create"
    ∷ permission "accounts" "read"
    ∷ permission "accounts" "update"
    ∷ permission "accounts" "delete"
    ∷ permission "accounts" "list"
    ∷ permission "apikeys" "create"
    ∷ permission "apikeys" "read"
    ∷ permission "apikeys" "update"
    ∷ permission "apikeys" "delete"
    ∷ permission "apikeys" "list"
    ∷ permission "audit" "read"
    ∷ permission "audit" "list"
    ∷ permission "users" "create"
    ∷ permission "users" "read"
    ∷ permission "users" "update"
    ∷ permission "users" "delete"
    ∷ permission "users" "list"
    ∷ permission "discovery" "create"
    ∷ permission "discovery" "read"
    ∷ permission "discovery" "update"
    ∷ permission "discovery" "delete"
    ∷ permission "discovery" "list"
    ∷ permission "settings" "read"
    ∷ permission "settings" "write"
    ∷ []

abbrev pub operator_permissions : List Permission
operator_permissions =
    permission "pools" "create"
    ∷ permission "pools" "read"
    ∷ permission "pools" "update"
    ∷ permission "pools" "delete"
    ∷ permission "pools" "list"
    ∷ permission "accounts" "create"
    ∷ permission "accounts" "read"
    ∷ permission "accounts" "update"
    ∷ permission "accounts" "delete"
    ∷ permission "accounts" "list"
    ∷ permission "discovery" "create"
    ∷ permission "discovery" "read"
    ∷ permission "discovery" "update"
    ∷ permission "discovery" "list"
    ∷ []

abbrev pub viewer_permissions : List Permission
viewer_permissions =
    permission "pools" "read"
    ∷ permission "pools" "list"
    ∷ permission "accounts" "read"
    ∷ permission "accounts" "list"
    ∷ permission "discovery" "read"
    ∷ permission "discovery" "list"
    ∷ []

abbrev pub auditor_permissions : List Permission
auditor_permissions = permission "audit" "read" ∷ permission "audit" "list" ∷ []

-- RolePermissions
abbrev pub role_permissions : List (String × List Permission)
role_permissions =
    ("admin", admin_permissions)
    ∷ ("operator", operator_permissions)
    ∷ ("viewer", viewer_permissions)
    ∷ ("auditor", auditor_permissions)
    ∷ []
