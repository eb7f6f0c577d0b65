-- ===== src/Auth/Rbac.antt =====
-- internal/auth/rbac.go: permissions of roles and scopes, and the checks of internal/auth/context.go
-- that rest on them.
pub mod Cached
pub mod Envelope
pub mod Builtin
use cloudpam.Base.{
  ℕ, String, Bool, true, false, not, ◌&&◌, ◌||◌, Option, some, none, List, [], ◌∷◌, str_eq,
  if◌then◌else◌,
}
use cloudpam.Base.Dict.{Dict, find, set}
use cloudpam.Auth.Text.{trim_space, split_colon, strip_wildcard}
use cloudpam.Auth.Catalog.{
  Permission, PermissionDefinition, permission, permission_catalog, role_permissions,
}
use cloudpam.Auth.Identity.{Session, ApiKey, Context, session_is_valid, key_is_valid}

-- RoleNone
abbrev pub role_none : String
role_none = ""

-- The loop over a role's permissions.
unfoldable pub permits : List Permission → String → String → Bool
permits [] resource action = false
permits (perm ∷ perms) resource action =
    if str_eq perm.resource resource && str_eq perm.action action
    then true
    else permits perms resource action

-- rolePermissionCache
abbrev pub Cache : Type 0
Cache = Dict (Dict (Dict Bool))

abbrev pub or_empty {ℓ} : {V : Type ℓ} → Option (Dict V) → Dict V
or_empty none = []
or_empty (some d) = d

-- The inner loop of `init`.
unfoldable pub cache_permissions : Dict (Dict Bool) → List Permission → Dict (Dict Bool)
cache_permissions d [] = d
cache_permissions d (perm ∷ perms) =
    let actions = or_empty (find d perm.resource) in
    cache_permissions (set d perm.resource (set actions perm.action true)) perms

-- init
unfoldable pub build_cache : Cache → Dict (List Permission) → Cache
build_cache cache [] = cache
build_cache cache ((role, perms) ∷ rest) =
    build_cache (set cache role (cache_permissions [] perms)) rest

abbrev pub role_permission_cache : Cache
role_permission_cache = build_cache [] role_permissions

abbrev pub allowed : Option Bool → Bool
allowed none = false
allowed (some b) = b

-- The three lookups in the cache; what is unknown is denied.
unfoldable pub cached : Cache → String → String → String → Bool
cached cache role resource action = elim (find cache role) [
  | none ↦ false
  | some resource_perms ↦ elim (find resource_perms resource) [
    | none ↦ false
    | some action_perms ↦ allowed (find action_perms action)
  ]
]

pub record RoleDefinition : Type 0 where
  pub id : String
  pub name : String
  pub description : String
  pub is_builtin : Bool
  pub permissions : List Permission
  pub created_at : ℕ
  pub updated_at : ℕ

-- The role store that SetRoleStoreProvider installs, by its GetRole; an error is `none`.
abbrev pub Provider : Type 0
Provider = Option (String → Option RoleDefinition)

abbrev pub provided : Provider → String → Option RoleDefinition
provided none role = none
provided (some get_role) role = get_role role

-- HasRolePermissionContext
unfoldable pub has_role_permission : Provider → String → String → String → Bool
unfolding cached
has_role_permission provider role resource action =
    if str_eq role role_none then false else (elim (provided provider role) [
      | some def ↦ permits def.permissions resource action
      | none ↦ cached role_permission_cache role resource action
    ])

-- The switch of ScopeAllowsPermission over the part behind the colon.
unfoldable pub action_allows : String → String → Bool
action_allows granted action =
    if str_eq granted "*"
    then true
    else if str_eq granted "read"
    then str_eq action "read" || str_eq action "list"
    else if str_eq granted "write"
    then str_eq action "create"
      || (str_eq action "read"
          || (str_eq action "update"
              || (str_eq action "delete" || (str_eq action "list" || str_eq action "write"))))
    else str_eq granted action

-- "keys" stands for the resource "apikeys".
abbrev pub scope_resource : String → String
scope_resource resource = if str_eq resource "keys" then "apikeys" else resource

-- ScopeAllowsPermission
unfoldable pub scope_allows_permission : String → String → String → Bool
unfolding action_allows
scope_allows_permission scope resource action =
    let trimmed = trim_space scope in
    if str_eq trimmed "*" then true else (elim (split_colon trimmed) [
      | none ↦ false
      | some (left, right) ↦
          if not (str_eq (scope_resource left) resource) then false else action_allows right action
    ])

-- ScopesAllowPermission
unfoldable pub scopes_allow_permission : List String → String → String → Bool
unfolding scope_allows_permission
scopes_allow_permission [] resource action = false
scopes_allow_permission (scope ∷ scopes) resource action =
    if scope_allows_permission scope resource action
    then true
    else scopes_allow_permission scopes resource action

-- The loop of PermissionsFromScopes over the catalog.
unfoldable pub allowed_of : List PermissionDefinition → List String → List Permission
allowed_of [] scopes = []
allowed_of (def ∷ defs) scopes =
    let perms = allowed_of defs scopes in
    if scopes_allow_permission scopes def.resource def.action
    then permission def.resource def.action ∷ perms
    else perms

-- PermissionsFromScopes
abbrev pub permissions_from_scopes : List String → List Permission
permissions_from_scopes scopes = allowed_of permission_catalog scopes

-- A session in force, and an API key in force.
abbrev pub valid_session : ℕ → Option Session → Option Session
valid_session now none = none
valid_session now (some s) = if session_is_valid now s then some s else none

abbrev pub valid_key : ℕ → Option ApiKey → Option ApiKey
valid_key now none = none
valid_key now (some k) = if key_is_valid now k then some k else none

-- HasPermissionContext
unfoldable pub has_permission : Provider → ℕ → Context → String → String → String → Bool
has_permission provider now ctx role resource action =
    if not (str_eq ctx.role role_none)
    then has_role_permission provider role resource action
    else (elim (valid_session now ctx.session) [
      | some s ↦ has_role_permission provider role resource action
      | none ↦ elim (valid_key now ctx.api_key) [
        | some key ↦ scopes_allow_permission key.scopes resource action
        | none ↦ has_role_permission provider role resource action
      ]
    ])

-- The loop of ScopeAllowedByRolePermissions over the catalog.
unfoldable pub has_all : (String → String → Bool) → List PermissionDefinition → Bool
has_all has [] = true
has_all has (def ∷ defs) = if not (has def.resource def.action) then false else has_all has defs

-- The tests of ScopeAllowedByRolePermissions on the part behind the colon.
unfoldable pub action_allowed : (String → String → Bool) → String → String → Bool
action_allowed has resource action =
    if str_eq action "read"
    then has resource "read" || has resource "list"
    else if str_eq action "write" || str_eq action "*"
    then has resource "create"
      && (has resource "read"
          && (has resource "update" && (has resource "delete" && has resource "list")))
    else has resource action

-- ScopeAllowedByRolePermissions, where `has` is HasPermissionContext at the caller's context and role
unfoldable pub scope_allowed : (String → String → Bool) → String → Bool
unfolding has_all action_allowed
scope_allowed has scope =
    let trimmed = trim_space scope in
    if str_eq trimmed "*" then has_all has permission_catalog else (elim (split_colon trimmed) [
      | none ↦ false
      | some (left, action) ↦ action_allowed has (scope_resource left) action
    ])

unfoldable pub scope_allowed_by_role : Provider → ℕ → Context → String → String → Bool
unfolding scope_allowed
scope_allowed_by_role provider now ctx role scope =
    scope_allowed (has_permission provider now ctx role) scope
