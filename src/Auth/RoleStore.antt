-- ===== src/Auth/RoleStore.antt =====
-- MemoryRoleStore of internal/auth/role_store.go, and the checks on permissions and role names of
-- internal/auth/rbac.go and role_store.go.
pub mod Builtins
use Prim.Native.Char.{code}
use cloudpam.Base.{
  ℕ, ◌+◌, zero, suc, String, Bool, true, false, not, ◌&&◌, ◌||◌, Option, some, none, List, [], ◌∷◌,
  ltb, leb, ◌==◌, str_eq, if◌then◌else◌,
}
use cloudpam.Base.Dict.{Dict, find, set, delete}
use cloudpam.Auth.Text.{trim_space, split_colon}
use Prim.Native.String.{◌++◌}
use cloudpam.Auth.Catalog.{
  Permission, PermissionDefinition, permission, permission_catalog, role_permissions,
}
use cloudpam.Auth.Rbac.{RoleDefinition, role_none}
use cloudpam.Auth.Roles.{is_valid_role}

-- Permission.String
abbrev pub permission_id : Permission → String
permission_id p = p.resource ++ (":" ++ p.action)

unfoldable pub in_catalog : String → List PermissionDefinition → Bool
in_catalog id [] = false
in_catalog id (def ∷ defs) = if str_eq def.id id then true else in_catalog id defs

-- IsValidPermission
unfoldable pub is_valid_permission : Permission → Bool
unfolding in_catalog
is_valid_permission p = in_catalog (permission_id p) permission_catalog

-- PermissionFromID
unfoldable pub permission_from_id : String → Permission × Bool
unfolding is_valid_permission
permission_from_id id = elim (split_colon (trim_space id)) [
  | none ↦ (permission "" "", false)
  | some (resource, action) ↦ let p = permission resource action in (p, is_valid_permission p)
]

pub data RoleError : Type 0 where
  err_role_not_found err_role_exists err_builtin_role err_role_in_use err_invalid_role
        err_invalid_permission err_users :
      RoleError

pub data Outcome {ℓ} (A : Type ℓ) : Type ℓ where
  ok : A → Outcome A
  err : RoleError → Outcome A

-- ValidatePermissions: whether every permission is valid. What it has seen already changes nothing.
unfoldable pub validate_permissions : List Permission → Bool
unfolding is_valid_permission
validate_permissions [] = true
validate_permissions (p ∷ ps) =
    if not (is_valid_permission p) then false else validate_permissions ps

-- [a-z] and [a-z0-9_-]
abbrev pub is_letter : ℕ → Bool
is_letter c = leb b'a' c && leb c b'z'

abbrev pub is_name_char : ℕ → Bool
is_name_char c = is_letter c || ((leb b'0' c && leb c b'9') || (c == b'_' || c == b'-'))

-- A text of name characters, and how many they are.
unfoldable pub name_tail : String → Option ℕ
name_tail String.[] = some 0
name_tail (String.◌∷◌ c s) = elim (name_tail s) [
  | none ↦ none
  | some n ↦ if is_name_char (code c) then some (n + 1) else none
]

-- roleNamePattern, ^[a-z][a-z0-9_-]{1,62}$
unfoldable pub matches_pattern : String → Bool
unfolding name_tail
matches_pattern String.[] = false
matches_pattern (String.◌∷◌ c s) = elim (name_tail s) [
  | none ↦ false
  | some n ↦ is_letter (code c) && (leb 1 n && leb n 62)
]

-- IsBuiltinRole
abbrev pub is_builtin_role : String → Bool
is_builtin_role role = is_valid_role role

-- ValidateCustomRoleName; `none` is no error.
unfoldable pub validate_custom_role_name : String → Option RoleError
unfolding matches_pattern
validate_custom_role_name name =
    if is_builtin_role name
    then some err_builtin_role
    else if str_eq name role_none || not (matches_pattern name)
    then some err_invalid_role
    else none

pub record User : Type 0 where
  pub id : String
  pub username : String
  pub email : String
  pub display_name : String
  pub role : String
  pub password_hash : List ℕ
  pub is_active : Bool
  pub created_at : ℕ
  pub updated_at : ℕ
  pub last_login_at : Option ℕ
  pub failed_login_attempts : ℕ
  pub last_failed_login_at : Option ℕ
  pub locked_at : Option ℕ
  pub lockout_until : Option ℕ
  pub auth_provider : String
  pub oidc_subject : String
  pub oidc_issuer : String

abbrev pub Roles : Type 0
Roles = Dict RoleDefinition

-- RoleAssignedToActiveUsers, over what the user store lists.
unfoldable pub assigned_to_active : List User → String → Bool
assigned_to_active [] name = false
assigned_to_active (u ∷ users) name =
    if u.is_active && str_eq u.role name then true else assigned_to_active users name

-- The store has no user store, or one whose List gives users or an error.
pub data Users : Type 0 where
  no_users list_error : Users
  listed : List User → Users

unfoldable pub role_in_use : Users → String → Outcome Bool
unfolding assigned_to_active
role_in_use no_users name = ok false
role_in_use list_error name = err err_users
role_in_use (listed users) name = ok (assigned_to_active users name)

abbrev pub description_of : String → String
description_of role =
    if str_eq role "admin"
    then "Full application administration"
    else if str_eq role "operator"
    then "Manage pools, accounts, and discovery workflows"
    else if str_eq role "viewer"
    then "Read-only access to pools, accounts, and discovery"
    else if str_eq role "auditor"
    then "Read-only audit log access"
    else ""

-- BuiltinRoleDefinition, for a role of RolePermissions; the zero time is 0.
abbrev pub builtin_role_definition : String → List Permission → RoleDefinition
builtin_role_definition role perms = record {
  id = role;
  name = role;
  description = description_of role;
  is_builtin = true;
  permissions = perms;
  created_at = 0;
  updated_at = 0;
}

unfoldable pub add_builtins : Dict (List Permission) → Roles → Roles
add_builtins [] roles = roles
add_builtins ((role, perms) ∷ rest) roles =
    add_builtins rest (set roles role (builtin_role_definition role perms))

-- NewMemoryRoleStore
abbrev pub new_role_store : Roles
new_role_store = add_builtins role_permissions []

-- `to_lower` is strings.ToLower.
module _ (to_lower : String → String) where
  -- NormalizeRoleName
  unfoldable pub normalize_role_name : String → String
  normalize_role_name name = to_lower (trim_space name)

  -- GetRole
  unfoldable pub get_role : String → Roles → Outcome RoleDefinition
  get_role name roles = elim (find roles (normalize_role_name name)) [
    | none ↦ err err_role_not_found
    | some role ↦ ok role
  ]

  -- CreateRole
  unfoldable pub create_role : ℕ → RoleDefinition → Roles → Outcome (Unit {0}) × Roles
  unfolding normalize_role_name validate_custom_role_name validate_permissions
  create_role now role roles =
      let name = normalize_role_name role.name in
      elim (validate_custom_role_name name) [
        | some e ↦ (err e, roles)
        | none ↦
            if not (validate_permissions role.permissions)
            then (err err_invalid_permission, roles)
            else (elim (find roles name) [
              | some _ ↦ (err err_role_exists, roles)
              | none ↦ (
                ok tt,
                set roles name (record role {
                  id = name;
                  name = name;
                  is_builtin = false;
                  created_at = now;
                  updated_at = now;
                }),
              )
            ])
      ]

  -- UpdateRole
  unfoldable pub update_role :
      ℕ → String → String → List Permission → Roles → Outcome RoleDefinition × Roles
  unfolding normalize_role_name validate_permissions
  update_role now name description perms roles =
      let key = normalize_role_name name in
      if is_builtin_role key
      then (err err_builtin_role, roles)
      else if not (validate_permissions perms)
      then (err err_invalid_permission, roles)
      else (elim (find roles key) [
        | none ↦ (err err_role_not_found, roles)
        | some role ↦
            let role' = record role {
              description = trim_space description;
              permissions = perms;
              updated_at = now;
            } in
            (ok role', set roles key role')
      ])

  -- DeleteRole
  unfoldable pub delete_role : Users → String → Roles → Outcome (Unit {0}) × Roles
  unfolding normalize_role_name role_in_use
  delete_role users name roles =
      let key = normalize_role_name name in
      if is_builtin_role key then (err err_builtin_role, roles) else (elim (role_in_use users key) [
        | err e ↦ (err e, roles)
        | ok true ↦ (err err_role_in_use, roles)
        | ok false ↦ elim (find roles key) [
          | none ↦ (err err_role_not_found, roles)
          | some _ ↦ (ok tt, delete roles key)
        ]
      ])
