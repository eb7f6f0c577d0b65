-- ===== src/Auth/Roles.antt =====
-- The role that scopes stand for (internal/auth/rbac.go), the effective role of a request and the
-- check of a permission (internal/auth/context.go).
pub mod Effective
use cloudpam.Base.{
  ℕ, String, Bool, true, false, not, ◌&&◌, ◌||◌, Option, some, none, List, [], ◌∷◌, str_eq,
  if◌then◌else◌,
}
use cloudpam.Auth.Text.{trim_space, split_colon, strip_wildcard}
use cloudpam.Auth.Catalog.{Permission, permission_catalog}
use cloudpam.Auth.Identity.{Session, ApiKey, Context}
use cloudpam.Auth.Rbac.{
  role_none, Provider, has_role_permission, scopes_allow_permission, valid_session, valid_key,
}

-- hasAdmin, hasWrite, hasRead and hasAudit
pub record Flags : Type 0 where
  pub has_admin : Bool
  pub has_write : Bool
  pub has_read : Bool
  pub has_audit : Bool

abbrev pub no_flags : Flags
no_flags = record { has_admin = false; has_write = false; has_read = false; has_audit = false }

-- The case `"pools", "accounts", "keys", "discovery"` of the switches.
unfoldable pub is_work_resource : String → Bool
is_work_resource r =
    str_eq r "pools" || (str_eq r "accounts" || (str_eq r "keys" || str_eq r "discovery"))

-- The switch on a wildcard's resource.
unfoldable pub flag_wildcard : Flags → String → Flags
unfolding is_work_resource
flag_wildcard f resource =
    if is_work_resource resource
    then record f { has_write = true }
    else if str_eq resource "audit"
    then record f { has_audit = true }
    else f

-- The switch on a resource and an action.
unfoldable pub flag_action : Flags → String → String → Flags
unfolding is_work_resource
flag_action f resource action =
    if is_work_resource resource
    then (if str_eq action "write"
        then record f { has_write = true }
        else if str_eq action "read"
        then record f { has_read = true }
        else f)
    else if str_eq resource "audit"
    then (if str_eq action "read" then record f { has_audit = true } else f)
    else f

-- One round of the loop.
unfoldable pub flag_scope : Flags → String → Flags
unfolding flag_wildcard flag_action
flag_scope f scope =
    let trimmed = trim_space scope in
    if str_eq trimmed "*" then record f { has_admin = true } else (elim (strip_wildcard trimmed) [
      | some resource ↦ flag_wildcard f resource
      | none ↦ elim (split_colon trimmed) [
        | none ↦ f
        | some (resource, action) ↦ flag_action f resource action
      ]
    ])

unfoldable pub flag_scopes : Flags → List String → Flags
unfolding flag_scope
flag_scopes f [] = f
flag_scopes f (scope ∷ scopes) = flag_scopes (flag_scope f scope) scopes

-- The highest level of privilege.
unfoldable pub role_of_flags : Flags → String
role_of_flags f =
    if f.has_admin
    then "admin"
    else if f.has_write
    then "operator"
    else if f.has_read
    then "viewer"
    else if f.has_audit
    then "auditor"
    else role_none

-- GetRoleFromScopes
unfoldable pub get_role_from_scopes : List String → String
unfolding flag_scopes role_of_flags
get_role_from_scopes scopes = role_of_flags (flag_scopes no_flags scopes)

-- RoleLevel
unfoldable pub role_level : String → ℕ
role_level r =
    if str_eq r "admin"
    then 4
    else if str_eq r "operator"
    then 3
    else if str_eq r "viewer"
    then 2
    else if str_eq r "auditor"
    then 1
    else 0

-- IsValidRole
unfoldable pub is_valid_role : String → Bool
is_valid_role role =
    str_eq role "admin"
    || (str_eq role "operator" || (str_eq role "viewer" || str_eq role "auditor"))

-- GetEffectiveRole
unfoldable pub get_effective_role : ℕ → Context → String
get_effective_role now ctx =
    if not (str_eq ctx.role role_none) then ctx.role else (elim (valid_session now ctx.session) [
      | some s ↦ s.role
      | none ↦ elim (valid_key now ctx.api_key) [
        | some key ↦ get_role_from_scopes key.scopes
        | none ↦ role_none
      ]
    ])

-- RequirePermission; `false` is ErrInsufficientScopes.
unfoldable pub require_permission : Provider → ℕ → Context → String → String → Bool
require_permission provider now ctx resource action =
    if not (str_eq ctx.role role_none)
    then has_role_permission provider ctx.role resource action
    else (elim (valid_session now ctx.session) [
      | some s ↦ has_role_permission provider s.role resource action
      | none ↦ elim (valid_key now ctx.api_key) [
        | some key ↦ scopes_allow_permission key.scopes resource action
        | none ↦ has_role_permission provider role_none resource action
      ]
    ])
