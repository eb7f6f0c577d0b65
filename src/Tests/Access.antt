-- ===== src/Tests/Access.antt =====
-- The theorems on roles, scopes and sessions, at concrete requests.
use Prim.Native.Nat.{max}
use cloudpam.Base.{◌≡◌, ◌↔◌, refl, arith, true, false, [], ◌∷◌, some, none, All}
use cloudpam.Base.Dict.{find, set}
use cloudpam.Auth.Text.{trim_space, split_colon}
use cloudpam.Auth.Catalog.{permission}
use cloudpam.Auth.Identity.{Session, Context}
use cloudpam.Auth.Rbac.{
  cached, role_permission_cache, permits, has_permission, has_role_permission,
  scope_allowed_by_role, scope_allowed, action_allowed, permissions_from_scopes, RoleDefinition,
  build_cache, cache_permissions,
}
use cloudpam.Auth.Rbac.Cached.{cached-permits}
use cloudpam.Auth.Rbac.Builtin.{scope_allowed_by_role-envelope}
use cloudpam.Auth.Roles.{
  is_valid_role, get_role_from_scopes, role_level, get_effective_role, require_permission,
}
use cloudpam.Auth.Roles.Effective.{require_permission-has_permission, get_role_from_scopes-max}
use cloudpam.Auth.Sessions.{SessionStore, new_session_store, create, delete_by_user}
use cloudpam.Auth.Sessions.Index.{IsIndexed, indexed, create-IsIndexed}
use cloudpam.Auth.Sessions.Logout.{delete_by_user-kept}
use cloudpam.Auth.Sessions.Steps.{Reachable, start, then_step, creates, indexed_iff}
use cloudpam.Auth.RoleStore.{no_users, new_role_store, create_role, update_role, delete_role}
use cloudpam.Auth.RoleStore.Builtins.{role_store-builtin}

abbrev operator_context : Context
operator_context = record { role = "operator"; session = none; api_key = none }

operator_may_write_pools :
    scope_allowed_by_role none 0 operator_context "operator" "pools:write" ≡ true
unfolding scope_allowed_by_role scope_allowed trim_space split_colon action_allowed has_permission
    has_role_permission cached find build_cache set cache_permissions
operator_may_write_pools = refl

scope_allowed_by_role-envelope_example :
    All
      (λ p. has_permission none 0 operator_context "operator" p.resource p.action ≡ true)
      (permissions_from_scopes ("pools:write" ∷ []))
scope_allowed_by_role-envelope_example =
    scope_allowed_by_role-envelope 0 operator_context "operator" refl ("pools:write" ∷ [])
      (operator_may_write_pools, tt)

-- A role of a store that may list pools and not read them.
abbrev lister : RoleDefinition
lister = record {
  id = "lister";
  name = "lister";
  description = "";
  is_builtin = false;
  permissions = permission "pools" "list" ∷ [];
  created_at = 0;
  updated_at = 0;
}

abbrev lister_context : Context
lister_context = record { role = "lister"; session = none; api_key = none }

lister_may_issue_read :
    scope_allowed_by_role (some (λ name. some lister)) 0 lister_context "lister" "pools:read" ≡ true
unfolding scope_allowed_by_role scope_allowed trim_space split_colon action_allowed has_permission
    has_role_permission permits
lister_may_issue_read = refl

lister_may_not_read :
    has_permission (some (λ name. some lister)) 0 lister_context "lister" "pools" "read" ≡ false
unfolding has_permission has_role_permission permits
lister_may_not_read = refl

cached-permits_example : cached role_permission_cache "auditor" "audit" "read" ≡ true
unfolding permits find
cached-permits_example = cached-permits "auditor" "audit" "read"

require_permission-has_permission_example :
    require_permission none 0 operator_context "pools" "create"
    ≡ has_permission none 0 operator_context
        (get_effective_role 0 operator_context)
        "pools"
        "create"
require_permission-has_permission_example =
    require_permission-has_permission none 0 operator_context "pools" "create"

get_role_from_scopes-max_example :
    role_level (get_role_from_scopes ("audit:read" ∷ "pools:write" ∷ []))
    ≡ max
        (role_level (get_role_from_scopes ("audit:read" ∷ [])))
        (role_level (get_role_from_scopes ("pools:write" ∷ [])))
get_role_from_scopes-max_example = get_role_from_scopes-max "audit:read" ("pools:write" ∷ [])

empty-IsIndexed : IsIndexed new_session_store
unfolding indexed find
empty-IsIndexed = record {
  own_id = λ i x l. absurd (ground arith);
  index_of = λ i x l. absurd (ground arith);
  session_of = λ u i l. absurd (ground arith);
}

abbrev login : Session
login = record {
  id = "s1";
  user_id = "alice";
  role = "viewer";
  created_at = 1;
  expires_at = 9;
  metadata = none;
}

abbrev logged_in : SessionStore
logged_in = (create (some login) new_session_store).1

logged_in-Reachable : Reachable logged_in
logged_in-Reachable = then_step new_session_store logged_in start (creates (some login))

indexed_iff_example :
    (indexed logged_in.user_index "alice" "s1" ≡ some tt)
    ↔ ((x : Session) × (find logged_in.sessions "s1" ≡ some x) × (x.user_id ≡ "alice"))
indexed_iff_example = indexed_iff logged_in "alice" "s1" logged_in-Reachable

delete_by_user-kept_example : find (delete_by_user "alice" logged_in).sessions "s1" ≡ none
unfolding create find set
delete_by_user-kept_example =
    delete_by_user-kept "alice" logged_in refl
      (create-IsIndexed (some login) new_session_store empty-IsIndexed) "s1"

role_store-builtin_example :
    (find (create_role (λ s. s) 3 lister new_role_store).1 "admin" ≡ find new_role_store "admin")
    × (find (update_role (λ s. s) 3 "admin" "" [] new_role_store).1 "admin"
        ≡ find new_role_store "admin")
    × (find (delete_role (λ s. s) no_users "admin" new_role_store).1 "admin"
        ≡ find new_role_store "admin")
unfolding is_valid_role
role_store-builtin_example =
    role_store-builtin (λ s. s) "admin" refl 3 lister "admin" "" [] no_users new_role_store
