-- ===== src/Auth/Rbac/Builtin.antt =====
-- The built-in roles of internal/auth/rbac.go, and what API keys their holders may issue.
use cloudpam.Base.{
  ℕ, ◌≡◌, refl, sym, ap, subst, eq_iff, ◌&&◌, not, ◌∙◌, arith, inl, inr, Bool-cases, Option-cases,
  String, Bool, true, false, some, none, List, [], ◌∷◌, str_eq, All, if◌then◌else◌,
}
use cloudpam.Base.Dict.{find}
use cloudpam.Auth.Catalog.{
  Permission, permission_catalog, role_permissions, admin_permissions, operator_permissions,
  viewer_permissions, auditor_permissions,
}
use cloudpam.Auth.Identity.{Context}
use cloudpam.Auth.Rbac.{
  permits, cached, role_permission_cache, role_none, has_role_permission, permissions_from_scopes,
  has_permission, scope_allowed_by_role,
}
use cloudpam.Auth.Rbac.Cached.{cached-permits}
use cloudpam.Auth.Rbac.Envelope.{IsRegular, all_plain, allowed_of-has}

-- The permissions that the tables give a role.
perms_of : String → List Permission
perms_of role = elim (find role_permissions role) [ none ↦ [] | some perms ↦ perms ]

-- What holds of each of the lists holds of every role's.
perms_of-cases :
    (P : List Permission → Type 0) (role : String)
    → P []
    → P admin_permissions
    → P operator_permissions
    → P viewer_permissions
    → P auditor_permissions
    → P (perms_of role)
unfolding perms_of find
perms_of-cases P role n a o v u = elim (Bool-cases (str_eq "admin" role)) [
  | inl e ↦ rw (perms_of, e) a
  | inr e ↦ elim (Bool-cases (str_eq "operator" role)) [
    | inl f ↦ rw (perms_of, e, f) o
    | inr f ↦ elim (Bool-cases (str_eq "viewer" role)) [
      | inl g ↦ rw (perms_of, e, f, g) v
      | inr g ↦ elim (Bool-cases (str_eq "auditor" role)) [
        | inl h ↦ rw (perms_of, e, f, g, h) u
        | inr h ↦ rw (perms_of, e, f, g, h) n
      ]
    ]
  ]
]

cached-perms_of :
    (role resource action : String)
    → cached role_permission_cache role resource action ≡ permits (perms_of role) resource action
unfolding perms_of permits
cached-perms_of role resource action =
    cached-permits role resource action ∙ elim (Option-cases (find role_permissions role)) [
      | inl e ↦ rw (perms_of, e) refl
      | inr (perms, e) ↦ rw (perms_of, e) refl
    ]

-- But for the settings, each permission for the action `a` has one for `b` on the same resource in
-- `full`.
each_has : String → String → List Permission → List Permission → Bool
each_has a b full [] = true
each_has a b full (p ∷ perms) =
    let rest = each_has a b full perms in
    if str_eq p.action a && not (str_eq p.resource "settings")
    then permits full p.resource b && rest
    else rest

module _ (a b resource : String) (other : str_eq resource "settings" ≡ false)
    (full : List Permission) where
  each_has-permits :
      (perms : List Permission)
      → each_has a b full perms ≡ true
      → permits perms resource a ≡ true
      → permits full resource b ≡ true
  unfolding each_has permits
  each_has-permits [] e h = absurd (ground arith)
  each_has-permits (p ∷ perms) e h =
      elim (Bool-cases (str_eq p.resource resource && str_eq p.action a)) [
        | inl f ↦
            let same = (eq_iff p.resource resource).0 (ground arith) in
            let differs : str_eq p.resource "settings" ≡ false =
              subst (λ r. str_eq r "settings" ≡ false) (sym same) other in
            let found : permits full p.resource b ≡ true = ground arith in
            subst (λ r. permits full r b ≡ true) same found
        | inr f ↦ each_has-permits perms (ground arith) (ground arith)
      ]

-- What makes a list of permissions regular.
IsPaired : List Permission → Type 0
IsPaired perms =
    (each_has "read" "list" perms perms ≡ true)
    × (each_has "list" "read" perms perms ≡ true)
    × (permits perms "settings" "create" ≡ false)
    × (permits perms "settings" "list" ≡ false)

perms_of-IsPaired : (role : String) → IsPaired (perms_of role)
unfolding IsPaired permits each_has
perms_of-IsPaired role =
    perms_of-cases (λ perms. IsPaired perms) role (refl, refl, refl, refl) (refl, refl, refl, refl)
      (refl, refl, refl, refl) (refl, refl, refl, refl) (refl, refl, refl, refl)

same_truth : (b c : Bool) → (b ≡ true → c ≡ true) → (c ≡ true → b ≡ true) → b ≡ c
same_truth b c f g = ground arith

read-list :
    (role resource : String)
    → str_eq resource "settings" ≡ false
    → permits (perms_of role) resource "read" ≡ permits (perms_of role) resource "list"
unfolding IsPaired
read-list role resource other =
    let perms = perms_of role in
    let pair = perms_of-IsPaired role in
    same_truth (permits perms resource "read") (permits perms resource "list")
      (each_has-permits "read" "list" resource other perms perms pair.0)
      (each_has-permits "list" "read" resource other perms perms pair.1)

module _ (now : ℕ) (ctx : Context) (role : String)
    (explicit : str_eq ctx.role role_none ≡ false) where
  held : String → String → Bool
  held resource action = has_permission none now ctx role resource action

  held-permits :
      (resource action : String)
      → held resource action
        ≡ (if str_eq role role_none then false else permits (perms_of role) resource action)
  unfolding held has_permission has_role_permission
  held-permits resource action = ground (arith, explicit, cached-perms_of role resource action)

  held-IsRegular : IsRegular held
  unfolding IsPaired
  held-IsRegular =
      let pair = perms_of-IsPaired role in
      record {
        paired = λ resource other.
            held-permits resource "read"
            ∙ ap (λ t. if str_eq role role_none then false else t) (read-list role resource other)
            ∙ sym (held-permits resource "list");
        no_create = ground (arith, held-permits "settings" "create");
        no_list = ground (arith, held-permits "settings" "list");
      }

  -- Where permissions go by the built-in roles (an explicit role in the context, no role store):
  -- if each scope passes ScopeAllowedByRolePermissions for the caller's role, the caller has every
  -- permission that an API key with these scopes is given.
  pub scope_allowed_by_role-envelope :
      (scopes : List String)
      → All (λ s. scope_allowed_by_role none now ctx role s ≡ true) scopes
      → All
          (λ p. has_permission none now ctx role p.resource p.action ≡ true)
          (permissions_from_scopes scopes)
  unfolding held scope_allowed_by_role all_plain
  scope_allowed_by_role-envelope scopes h =
      allowed_of-has held held-IsRegular permission_catalog scopes refl (λ c. c) h
