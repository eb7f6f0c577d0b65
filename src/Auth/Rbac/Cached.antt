-- ===== src/Auth/Rbac/Cached.antt =====
-- The nested lookup table of internal/auth/rbac.go answers as the table that it is built from.
use cloudpam.Base.{
  ◌≡◌, refl, sym, ◌∙◌, ap, arith, inl, inr, Option-cases, Bool-cases, String, Bool, true, false,
  ◌&&◌, ◌||◌, some, none, List, [], ◌∷◌, str_eq, eq_iff,
}
use cloudpam.Base.Dict.{Dict, find, set, find-set}
use cloudpam.Auth.Catalog.{
  Permission, role_permissions, admin_permissions, operator_permissions, viewer_permissions,
  auditor_permissions,
}
use cloudpam.Auth.Rbac.{
  permits, or_empty, cache_permissions, build_cache, role_permission_cache, allowed, cached,
}

-- The lookups in one role's table.
entry : Dict (Dict Bool) → String → String → Bool
entry d resource action = elim (find d resource) [
  | none ↦ false
  | some action_perms ↦ allowed (find action_perms action)
]

entry-set :
    (d : Dict (Dict Bool)) (k a resource action : String)
    → entry (set d k (set (or_empty (find d k)) a true)) resource action
      ≡ (str_eq k resource && str_eq a action || entry d resource action)
unfolding entry find
entry-set d k a resource action =
    let outer = find-set d k resource (set (or_empty (find d k)) a true) in
    let inner = find-set (or_empty (find d k)) a action true in
    elim (Bool-cases (str_eq k resource)) [
      | inl e ↦
          let same : k ≡ resource = (eq_iff k resource).0 e in
          elim (Option-cases (find d k)) [
            | inl n ↦
                let m : find d resource ≡ none = ap (find d) (sym same) ∙ n in
                rw (entry, outer, e, n, m) (ground (arith, inner))
            | inr (t, n) ↦
                let m : find d resource ≡ some t = ap (find d) (sym same) ∙ n in
                rw (entry, outer, e, n, m) (ground (arith, inner))
          ]
      | inr e ↦ rw (entry, outer, e) refl
    ]

entry-cache_permissions :
    (d : Dict (Dict Bool)) (perms : List Permission) (resource action : String)
    → entry (cache_permissions d perms) resource action
      ≡ (entry d resource action || permits perms resource action)
unfolding cache_permissions permits
entry-cache_permissions d [] resource action = ground arith
entry-cache_permissions d (perm ∷ perms) resource action =
    let d' = set d perm.resource (set (or_empty (find d perm.resource)) perm.action true) in
    let rest = entry-cache_permissions d' perms resource action in
    let first = entry-set d perm.resource perm.action resource action in ground (arith, rest, first)

entry-empty :
    (perms : List Permission) (resource action : String)
    → entry (cache_permissions [] perms) resource action ≡ permits perms resource action
unfolding entry find
entry-empty perms resource action = entry-cache_permissions [] perms resource action

-- For every role, resource and action the precomputed lookup table answers as a search of the
-- role's list in RolePermissions does, and denies a role that has no list.
pub cached-permits :
    (role resource action : String)
    → cached role_permission_cache role resource action ≡ (elim (find role_permissions role) [
      | none ↦ false
      | some perms ↦ permits perms resource action
    ])
unfolding cached entry build_cache find set
cached-permits role resource action =
    let admin = entry-empty admin_permissions resource action in
    let operator = entry-empty operator_permissions resource action in
    let viewer = entry-empty viewer_permissions resource action in
    let auditor = entry-empty auditor_permissions resource action in
    elim (Bool-cases (str_eq "admin" role)) [
      | inl e ↦ rw (cached, e) admin
      | inr e ↦ elim (Bool-cases (str_eq "operator" role)) [
        | inl f ↦ rw (cached, e, f) operator
        | inr f ↦ elim (Bool-cases (str_eq "viewer" role)) [
          | inl g ↦ rw (cached, e, f, g) viewer
          | inr g ↦ elim (Bool-cases (str_eq "auditor" role)) [
            | inl h ↦ rw (cached, e, f, g, h) auditor
            | inr h ↦ rw (cached, e, f, g, h) refl
          ]
        ]
      ]
    ]
