-- ===== src/Auth/Roles/Effective.antt =====
-- The two ways of internal/auth to check a permission agree, and the role of several scopes is the
-- highest of theirs.
use Prim.Native.Nat.{max}
use cloudpam.Base.{
  ℕ, ◌≡◌, refl, sym, ap, ◌∙◌, arith, inl, inr, Bool-cases, Option-cases, String, Bool, true, false,
  ◌||◌, List, [], ◌∷◌, str_eq,
}
use cloudpam.Auth.Text.{trim_space, split_colon, strip_wildcard}
use cloudpam.Auth.Identity.{Context}
use cloudpam.Auth.Rbac.{
  role_none, Provider, has_role_permission, has_permission, valid_session, valid_key,
}
use cloudpam.Auth.Roles.{
  Flags, no_flags, is_work_resource, flag_wildcard, flag_action, flag_scope, flag_scopes,
  role_of_flags, get_role_from_scopes, role_level, get_effective_role, require_permission,
}

-- RequirePermission allows exactly what HasPermissionContext allows for GetEffectiveRole, in every
-- context and with every role store.
pub require_permission-has_permission :
    (provider : Provider) (now : ℕ) (ctx : Context) (resource action : String)
    → require_permission provider now ctx resource action
      ≡ has_permission provider now ctx (get_effective_role now ctx) resource action
unfolding require_permission has_permission get_effective_role
require_permission-has_permission provider now ctx resource action =
    let allowed = λ (r : String). has_role_permission provider r resource action in
    elim (Bool-cases (str_eq ctx.role role_none)) [
      | inr e ↦ rw (require_permission, has_permission, get_effective_role, e) refl
      | inl e ↦ elim (Option-cases (valid_session now ctx.session)) [
        | inr (s, n) ↦
            let role : get_effective_role now ctx ≡ s.role = rw (get_effective_role, e, n) refl in
            rw (require_permission, has_permission, e, n) (ap allowed (sym role))
        | inl n ↦ elim (Option-cases (valid_key now ctx.api_key)) [
          | inr (k, m) ↦ rw (require_permission, has_permission, get_effective_role, e, n, m) refl
          | inl m ↦
              let role : get_effective_role now ctx ≡ role_none =
                rw (get_effective_role, e, n, m) refl in
              rw (require_permission, has_permission, e, n, m) (ap allowed (sym role))
        ]
      ]
    ]

-- Flags that either side has.
either : Flags → Flags → Flags
either f g = record {
  has_admin = f.has_admin || g.has_admin;
  has_write = f.has_write || g.has_write;
  has_read = f.has_read || g.has_read;
  has_audit = f.has_audit || g.has_audit;
}

flag_wildcard-either :
    (f : Flags) (r : String) → flag_wildcard f r ≡ either f (flag_wildcard no_flags r)
unfolding flag_wildcard either
flag_wildcard-either f r = elim (Bool-cases (is_work_resource r)) [
  | inl e ↦ rw (flag_wildcard, e) (ground arith)
  | inr e ↦ elim (Bool-cases (str_eq r "audit")) [
    | inl g ↦ rw (flag_wildcard, e, g) (ground arith)
    | inr g ↦ rw (flag_wildcard, e, g) (ground arith)
  ]
]

flag_action-either :
    (f : Flags) (r a : String) → flag_action f r a ≡ either f (flag_action no_flags r a)
unfolding flag_action either
flag_action-either f r a = elim (Bool-cases (is_work_resource r)) [
  | inl e ↦ elim (Bool-cases (str_eq a "write")) [
    | inl g ↦ rw (flag_action, e, g) (ground arith)
    | inr g ↦ elim (Bool-cases (str_eq a "read")) [
      | inl h ↦ rw (flag_action, e, g, h) (ground arith)
      | inr h ↦ rw (flag_action, e, g, h) (ground arith)
    ]
  ]
  | inr e ↦ elim (Bool-cases (str_eq r "audit")) [
    | inl g ↦ elim (Bool-cases (str_eq a "read")) [
      | inl h ↦ rw (flag_action, e, g, h) (ground arith)
      | inr h ↦ rw (flag_action, e, g, h) (ground arith)
    ]
    | inr g ↦ rw (flag_action, e, g) (ground arith)
  ]
]

flag_scope-either :
    (f : Flags) (scope : String) → flag_scope f scope ≡ either f (flag_scope no_flags scope)
unfolding flag_scope
flag_scope-either f scope = elim (Bool-cases (str_eq (trim_space scope) "*")) [
  | inl e ↦ rw (flag_scope, e) (unfold either in ground arith)
  | inr e ↦ elim (Option-cases (strip_wildcard (trim_space scope))) [
    | inr (r, n) ↦ rw (flag_scope, e, n) (flag_wildcard-either f r)
    | inl n ↦ elim (Option-cases (split_colon (trim_space scope))) [
      | inl m ↦ rw (flag_scope, e, n, m) (unfold either in ground arith)
      | inr ((r, a), m) ↦ rw (flag_scope, e, n, m) (flag_action-either f r a)
    ]
  ]
]

or_assoc : (b c d : Bool) → ((b || c) || d) ≡ (b || (c || d))
or_assoc b c d = ground arith

either_assoc : (f g h : Flags) → either (either f g) h ≡ either f (either g h)
unfolding either
either_assoc f g h =
    rw
      (
        or_assoc f.has_admin g.has_admin h.has_admin,
        or_assoc f.has_write g.has_write h.has_write,
        or_assoc f.has_read g.has_read h.has_read,
        or_assoc f.has_audit g.has_audit h.has_audit,
      )
      refl

flag_scopes-either :
    (f : Flags) (scopes : List String)
    → flag_scopes f scopes ≡ either f (flag_scopes no_flags scopes)
unfolding flag_scopes
flag_scopes-either f [] = unfold either in ground arith
flag_scopes-either f (s ∷ scopes) =
    flag_scopes-either (flag_scope f s) scopes
    ∙ ap (λ g. either g (flag_scopes no_flags scopes)) (flag_scope-either f s)
    ∙ either_assoc f (flag_scope no_flags s) (flag_scopes no_flags scopes)
    ∙ ap (either f) (sym (flag_scopes-either (flag_scope no_flags s) scopes))

-- The level without the detour by the role's name.
level_of : Bool → Bool → Bool → Bool → ℕ
level_of true write read audit = 4
level_of false true read audit = 3
level_of false false true audit = 2
level_of false false false true = 1
level_of false false false false = 0

role_level-flags :
    (admin write read audit : Bool)
    → role_level (
        role_of_flags
          (record { has_admin = admin; has_write = write; has_read = read; has_audit = audit }))
      ≡ level_of admin write read audit
unfolding role_level role_of_flags level_of
role_level-flags true write read audit = refl
role_level-flags false true read audit = refl
role_level-flags false false true audit = refl
role_level-flags false false false true = refl
role_level-flags false false false false = refl

level_of-max :
    (a b c d a' b' c' d' : Bool)
    → level_of (a || a') (b || b') (c || c') (d || d')
      ≡ max (level_of a b c d) (level_of a' b' c' d')
unfolding level_of
level_of-max a b c d a' b' c' d' = ground arith

level-either :
    (f g : Flags)
    → role_level (role_of_flags (either f g))
      ≡ max (role_level (role_of_flags f)) (role_level (role_of_flags g))
unfolding either
level-either f g =
    rw
      (
        role_level-flags f.has_admin f.has_write f.has_read f.has_audit,
        role_level-flags g.has_admin g.has_write g.has_read g.has_audit,
      )
      (role_level-flags _ _ _ _
        ∙ level_of-max f.has_admin f.has_write f.has_read f.has_audit g.has_admin g.has_write
            g.has_read g.has_audit)

-- The level of the role that a list of scopes stands for is the highest of the levels of its
-- scopes, so no scope lowers it.
pub get_role_from_scopes-max :
    (scope : String) (scopes : List String)
    → role_level (get_role_from_scopes (scope ∷ scopes))
      ≡ max
          (role_level (get_role_from_scopes (scope ∷ [])))
          (role_level (get_role_from_scopes scopes))
unfolding get_role_from_scopes flag_scopes
get_role_from_scopes-max scope scopes =
    ap (λ f. role_level (role_of_flags f)) (flag_scopes-either (flag_scope no_flags scope) scopes)
    ∙ level-either (flag_scope no_flags scope) (flag_scopes no_flags scopes)
