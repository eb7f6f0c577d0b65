-- ===== src/Auth/Rbac/Envelope.antt =====
-- What a caller may put into the scopes of an API key (internal/auth/rbac.go).
use cloudpam.Base.{
  ◌≡◌, refl, sym, ◌∙◌, subst, arith, inl, inr, Option-cases, Bool-cases, String, Bool, true, false,
  not, ◌&&◌, ◌||◌, List, [], ◌∷◌, str_eq, eq_iff, if◌then◌else◌, All,
}
use cloudpam.Auth.Text.{trim_space, split_colon}
use cloudpam.Auth.Catalog.{PermissionDefinition, permission_catalog}
use cloudpam.Auth.Rbac.{
  action_allows, action_allowed, scope_resource, scope_allows_permission, scopes_allow_permission,
  allowed_of, has_all, scope_allowed,
}

-- A definition of one of the five common actions, or one to read or write the settings.
abbrev is_plain : PermissionDefinition → Bool
is_plain d =
    if str_eq d.resource "settings"
    then str_eq d.action "read" || str_eq d.action "write"
    else str_eq d.action "create"
      || (str_eq d.action "read"
          || (str_eq d.action "update" || (str_eq d.action "delete" || str_eq d.action "list")))

-- What the check relies on: but for the settings, who may read may list and the other way round;
-- nobody has a permission to create or to list settings.
pub record IsRegular (has : String → String → Bool) : Type 0 where
  pub paired :
      (resource : String)
      → str_eq resource "settings" ≡ false
      → has resource "read" ≡ has resource "list"
  pub no_create : has "settings" "create" ≡ false
  pub no_list : has "settings" "list" ≡ false

unfoldable pub all_plain : List PermissionDefinition → Bool
all_plain [] = true
all_plain (d ∷ defs) = is_plain d && all_plain defs

guard_passed : (b c : Bool) → (if not b then false else c) ≡ true → (b ≡ true) × (c ≡ true)
guard_passed b c h = ground arith

module _ (has : String → String → Bool) (regular : IsRegular has) where
  -- The five permissions on a resource give every definition's on it.
  five-has :
      (d : PermissionDefinition)
      → is_plain d ≡ true
      → has d.resource "create" ≡ true
      → has d.resource "read" ≡ true
      → has d.resource "update" ≡ true
      → has d.resource "delete" ≡ true
      → has d.resource d.action ≡ true
  five-has d p c r u x = elim (Bool-cases (str_eq d.resource "settings")) [
    | inl e ↦
        let same = (eq_iff d.resource "settings").0 e in
        absurd (cc (regular.no_create, subst (λ t. has t "create" ≡ true) same c))
    | inr e ↦
        let l = sym (regular.paired d.resource e) ∙ r in
        ground (
          arith,
          eq_iff d.action "create",
          eq_iff d.action "read",
          eq_iff d.action "update",
          eq_iff d.action "delete",
          eq_iff d.action "list",
        )
  ]

  -- A scope to read.
  read-has :
      (d : PermissionDefinition)
      → is_plain d ≡ true
      → (has d.resource "read" || has d.resource "list") ≡ true
      → (str_eq d.action "read" || str_eq d.action "list") ≡ true
      → has d.resource d.action ≡ true
  read-has d p h a = elim (Bool-cases (str_eq d.resource "settings")) [
    | inl e ↦
        let same = (eq_iff d.resource "settings").0 e in
        let none_listed : has d.resource "list" ≡ false =
          subst (λ t. has t "list" ≡ false) (sym same) regular.no_list in
        let q : (str_eq d.action "read" || str_eq d.action "write") ≡ true = ground arith in
        elim (Bool-cases (str_eq d.action "list")) [
          | inl f ↦
              let listed = (eq_iff d.action "list").0 f in
              absurd (cc (subst (λ t. (str_eq t "read" || str_eq t "write") ≡ true) listed q))
          | inr f ↦ ground (arith, eq_iff d.action "read")
        ]
    | inr e ↦
        let pair = regular.paired d.resource e in
        ground (arith, eq_iff d.action "read", eq_iff d.action "list")
  ]

  -- The part behind the colon.
  action-has :
      (d : PermissionDefinition) (action : String)
      → is_plain d ≡ true
      → action_allowed has d.resource action ≡ true
      → action_allows action d.action ≡ true
      → has d.resource d.action ≡ true
  unfolding action_allows action_allowed
  action-has d action p h a =
      let five = five-has d p in
      elim (Bool-cases (str_eq action "*")) [
        | inl e ↦
            let star : action ≡ "*" = (eq_iff action "*").0 e in
            let h' = subst (λ t. action_allowed has d.resource t ≡ true) star h in ground arith
        | inr e ↦ elim (Bool-cases (str_eq action "read")) [
          | inl f ↦ read-has d p (ground arith) (ground arith)
          | inr f ↦ elim (Bool-cases (str_eq action "write")) [
            | inl g ↦ ground arith
            | inr g ↦ ground (arith, eq_iff action d.action)
          ]
        ]
      ]

  -- One scope and one definition.
  scope-has :
      (scope : String) (d : PermissionDefinition)
      → is_plain d ≡ true
      → (has_all has permission_catalog ≡ true → has d.resource d.action ≡ true)
      → scope_allowed has scope ≡ true
      → scope_allows_permission scope d.resource d.action ≡ true
      → has d.resource d.action ≡ true
  unfolding scope_allowed scope_allows_permission
  scope-has scope d p all h a = elim (Bool-cases (str_eq (trim_space scope) "*")) [
    | inl e ↦ ground arith
    | inr e ↦ elim (Option-cases (split_colon (trim_space scope))) [
      | inl n ↦ absurd (ground arith)
      | inr ((left, action), n) ↦
          let h' : scope_allowed has scope ≡ action_allowed has (scope_resource left) action =
            rw (scope_allowed, e, n) refl in
          let a' : scope_allows_permission scope d.resource d.action ≡ (
              if not (str_eq (scope_resource left) d.resource)
              then false
              else action_allows action d.action) =
            rw (scope_allows_permission, e, n) refl in
          let (same, granted) =
            guard_passed (str_eq (scope_resource left) d.resource) (action_allows action d.action)
              (sym a' ∙ a) in
          let s = (eq_iff (scope_resource left) d.resource).0 same in
          action-has d action p (subst (λ r. action_allowed has r action ≡ true) s (sym h' ∙ h))
            granted
    ]
  ]

  scopes-has :
      (scopes : List String) (d : PermissionDefinition)
      → is_plain d ≡ true
      → (has_all has permission_catalog ≡ true → has d.resource d.action ≡ true)
      → All (λ s. scope_allowed has s ≡ true) scopes
      → scopes_allow_permission scopes d.resource d.action ≡ true
      → has d.resource d.action ≡ true
  unfolding scopes_allow_permission
  scopes-has [] d p all h a = absurd (ground arith)
  scopes-has (s ∷ scopes) d p all h a =
      elim (Bool-cases (scope_allows_permission s d.resource d.action)) [
        | inl e ↦ scope-has s d p all h.0 e
        | inr e ↦ scopes-has scopes d p all h.1 (ground arith)
      ]

  -- The permissions of the scopes that are in a part of the catalog.
  pub allowed_of-has :
      (defs : List PermissionDefinition) (scopes : List String)
      → all_plain defs ≡ true
      → (has_all has permission_catalog ≡ true → has_all has defs ≡ true)
      → All (λ s. scope_allowed has s ≡ true) scopes
      → All (λ p. has p.resource p.action ≡ true) (allowed_of defs scopes)
  unfolding allowed_of has_all all_plain
  allowed_of-has [] scopes p all h = tt
  allowed_of-has (d ∷ defs) scopes p all h =
      let rest = allowed_of-has defs scopes (ground arith) (λ c. let t = all c in ground arith) h in
      elim (Bool-cases (scopes_allow_permission scopes d.resource d.action)) [
        | inl e ↦
            rw e (scopes-has scopes d (ground arith) (λ c. let t = all c in ground arith) h e, rest)
        | inr e ↦ rw e rest
      ]
