-- ===== src/Auth/RoleStore/Builtins.antt =====
-- The operations of internal/auth/role_store.go never change a built-in role.
use cloudpam.Base.{
  ℕ, ◌≡◌, ◌⊎◌, refl, ap, ◌∙◌, arith, inl, inr, Bool-cases, Option-cases, eq_iff, String, Bool, true,
  false, none, List, str_eq,
}
use cloudpam.Base.Dict.{find, find-set, find-delete}
use cloudpam.Auth.Catalog.{Permission}
use cloudpam.Auth.Rbac.{RoleDefinition}
use cloudpam.Auth.RoleStore.{
  Roles, Users, Outcome, ok, err, RoleError, is_builtin_role, validate_permissions,
  validate_custom_role_name, role_in_use, normalize_role_name, create_role, update_role,
  delete_role,
}

-- A write at a name that is not built in leaves a built-in role.
other_name :
    (name key : String)
    → is_builtin_role name ≡ true
    → is_builtin_role key ≡ false
    → str_eq key name ≡ false
other_name name key b n = elim (Bool-cases (str_eq key name)) [
  | inl e ↦ absurd (cc (ap is_builtin_role ((eq_iff key name).0 e)))
  | inr e ↦ e
]

Outcome-cases :
    (o : Outcome Bool) → ((e : RoleError) × (o ≡ err e)) ⊎ ((o ≡ ok true) ⊎ (o ≡ ok false))
Outcome-cases (err e) = inl (e, refl)
Outcome-cases (ok true) = inr (inl refl)
Outcome-cases (ok false) = inr (inr refl)

module _ (to_lower : String → String) (name : String) (builtin : is_builtin_role name ≡ true) where
  custom_name : (key : String) → validate_custom_role_name key ≡ none → is_builtin_role key ≡ false
  unfolding validate_custom_role_name
  custom_name key h = elim (Bool-cases (is_builtin_role key)) [
    | inl e ↦ absurd (ground (arith, e))
    | inr e ↦ e
  ]

  create_role-builtin :
      (now : ℕ) (role : RoleDefinition) (roles : Roles)
      → find (create_role to_lower now role roles).1 name ≡ find roles name
  unfolding create_role
  create_role-builtin now role roles =
      let key = normalize_role_name to_lower role.name in
      elim (Option-cases (validate_custom_role_name key)) [
        | inr (e, n) ↦ rw (create_role, n) refl
        | inl n ↦ elim (Bool-cases (validate_permissions role.permissions)) [
          | inr v ↦ rw (create_role, n, v) refl
          | inl v ↦ elim (Option-cases (find roles key)) [
            | inr (old, o) ↦ rw (create_role, n, v, o) refl
            | inl o ↦
                rw (create_role, n, v, o)
                  (find-set roles key name _
                    ∙ rw (other_name name key builtin (custom_name key n)) refl)
          ]
        ]
      ]

  update_role-builtin :
      (now : ℕ) (target description : String) (perms : List Permission) (roles : Roles)
      → find (update_role to_lower now target description perms roles).1 name ≡ find roles name
  unfolding update_role
  update_role-builtin now target description perms roles =
      let key = normalize_role_name to_lower target in
      elim (Bool-cases (is_builtin_role key)) [
        | inl b ↦ rw (update_role, b) refl
        | inr b ↦ elim (Bool-cases (validate_permissions perms)) [
          | inr v ↦ rw (update_role, b, v) refl
          | inl v ↦ elim (Option-cases (find roles key)) [
            | inl o ↦ rw (update_role, b, v, o) refl
            | inr (old, o) ↦
                rw (update_role, b, v, o)
                  (find-set roles key name _ ∙ rw (other_name name key builtin b) refl)
          ]
        ]
      ]

  delete_role-builtin :
      (users : Users) (target : String) (roles : Roles)
      → find (delete_role to_lower users target roles).1 name ≡ find roles name
  unfolding delete_role
  delete_role-builtin users target roles =
      let key = normalize_role_name to_lower target in
      elim (Bool-cases (is_builtin_role key)) [
        | inl b ↦ rw (delete_role, b) refl
        | inr b ↦ elim (Outcome-cases (role_in_use users key)) [
          | inl (e, u) ↦ rw (delete_role, b, u) refl
          | inr (inl u) ↦ rw (delete_role, b, u) refl
          | inr (inr u) ↦ elim (Option-cases (find roles key)) [
            | inl o ↦ rw (delete_role, b, u, o) refl
            | inr (old, o) ↦
                rw (delete_role, b, u, o)
                  (find-delete roles key name ∙ rw (other_name name key builtin b) refl)
          ]
        ]
      ]

  -- CreateRole, UpdateRole and DeleteRole leave the definition of every built-in role as it is,
  -- whatever they are called with.
  pub role_store-builtin :
      (now : ℕ) (role : RoleDefinition) (target description : String) (perms : List Permission)
      (users : Users) (roles : Roles)
      → (find (create_role to_lower now role roles).1 name ≡ find roles name)
        × (find (update_role to_lower now target description perms roles).1 name ≡ find roles name)
        × (find (delete_role to_lower users target roles).1 name ≡ find roles name)
  role_store-builtin now role target description perms users roles = (
    create_role-builtin now role roles,
    update_role-builtin now target description perms roles,
    delete_role-builtin users target roles,
  )
