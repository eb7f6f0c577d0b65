-- ===== src/Auth/Users.antt =====
-- MemoryUserStore of internal/auth/user_store.go: users by id, and the index from a username to the
-- id. Each operation runs under the store's lock.
pub mod Index
pub mod Rewrites
pub mod Steps
use cloudpam.Base.{
  String, ℕ, Bool, true, false, ◌&&◌, ◌||◌, Option, some, none, List, [], ◌∷◌, str_eq,
  if◌then◌else◌,
}
use cloudpam.Base.Dict.{Dict, find, set, delete}
use cloudpam.Auth.RoleStore.{User}

pub record UserStore : Type 0 where
  pub users : Dict User
  pub username_index : Dict String

-- NewMemoryUserStore
abbrev pub new_user_store : UserStore
new_user_store = record { users = []; username_index = [] }

-- ErrInvalidSession (which the store reuses), ErrUserExists, ErrUserNotFound
pub data UserError : Type 0 where
  err_invalid err_user_exists err_user_not_found : UserError

-- An error that is nil when there is none.
abbrev pub Failure : Type 0
Failure = Option UserError

-- Create; `none` is a nil user.
unfoldable pub create : Option User → UserStore → Failure × UserStore
create none s = (some err_invalid, s)
create (some user) s =
    if str_eq user.id "" || str_eq user.username ""
    then (some err_invalid, s)
    else (elim (find s.users user.id) [
      | some _ ↦ (some err_user_exists, s)
      | none ↦ elim (find s.username_index user.username) [
        | some _ ↦ (some err_user_exists, s)
        | none ↦ (
          none,
          record {
            users = set s.users user.id user;
            username_index = set s.username_index user.username user.id;
          },
        )
      ]
    ])

-- GetByID
unfoldable pub get_by_id : String → UserStore → Option User
get_by_id id s = if str_eq id "" then none else find s.users id

-- GetByUsername
unfoldable pub get_by_username : String → UserStore → Option User
get_by_username username s =
    if str_eq username ""
    then none
    else (elim (find s.username_index username) [ none ↦ none | some id ↦ find s.users id ])

-- List, which drops the password hashes
unfoldable pub list_users : Dict User → List User
list_users [] = []
list_users ((id, u) ∷ rest) = record u { password_hash = [] } ∷ list_users rest

-- The part of Update that moves the username in the index; `none` if it is taken.
unfoldable pub move_username : User → User → Dict String → Option (Dict String)
move_username existing user index =
    if str_eq existing.username user.username
    then some index
    else (elim (find index user.username) [
      | some _ ↦ none
      | none ↦ some (set (delete index existing.username) user.username user.id)
    ])

-- Update
unfoldable pub update : Option User → UserStore → Failure × UserStore
unfolding move_username
update none s = (some err_user_not_found, s)
update (some user) s =
    if str_eq user.id "" then (some err_user_not_found, s) else (elim (find s.users user.id) [
      | none ↦ (some err_user_not_found, s)
      | some existing ↦ elim (move_username existing user s.username_index) [
        | none ↦ (some err_user_exists, s)
        | some index ↦ (none, record { users = set s.users user.id user; username_index = index })
      ]
    ])

-- Delete
unfoldable pub delete_user : String → UserStore → Failure × UserStore
delete_user id s = if str_eq id "" then (some err_user_not_found, s) else (elim (find s.users id) [
  | none ↦ (some err_user_not_found, s)
  | some user ↦ (
    none,
    record { users = delete s.users id; username_index = delete s.username_index user.username },
  )
])

-- The loop of GetByOIDCIdentity
unfoldable pub find_identity : String → String → Dict User → Option User
find_identity issuer subject [] = none
find_identity issuer subject ((id, u) ∷ rest) =
    if str_eq u.oidc_issuer issuer && str_eq u.oidc_subject subject
    then some u
    else find_identity issuer subject rest

-- GetByOIDCIdentity
unfoldable pub get_by_oidc_identity : String → String → UserStore → Option User
unfolding find_identity
get_by_oidc_identity issuer subject s =
    if str_eq issuer "" || str_eq subject "" then none else find_identity issuer subject s.users

-- What UpdateLastLogin writes: the failures and the lockout are cleared.
abbrev pub logged_in : ℕ → User → User
logged_in t user = record user {
  last_login_at = some t;
  failed_login_attempts = 0;
  last_failed_login_at = none;
  locked_at = none;
  lockout_until = none;
}

-- UpdateLastLogin
unfoldable pub update_last_login : ℕ → String → UserStore → Failure × UserStore
update_last_login t id s = elim (find s.users id) [
  | none ↦ (some err_user_not_found, s)
  | some user ↦ (none, record s { users = set s.users id (logged_in t user) })
]
