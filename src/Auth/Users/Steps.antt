-- ===== src/Auth/Users/Steps.antt =====
-- The user store of internal/auth/user_store.go as a state machine, and the lookup by username in
-- every store that it reaches.
use cloudpam.Base.{
  ℕ, ◌≡◌, ◌↔◌, sym, ap, ◌∙◌, subst, arith, inl, inr, Option-cases, String, false, Option, some,
  str_eq,
}
use cloudpam.Base.Dict.{find}
use cloudpam.Auth.RoleStore.{User}
use cloudpam.Auth.Users.{
  UserStore, new_user_store, create, get_by_username, update, delete_user, update_last_login,
}
use cloudpam.Auth.Users.Index.{IsIndexed, create-IsIndexed, delete_user-IsIndexed}
use cloudpam.Auth.Users.Rewrites.{update-IsIndexed, update_last_login-IsIndexed}

pub data Step (s : UserStore) : UserStore → Type 0 where
  creates : (user : Option User) → Step s (create user s).1
  updates : (user : Option User) → Step s (update user s).1
  deletes : (id : String) → Step s (delete_user id s).1
  logs_in : (t : ℕ) (id : String) → Step s (update_last_login t id s).1

pub data Reachable : UserStore → Type 0 where
  start : Reachable new_user_store
  then_step : (s t : UserStore) → Reachable s → Step s t → Reachable t

new_user_store-IsIndexed : IsIndexed new_user_store
unfolding find
new_user_store-IsIndexed = record {
  own_id = λ i u l. absurd (ground arith);
  index_of = λ i u l. absurd (ground arith);
  user_of = λ n i l. absurd (ground arith);
}

Step-IsIndexed : (s t : UserStore) → Step s t → IsIndexed s → IsIndexed t
Step-IsIndexed s t (creates user) h = create-IsIndexed user s h
Step-IsIndexed s t (updates user) h = update-IsIndexed user s h
Step-IsIndexed s t (deletes id) h = delete_user-IsIndexed id s h
Step-IsIndexed s t (logs_in now id) h = update_last_login-IsIndexed now id s h

Reachable-IsIndexed : (s : UserStore) → Reachable s → IsIndexed s
Reachable-IsIndexed s start = new_user_store-IsIndexed
Reachable-IsIndexed s (then_step before _ r t) =
    Step-IsIndexed before s t (Reachable-IsIndexed before r)

-- A stored user of this name.
abbrev pub Named : String → UserStore → User → Type 0
Named name s u = (i : String) × (find s.users i ≡ some u) × (u.username ≡ name)

-- In every store that creations, updates, deletions and logins reach from the empty one,
-- `GetByUsername` of a name that is not empty finds exactly the stored user of that name.
pub get_by_username_iff :
    (s : UserStore) (name : String)
    → Reachable s
    → str_eq name "" ≡ false
    → (u : User) → (get_by_username name s ≡ some u) ↔ Named name s u
unfolding get_by_username
get_by_username_iff s name r named u =
    let h = Reachable-IsIndexed s r in
    (
      λ e. elim (Option-cases (find s.username_index name)) [
        | inl n ↦ absurd (ground arith)
        | inr (i, n) ↦
            let (v, found, owner) = h.user_of name i n in
            let this : v ≡ u = ground arith in
            (i, found ∙ ap some this, sym (ap (λ y. y.username) this) ∙ owner)
      ],
      λ (i, found, owner).
          let n = subst (λ k. find s.username_index k ≡ some i) owner (h.index_of i u found) in
          rw (get_by_username, named, n) found,
    )
