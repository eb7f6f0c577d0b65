-- ===== src/Auth/Sessions.antt =====
-- MemorySessionStore of internal/auth/session.go: the sessions by id, and the index from a user to
-- the ids of the user's sessions.
pub mod Index
pub mod Logout
pub mod Steps
use cloudpam.Base.{
  ℕ, ◌+◌, String, Bool, true, false, not, ◌&&◌, ◌||◌, Option, some, none, List, [], ◌∷◌, map,
  length, ltb, str_eq, if◌then◌else◌,
}
use cloudpam.Base.Dict.{Dict, find, set, delete}
use cloudpam.Auth.Identity.{Session, session_is_valid, session_is_expired}

-- map[string]struct{}
abbrev pub Ids : Type 0
Ids = Dict (Unit {0})

pub record SessionStore : Type 0 where
  pub sessions : Dict Session
  pub user_index : Dict Ids

-- NewMemorySessionStore
abbrev pub new_session_store : SessionStore
new_session_store = record { sessions = []; user_index = [] }

pub data SessionError : Type 0 where
  err_session_not_found err_session_expired err_invalid_session : SessionError

-- A result with an error that is nil when there is none.
pub data Outcome {ℓ} (A : Type ℓ) : Type ℓ where
  ok : A → Outcome A
  err : SessionError → Outcome A

abbrev pub or_new : Option (Ids) → Ids
or_new none = []
or_new (some ids) = ids

-- The session's id is added to the user's ids.
abbrev pub index_add : String → String → Dict Ids → Dict Ids
index_add user id index = set index user (set (or_new (find index user)) id tt)

-- Create; `none` is a nil session.
unfoldable pub create : Option Session → SessionStore → Outcome (Unit {0}) × SessionStore
create none s = (err err_invalid_session, s)
create (some session) s =
    if str_eq session.id "" || str_eq session.user_id ""
    then (err err_invalid_session, s)
    else (elim (find s.sessions session.id) [
      | some _ ↦ (err err_invalid_session, s)
      | none ↦ (
        ok tt,
        record {
          sessions = set s.sessions session.id session;
          user_index = index_add session.user_id session.id s.user_index;
        },
      )
    ])

-- Get; a session that is not there is `ok none`.
unfoldable pub get : ℕ → String → SessionStore → Outcome (Option Session)
get now id s = if str_eq id "" then ok none else (elim (find s.sessions id) [
  | none ↦ ok none
  | some session ↦
      if session_is_expired now session then err err_session_expired else ok (some session)
])

-- The removal from the index, which drops a user without ids.
abbrev pub keep_ids : String → Ids → Dict Ids → Dict Ids
keep_ids user [] index = delete index user
keep_ids user (i ∷ ids) index = set index user (i ∷ ids)

unfoldable pub index_remove : String → String → Dict Ids → Dict Ids
index_remove user id index = elim (find index user) [
  | none ↦ index
  | some ids ↦ keep_ids user (delete ids id) index
]

-- Delete
unfoldable pub delete_session : String → SessionStore → Outcome (Unit {0}) × SessionStore
unfolding index_remove
delete_session id s =
    if str_eq id "" then (err err_session_not_found, s) else (elim (find s.sessions id) [
      | none ↦ (err err_session_not_found, s)
      | some session ↦ (
        ok tt,
        record {
          sessions = delete s.sessions id;
          user_index = index_remove session.user_id id s.user_index;
        },
      )
    ])

unfoldable pub delete_ids : Ids → Dict Session → Dict Session
delete_ids [] sessions = sessions
delete_ids ((id, _) ∷ ids) sessions = delete_ids ids (delete sessions id)

-- DeleteByUserID
unfoldable pub delete_by_user : String → SessionStore → SessionStore
unfolding delete_ids
delete_by_user user s = if str_eq user "" then s else (elim (find s.user_index user) [
  | none ↦ s
  | some ids ↦ record {
    sessions = delete_ids ids s.sessions;
    user_index = delete s.user_index user;
  }
])

-- ListByUserID
unfoldable pub valid_of : ℕ → String → Dict Session → List Session
valid_of now user [] = []
valid_of now user ((id, session) ∷ rest) =
    let others = valid_of now user rest in
    if str_eq session.user_id user && session_is_valid now session then session ∷ others else others

abbrev pub list_by_user : ℕ → String → SessionStore → List Session
list_by_user now user s = valid_of now user s.sessions

-- The loop of Cleanup over the sessions, with the store as it shrinks and the count.
unfoldable pub sweep : ℕ → Dict Session → SessionStore → SessionStore × ℕ
unfolding index_remove
sweep now [] s = (s, 0)
sweep now ((id, session) ∷ rest) s =
    if ltb session.expires_at now
    then (let (swept, count) = sweep now rest (record {
      sessions = delete s.sessions id;
      user_index = index_remove session.user_id id s.user_index;
    }) in
        (swept, count + 1))
    else sweep now rest s

-- Cleanup
unfoldable pub cleanup : ℕ → SessionStore → SessionStore × ℕ
unfolding sweep
cleanup now s = sweep now s.sessions s

-- CountByUser
abbrev pub count_by_user : String → SessionStore → ℕ
count_by_user user s = length (or_new (find s.user_index user))
