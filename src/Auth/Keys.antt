-- ===== src/Auth/Keys.antt =====
-- API keys: the scopes that a key has (internal/auth/apikey.go), what a request needs of them
-- (internal/auth/context.go), and MemoryKeyStore of internal/auth/store.go: keys by id, and the
-- index from a prefix to the id.
pub mod Index
pub mod Revoked
use Prim.Native.String.{◌++◌}
use text.Mathlib.Text.{starts_with}
use cloudpam.Base.{
  String, ℕ, Bool, true, false, ◌&&◌, ◌||◌, not, Option, some, none, List, [], ◌∷◌, str_eq,
  if◌then◌else◌,
}
use cloudpam.Base.Dict.{Dict, find, set, delete}
use cloudpam.Domain.{one_of}
use cloudpam.Auth.Text.{strip_wildcard}
use cloudpam.Auth.Identity.{ApiKey, Context}

-- ValidAPIKeyScopes
abbrev pub valid_api_key_scopes : List String
valid_api_key_scopes =
    "pools:read" ∷ "pools:write" ∷ "accounts:read" ∷ "accounts:write" ∷ "audit:read" ∷ "keys:read"
    ∷ "keys:write" ∷ "discovery:read" ∷ "discovery:write" ∷ "*" ∷ []

-- IsValidAPIKeyScope
unfoldable pub is_valid_api_key_scope : String → Bool
unfolding one_of
is_valid_api_key_scope scope = one_of scope valid_api_key_scopes

-- A scope that ends in ":*" covers what starts with the part before the star.
abbrev pub covered_by : Option String → String → Bool
covered_by none scope = false
covered_by (some resource) scope = starts_with scope (resource ++ ":")

-- The loop of HasScope
unfoldable pub has_scope_in : List String → String → Bool
has_scope_in [] scope = false
has_scope_in (s ∷ scopes) scope =
    if str_eq s scope || (str_eq s "*" || covered_by (strip_wildcard s) scope)
    then true
    else has_scope_in scopes scope

-- APIKey.HasScope
abbrev pub has_scope : ApiKey → String → Bool
has_scope k scope = has_scope_in k.scopes scope

-- APIKey.HasAnyScope
unfoldable pub has_any_scope : ApiKey → List String → Bool
has_any_scope k [] = false
has_any_scope k (scope ∷ scopes) = if has_scope k scope then true else has_any_scope k scopes

-- ErrKeyNotFound, ErrInvalidKeyFormat, ErrInsufficientScopes
pub data KeyError : Type 0 where
  err_key_not_found err_invalid_key_format err_insufficient_scopes : KeyError

-- RequireScope; `none` is no error.
unfoldable pub require_scope : Context → String → Option KeyError
require_scope ctx scope = elim ctx.api_key [
  | none ↦ some err_key_not_found
  | some key ↦ if not (has_scope key scope) then some err_insufficient_scopes else none
]

-- RequireAnyScope
unfoldable pub require_any_scope : Context → List String → Option KeyError
unfolding has_any_scope
require_any_scope ctx scopes = elim ctx.api_key [
  | none ↦ some err_key_not_found
  | some key ↦ if not (has_any_scope key scopes) then some err_insufficient_scopes else none
]

pub record KeyStore : Type 0 where
  pub keys : Dict ApiKey
  pub prefix_index : Dict String

-- NewMemoryKeyStore
abbrev pub new_key_store : KeyStore
new_key_store = record { keys = []; prefix_index = [] }

-- Create; `none` is a nil key. The id is not looked up.
unfoldable pub create : Option ApiKey → KeyStore → Option KeyError × KeyStore
create none s = (some err_key_not_found, s)
create (some key) s = elim (find s.prefix_index key.prefix) [
  | some _ ↦ (some err_invalid_key_format, s)
  | none ↦ (
    none,
    record { keys = set s.keys key.id key; prefix_index = set s.prefix_index key.prefix key.id },
  )
]

-- GetByPrefix
unfoldable pub get_by_prefix : String → KeyStore → Option ApiKey
get_by_prefix prefix s = elim (find s.prefix_index prefix) [
  | none ↦ none
  | some id ↦ find s.keys id
]

-- GetByID
abbrev pub get_by_id : String → KeyStore → Option ApiKey
get_by_id id s = find s.keys id

-- A key as it is listed, without hash and salt.
abbrev pub listed : ApiKey → ApiKey
listed key = record key { hash = []; salt = [] }

-- List
unfoldable pub list_keys : Dict ApiKey → List ApiKey
list_keys [] = []
list_keys ((id, key) ∷ rest) = listed key ∷ list_keys rest

abbrev pub owned_by : String → Option String → Bool
owned_by owner none = false
owned_by owner (some o) = str_eq o owner

-- ListByOwner
unfoldable pub list_by_owner : String → Dict ApiKey → List ApiKey
list_by_owner owner [] = []
list_by_owner owner ((id, key) ∷ rest) =
    let others = list_by_owner owner rest in
    if owned_by owner key.owner_id then listed key ∷ others else others

-- The writes of Revoke and UpdateLastUsed go through the stored pointer.
unfoldable pub rewrite : (ApiKey → ApiKey) → String → KeyStore → Option KeyError × KeyStore
rewrite change id s = elim (find s.keys id) [
  | none ↦ (some err_key_not_found, s)
  | some key ↦ (none, record s { keys = set s.keys id (change key) })
]

-- Revoke
abbrev pub revoked_key : ApiKey → ApiKey
revoked_key key = record key { revoked = true }

unfoldable pub revoke : String → KeyStore → Option KeyError × KeyStore
unfolding rewrite
revoke id s = rewrite revoked_key id s

-- UpdateLastUsed
abbrev pub used_key : ℕ → ApiKey → ApiKey
used_key t key = record key { last_used_at = some t }

unfoldable pub update_last_used : ℕ → String → KeyStore → Option KeyError × KeyStore
unfolding rewrite
update_last_used t id s = rewrite (used_key t) id s

-- Delete
unfoldable pub delete_key : String → KeyStore → Option KeyError × KeyStore
delete_key id s = elim (find s.keys id) [
  | none ↦ (some err_key_not_found, s)
  | some key ↦
      (none, record { keys = delete s.keys id; prefix_index = delete s.prefix_index key.prefix })
]
