-- ===== src/Auth/Identity.antt =====
-- Sessions (internal/auth/session.go) and API keys (internal/auth/apikey.go), and the values that a
-- request's context carries (internal/auth/context.go). `now` is the clock.
use cloudpam.Base.{ℕ, String, Bool, false, not, ◌&&◌, Option, some, none, List, ltb, str_eq}

pub record Session : Type 0 where
  pub id : String
  pub user_id : String
  pub role : String
  pub created_at : ℕ
  pub expires_at : ℕ
  pub metadata : Option (List (String × String))

-- Session.IsExpired
abbrev pub session_is_expired : ℕ → Session → Bool
session_is_expired now s = ltb s.expires_at now

-- Session.IsValid
abbrev pub session_is_valid : ℕ → Session → Bool
session_is_valid now s =
    not (str_eq s.id "") && (not (str_eq s.user_id "") && not (session_is_expired now s))

pub record ApiKey : Type 0 where
  pub id : String
  pub prefix : String
  pub name : String
  pub hash : List ℕ
  pub salt : List ℕ
  pub scopes : List String
  pub owner_id : Option String
  pub created_at : ℕ
  pub expires_at : Option ℕ
  pub last_used_at : Option ℕ
  pub revoked : Bool

-- APIKey.IsExpired
abbrev pub key_expired_at : ℕ → Option ℕ → Bool
key_expired_at now none = false
key_expired_at now (some t) = ltb t now

abbrev pub key_is_expired : ℕ → ApiKey → Bool
key_is_expired now k = key_expired_at now k.expires_at

-- APIKey.IsValid
abbrev pub key_is_valid : ℕ → ApiKey → Bool
key_is_valid now k = not k.revoked && not (key_is_expired now k)

-- What RoleFromContext, SessionFromContext and APIKeyFromContext return.
pub record Context : Type 0 where
  pub role : String
  pub session : Option Session
  pub api_key : Option ApiKey
