-- ===== src/Domain.antt =====
-- internal/domain/types.go: pools, accounts and the inputs that create and change them. Go's string
-- types are `String`; a time is a number; an id is a positive number, as the counters hand them out.
pub mod Discovery
pub mod Drift
pub mod Recommendation
use cloudpam.Base.{ℕ, String, Bool, true, false, Option, List, [], ◌∷◌, str_eq, if◌then◌else◌}

abbrev pub Tags : Type 0
Tags = List (String × String)

pub record Pool : Type 0 where
  pub id : ℕ
  pub name : String
  pub cidr : String
  pub parent_id : Option ℕ
  pub account_id : Option ℕ
  pub type : String
  pub status : String
  pub source : String
  pub description : String
  pub tags : Option Tags
  pub created_at : ℕ
  pub updated_at : ℕ
  pub deleted_at : Option ℕ

pub record CreatePool : Type 0 where
  pub name : String
  pub cidr : String
  pub parent_id : Option ℕ
  pub account_id : Option ℕ
  pub type : String
  pub status : String
  pub source : String
  pub description : String
  pub tags : Option Tags

-- A field of `none` is left as it is, but for `account_id`, which is always written. The inner
-- option of `tags` is the nil map.
pub record UpdatePool : Type 0 where
  pub name : Option String
  pub account_id : Option ℕ
  pub type : Option String
  pub status : Option String
  pub description : Option String
  pub tags : Option (Option Tags)

pub record Account : Type 0 where
  pub id : ℕ
  pub key : String
  pub name : String
  pub provider : String
  pub external_id : String
  pub description : String
  pub platform : String
  pub tier : String
  pub environment : String
  pub regions : Option (List String)
  pub created_at : ℕ
  pub updated_at : ℕ
  pub deleted_at : Option ℕ

pub record CreateAccount : Type 0 where
  pub key : String
  pub name : String
  pub provider : String
  pub external_id : String
  pub description : String
  pub platform : String
  pub tier : String
  pub environment : String
  pub regions : Option (List String)

-- The loop of IsValidPoolType, IsValidPoolStatus and IsValidPoolSource.
unfoldable pub one_of : String → List String → Bool
one_of t [] = false
one_of t (valid ∷ rest) = if str_eq t valid then true else one_of t rest

abbrev pub valid_pool_types : List String
valid_pool_types = "supernet" ∷ "region" ∷ "environment" ∷ "vpc" ∷ "subnet" ∷ []

abbrev pub valid_pool_statuses : List String
valid_pool_statuses = "planned" ∷ "active" ∷ "deprecated" ∷ []

abbrev pub valid_pool_sources : List String
valid_pool_sources = "manual" ∷ "discovered" ∷ "imported" ∷ []

unfoldable pub is_valid_pool_type : String → Bool
unfolding one_of
is_valid_pool_type t = one_of t valid_pool_types

unfoldable pub is_valid_pool_status : String → Bool
unfolding one_of
is_valid_pool_status s = one_of s valid_pool_statuses

unfoldable pub is_valid_pool_source : String → Bool
unfolding one_of
is_valid_pool_source s = one_of s valid_pool_sources
