-- ===== src/Validation.antt =====
-- internal/validation/validation.go: the checks of CIDRs and of names. `trim` is strings.TrimSpace,
-- `netip` parses prefixes. `none` is no error.
pub mod Cidrs
use cloudpam.Base.{
  ℕ, ◌+◌, String, Bool, true, false, not, ◌&&◌, ◌||◌, Option, none, some, List, [], ◌∷◌, ltb, ◌==◌,
  str_eq, if◌then◌else◌,
}
use cloudpam.Net.Ip.{Addr, Prefix, prefix_addr, bits, is4, masked, contains}
use cloudpam.Net.Cidr.{Netip}
use cloudpam.Storage.Memory.Search.{text_contains}

pub data ValidationError : Type 0 where
  err_empty_value err_too_long err_invalid_format err_reserved_range err_invalid_prefix
        err_ipv6_not_supported err_not_canonical err_control_character :
      ValidationError

-- MinPrefixLength, MaxPrefixLength, MaxNameLength
abbrev pub min_prefix_length : ℕ
min_prefix_length = 8

abbrev pub max_prefix_length : ℕ
max_prefix_length = 30

abbrev pub max_name_length : ℕ
max_name_length = 255

-- reservedIPv4Ranges
abbrev pub reserved_ipv4_ranges : List Prefix
reserved_ipv4_ranges =
    Prefix.v4 0 8
    ∷ Prefix.v4 0x7f00_0000 8
    ∷ Prefix.v4 0xa9fe_0000 16
    ∷ Prefix.v4 0xe000_0000 4
    ∷ Prefix.v4 0xf000_0000 4
    ∷ Prefix.v4 0xffff_ffff 32
    ∷ []

-- A length below 1 is 0 here: the default stands in for it.
pub record CidrOptions : Type 0 where
  pub allow_reserved : Bool
  pub allow_non_canonical : Bool
  pub min_prefix : ℕ
  pub max_prefix : ℕ

-- prefixOverlaps
abbrev pub prefix_overlaps : Prefix → Prefix → Bool
prefix_overlaps a b = contains a (prefix_addr b) || contains b (prefix_addr a)

-- `==` on IPv4 addresses
abbrev pub same_v4 : Addr → Addr → Bool
same_v4 (Addr.v4 a) (Addr.v4 b) = a == b
same_v4 _ _ = false

unfoldable pub overlaps_any : Prefix → List Prefix → Bool
overlaps_any p [] = false
overlaps_any p (r ∷ rs) = prefix_overlaps p r || overlaps_any p rs

abbrev pub positive_or : ℕ → ℕ → ℕ
positive_or n default = if ltb 0 n then n else default

-- ValidateCIDRWithOptions, from the parsed prefix on
unfoldable pub validate_prefix : CidrOptions → Prefix → Option ValidationError
unfolding overlaps_any
validate_prefix opts p =
    if not (is4 (prefix_addr p))
    then some err_ipv6_not_supported
    else if not opts.allow_non_canonical && not (same_v4 (prefix_addr p) (prefix_addr (masked p)))
    then some err_not_canonical
    else if not opts.allow_reserved && overlaps_any p reserved_ipv4_ranges
    then some err_reserved_range
    else if ltb (bits p) (positive_or opts.min_prefix min_prefix_length)
    then some err_invalid_prefix
    else if ltb (positive_or opts.max_prefix max_prefix_length) (bits p)
    then some err_invalid_prefix
    else none

-- CIDROptions{}
abbrev pub default_cidr_options : CidrOptions
default_cidr_options = record {
  allow_reserved = false;
  allow_non_canonical = false;
  min_prefix = 0;
  max_prefix = 0;
}

module _ (netip : Netip) (trim : String → String) where
  -- ValidateCIDRWithOptions
  unfoldable pub validate_cidr_with_options : String → CidrOptions → Option ValidationError
  unfolding validate_prefix text_contains
  validate_cidr_with_options text opts =
      let cidr = trim text in
      if str_eq cidr ""
      then some err_empty_value
      else if not (text_contains cidr "/")
      then some err_invalid_format
      else elim (netip.parse_prefix cidr) [
        | none ↦ some err_invalid_format
        | some p ↦ validate_prefix opts p
      ]

  -- ValidateCIDR
  unfoldable pub validate_cidr : String → Option ValidationError
  unfolding validate_cidr_with_options
  validate_cidr text = validate_cidr_with_options text default_cidr_options

-- A length below 1 is 0 here: the default stands in for it.
pub record NameOptions : Type 0 where
  pub max_length : ℕ
  pub min_length : ℕ
  pub allow_control_chars : Bool

-- `rune_count` is utf8.RuneCountInString, `has_control` tells whether unicode.IsControl holds of a
-- rune of the text.
module _ (trim : String → String) (rune_count : String → ℕ) (has_control : String → Bool) where
  -- ValidateNameWithOptions
  unfoldable pub validate_name_with_options : String → NameOptions → Option ValidationError
  validate_name_with_options text opts =
      let name = trim text in
      if str_eq name ""
      then some err_empty_value
      else if ltb (positive_or opts.max_length max_name_length) (rune_count name)
      then some err_too_long
      else if ltb (rune_count name) (positive_or opts.min_length 1)
      then some err_empty_value
      else if not opts.allow_control_chars && has_control name
      then some err_control_character
      else none

  -- ValidateName
  unfoldable pub validate_name : String → Option ValidationError
  unfolding validate_name_with_options
  validate_name text =
      validate_name_with_options text
        (record { max_length = 0; min_length = 0; allow_control_chars = false })
