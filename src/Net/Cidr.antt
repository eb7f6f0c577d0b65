-- ===== src/Net/Cidr.antt =====
-- internal/cidr/cidr.go: containment of prefixes, and the parsing of a prefix or an address.
mod LastAddr
pub mod Contains
pub use LastAddr.{last_addr, last_addr-eq-last}
use cloudpam.Base.{
  ℕ, ◌-◌, String, Bool, true, false, not, ◌&&◌, ◌||◌, Option, none, some, ltb, if◌then◌else◌,
}
use cloudpam.Net.Ip.{
  Addr, Prefix, is_valid, prefix_addr, bits, addr_is_valid, is4, masked, contains, IsPrefix,
}

-- PrefixContains
unfoldable pub prefix_contains : Prefix → Prefix → Bool
prefix_contains outer inner =
    if not (is_valid outer) || not (is_valid inner)
    then false
    else if not (is4 (prefix_addr outer)) || not (is4 (prefix_addr inner))
    then false
    else if ltb (bits inner) (bits outer)
    then false
    else contains outer (prefix_addr (masked inner)) && contains outer (last_addr inner)

-- PrefixContainsAddr
unfoldable pub prefix_contains_addr : Prefix → Addr → Bool
prefix_contains_addr prefix addr =
    if not (is_valid prefix) || not (addr_is_valid addr) then false else contains prefix addr

-- The text syntax of netip.ParsePrefix and netip.ParseAddr.
pub record Netip : Type 0 where
  pub parse_prefix : String → Option Prefix
  pub parse_addr : String → Option Addr

-- The two errors of ParseCIDROrIP.
pub data ParseError : Type 0 where
  only_ipv4 invalid_cidr_or_ip : ParseError

pub data Parsed : Type 0 where
  ok : Prefix → Parsed
  err : ParseError → Parsed

-- netip.PrefixFrom at an IPv4 address and length 32.
abbrev host_prefix : Addr → Prefix
host_prefix (Addr.v4 a) = Prefix.v4 a 32
host_prefix _ = Prefix.invalid

-- ParseCIDROrIP
unfoldable pub parse_cidr_or_ip : Netip → String → Parsed
parse_cidr_or_ip netip s = elim (netip.parse_prefix s) [
  | some p ↦ if not (is4 (prefix_addr p)) then Parsed.err only_ipv4 else Parsed.ok (masked p)
  | none ↦ elim (netip.parse_addr s) [
    | some a ↦ if not (is4 a) then Parsed.err only_ipv4 else Parsed.ok (host_prefix a)
    | none ↦ Parsed.err invalid_cidr_or_ip
  ]
]
