-- ===== src/Net/Ip.antt =====
-- The part of Go's net/netip that the program computes with: addresses, prefixes, `Masked`,
-- `Contains` and `As4`. An address is its number; an IPv6 address has its zone beside it.
pub mod Block
use cloudpam.Base.{
  ℕ, ◌+◌, ◌-◌, ◌*◌, ◌/◌, ◌%◌, ◌^◌, ◌≤◌, ◌<◌, String, Bool, true, false, ◌&&◌, Option, none, some,
  ◌==◌, leb, str_eq, if◌then◌else◌,
}

pub data Addr : Type 0 where
  invalid : Addr
  v4 : ℕ → Addr
  v6 : ℕ → String → Addr

pub data Prefix : Type 0 where
  invalid : Prefix
  v4 : ℕ → ℕ → Prefix
  v6 : ℕ → ℕ → Prefix

-- The number of addresses of an IPv4 prefix, 2 ^ (32 - bits).
abbrev pub block : ℕ → ℕ
block b = 2 ^ (32 - b)

-- Prefix.IsValid, Prefix.Addr, Prefix.Bits. `Bits` of the invalid prefix is -1 in Go; no caller
-- here asks for it.
abbrev pub is_valid : Prefix → Bool
is_valid Prefix.invalid = false
is_valid _ = true

abbrev pub prefix_addr : Prefix → Addr
prefix_addr Prefix.invalid = Addr.invalid
prefix_addr (Prefix.v4 a b) = Addr.v4 a
prefix_addr (Prefix.v6 a b) = Addr.v6 a ""

abbrev pub bits : Prefix → ℕ
bits Prefix.invalid = 0
bits (Prefix.v4 a b) = b
bits (Prefix.v6 a b) = b

-- Addr.IsValid, Addr.Is4
abbrev pub addr_is_valid : Addr → Bool
addr_is_valid Addr.invalid = false
addr_is_valid _ = true

abbrev pub is4 : Addr → Bool
is4 (Addr.v4 a) = true
is4 _ = false

-- Prefix.Masked: the host bits are cleared.
abbrev pub masked : Prefix → Prefix
masked Prefix.invalid = Prefix.invalid
masked (Prefix.v4 a b) = Prefix.v4 (a / block b * block b) b
masked (Prefix.v6 a b) = Prefix.v6 (a / 2 ^ (128 - b) * 2 ^ (128 - b)) b

-- Prefix.Contains: the addresses are of one family, without a zone, and agree on the leading bits.
unfoldable pub contains : Prefix → Addr → Bool
contains (Prefix.v4 a b) (Addr.v4 x) = x / block b == a / block b
contains (Prefix.v6 a b) (Addr.v6 x zone) =
    str_eq zone "" && (x / 2 ^ (128 - b) == a / 2 ^ (128 - b))
contains _ _ = false

-- Addr.As4, as a number in network byte order; `none` is its panic. An IPv4-mapped IPv6 address
-- has the bytes of the IPv4 address.
abbrev pub as4 : Addr → Option ℕ
as4 Addr.invalid = none
as4 (Addr.v4 a) = some a
as4 (Addr.v6 a zone) = if a / 2 ^ 32 == 0xffff then some (a % 2 ^ 32) else none

-- What netip guarantees of a prefix that it has built.
abbrev pub IsPrefix : Prefix → Type 0
IsPrefix Prefix.invalid = ⊥
IsPrefix (Prefix.v4 a b) = (a < 2 ^ 32) × (b ≤ 32)
IsPrefix (Prefix.v6 a b) = (a < 2 ^ 128) × (b ≤ 128)
