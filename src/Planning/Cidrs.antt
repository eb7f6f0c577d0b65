-- ===== src/Planning/Cidrs.antt =====
-- `rangeToCIDRs` and the small helpers of internal/planning/cidr_helpers.go, with the functions of
-- math/bits that they call.
pub mod Bits
pub mod Tiling
pub mod Cover
pub mod Overlap
use cloudpam.Base.{
  ℕ, zero, suc, ◌+◌, ◌-◌, ◌*◌, ◌/◌, ◌%◌, ◌^◌, Bool, true, false, ◌&&◌, ◌||◌, Option, none, some,
  List, [], ◌∷◌, ltb, leb, ◌==◌, if◌then◌else◌,
}
use mathlib.Core.Option
use cloudpam.Net.Ip.{Prefix, bits, masked}
use cloudpam.Planning.Ranges.{Interval, u32_mod, prefix_to_interval}

-- The trailing zeros among the `width` low bits.
unfoldable pub trailing_zeros : ℕ → ℕ → ℕ
trailing_zeros zero x = 0
trailing_zeros (suc width) x = if x % 2 == 0 then suc (trailing_zeros width (x / 2)) else 0

-- bits.TrailingZeros32
abbrev pub trailing_zeros32 : ℕ → ℕ
trailing_zeros32 x = trailing_zeros 32 x

-- The length of `x` in binary, for `x` of at most `width` bits.
unfoldable pub bit_length : ℕ → ℕ → ℕ
bit_length zero x = 0
bit_length (suc width) x = if x == 0 then 0 else suc (bit_length width (x / 2))

-- bits.LeadingZeros64
abbrev pub leading_zeros64 : ℕ → ℕ
leading_zeros64 x = 64 - bit_length 64 x

-- The exponent of the block that the loop takes at `start`.
unfoldable pub fit_bits : ℕ → ℕ → ℕ
fit_bits start end =
    let max_bits = if start == 0 then 32 else trailing_zeros32 start in
    let remaining = end - start + 1 in
    let fit = 63 - leading_zeros64 remaining in if ltb max_bits fit then max_bits else fit

-- The loop of `rangeToCIDRs`; `none` means that the fuel ran out. `1 << fitBits` and the sum wrap.
unfoldable pub range_loop : ℕ → ℕ → ℕ → Option (List Prefix)
range_loop zero start end = none
range_loop (suc fuel) start end =
    let fit = fit_bits start end in
    let block_prefix = Prefix.v4 start (32 - fit) in
    let next = (start + 2 ^ fit % u32_mod) % u32_mod in
    let rest = Option.map (λ ps. block_prefix ∷ ps) (range_loop fuel next end) in
    if leb start end then (if next == 0 then some (block_prefix ∷ []) else rest) else some []

-- rangeToCIDRs: each round takes at least one address.
unfoldable pub range_to_cidrs : ℕ → ℕ → Option (List Prefix)
range_to_cidrs start end = range_loop (suc (suc (end - start))) start end

-- prefixAddressCount: an untyped 1 shifted as a uint64
unfoldable pub prefix_address_count : Prefix → ℕ
prefix_address_count p = 2 ^ (32 - bits p) % 2 ^ 64

-- prefixesOverlap
unfoldable pub intervals_meet : Interval → Interval → Bool
intervals_meet a b = leb b.start a.end && leb a.start b.end

unfoldable pub prefixes_overlap : Prefix → Prefix → Option Bool
unfolding intervals_meet
prefixes_overlap a b = elim (prefix_to_interval (masked a)) [
  | none ↦ none
  | some ai ↦ Option.map (λ bi. intervals_meet ai bi) (prefix_to_interval (masked b))
]

-- The three blocks of isRFC1918: 10.0.0.0/8, 172.16.0.0/12 and 192.168.0.0/16.
abbrev pub rfc1918_blocks : List Prefix
rfc1918_blocks = Prefix.v4 0x0a00_0000 8 ∷ Prefix.v4 0xac10_0000 12 ∷ Prefix.v4 0xc0a8_0000 16 ∷ []

unfoldable pub interval_within_any : Interval → List Prefix → Option Bool
interval_within_any pi [] = some false
interval_within_any pi (r ∷ rs) =
    let rest = interval_within_any pi rs in
    elim (prefix_to_interval r) [
      | none ↦ none
      | some ri ↦ if leb ri.start pi.start && leb pi.end ri.end then some true else rest
    ]

-- isRFC1918
unfoldable pub is_rfc1918 : Prefix → Option Bool
is_rfc1918 p = elim (prefix_to_interval (masked p)) [
  | none ↦ none
  | some pi ↦ interval_within_any pi rfc1918_blocks
]
