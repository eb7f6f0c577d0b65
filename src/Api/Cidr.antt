-- ===== src/Api/Cidr.antt =====
-- internal/api/cidr.go: validation of a child prefix, overlap, and the expansion of a prefix into
-- blocks of one size. Addresses are their numbers; a uint32 keeps its wrap-around.
pub mod Child
pub mod Pages
use cloudpam.Base.{
  ℕ, zero, suc, ◌+◌, ◌-◌, ◌*◌, ◌%◌, ◌^◌, String, Bool, true, false, not, ◌&&◌, ◌||◌, Option, none,
  some, List, [], ◌∷◌, ltb, leb, ◌==◌, if◌then◌else◌,
}
use cloudpam.Net.Ip.{Addr, Prefix, prefix_addr, bits, is4, masked, contains}
use cloudpam.Net.Cidr.{Netip}

pub data CidrError : Type 0 where
  invalid_parent invalid_child only_ipv4 child_prefix_len not_within : CidrError
  bad_new_prefix_len too_many_blocks : CidrError

pub data Result (A : Type 0) : Type 0 where
  ok : A → Result A
  err : CidrError → Result A

abbrev u32_mod : ℕ
u32_mod = 2 ^ 32

-- ipv4ToUint32(p.Masked().Addr()), after the test that the prefix is IPv4
abbrev base_of : Prefix → ℕ
base_of p = elim (masked p) [ Prefix.v4 a b ↦ a | _ ↦ 0 ]

-- lastAddr
unfoldable pub last_addr : Prefix → Result Addr
last_addr p =
    if not (is4 (prefix_addr p))
    then err only_ipv4
    else ok (Addr.v4 ((base_of p + 2 ^ (32 - bits p) % u32_mod + u32_mod - 1) % u32_mod))

-- validateChildCIDR, from the parsed prefixes on
unfoldable pub validate_child_prefix : Prefix → Prefix → Result (Unit {0})
unfolding last_addr
validate_child_prefix pp cp =
    if not (is4 (prefix_addr pp)) || not (is4 (prefix_addr cp))
    then err only_ipv4
    else if leb (bits cp) (bits pp)
    then err child_prefix_len
    else elim (last_addr cp) [
      | err e ↦ err e
      | ok cend ↦
          if not (contains pp (prefix_addr (masked cp))) || not (contains pp cend)
          then err not_within
          else ok tt
    ]

-- validateChildCIDR
unfoldable pub validate_child_cidr : Netip → String → String → Result (Unit {0})
unfolding validate_child_prefix
validate_child_cidr netip parent_cidr child_cidr = elim (netip.parse_prefix parent_cidr) [
  | none ↦ err invalid_parent
  | some pp ↦ elim (netip.parse_prefix child_cidr) [
    | none ↦ err invalid_child
    | some cp ↦ validate_child_prefix pp cp
  ]
]

-- The number behind an address; a failed `lastAddr` leaves the zero Addr, which is not reached.
abbrev number_of : Result Addr → ℕ
number_of (ok (Addr.v4 a)) = a
number_of _ = 0

-- prefixesOverlapIPv4
unfoldable pub prefixes_overlap_ipv4 : Prefix → Prefix → Bool
unfolding last_addr
prefixes_overlap_ipv4 a b =
    if not (is4 (prefix_addr a)) || not (is4 (prefix_addr b))
    then false
    else leb (base_of b) (number_of (last_addr a)) && leb (base_of a) (number_of (last_addr b))

-- MaxSubnetExpansion
abbrev pub max_subnet_expansion : ℕ
max_subnet_expansion = 65536

-- usableHostsIPv4, at a prefix length that is not negative
unfoldable pub usable_hosts_ipv4 : ℕ → ℕ
usable_hosts_ipv4 prefix_len =
    if ltb 32 prefix_len
    then 0
    else let total = 2 ^ (32 - prefix_len) in
      if leb prefix_len 30 then (if leb 2 total then total - 2 else total) else total

-- The blocks `i` with `start <= i < end`, with the rounds that are left.
unfoldable pub blocks_from : ℕ → ℕ → ℕ → ℕ → List Prefix
blocks_from base new_prefix_len zero i = []
blocks_from base new_prefix_len (suc rounds) i =
    let step = 2 ^ (32 - new_prefix_len) % u32_mod in
    Prefix.v4 ((base + i % u32_mod * step % u32_mod) % u32_mod) new_prefix_len
    ∷ blocks_from base new_prefix_len rounds (suc i)

-- What computeSubnetsIPv4Window returns: the blocks, the hosts of one, and the number of all.
pub record Window : Type 0 where
  pub blocks : List Prefix
  pub hosts : ℕ
  pub total : ℕ

-- The bounds of the page; `none` is the refusal of an expansion that is too large. `offset` is a
-- ℕ: a negative one is set to 0 by the code. A `limit` of 0 stands for any that is not positive.
unfoldable pub page_bounds : ℕ → ℕ → ℕ → Option (ℕ × ℕ)
page_bounds count offset limit =
    if ltb 0 limit
    then (let start = if ltb count offset then count else offset in
        let size = if ltb max_subnet_expansion limit then max_subnet_expansion else limit in
        let stop = start + size in some (start, if ltb count stop then count else stop))
    else if ltb max_subnet_expansion count
    then none
    else some (0, count)

-- computeSubnetsIPv4Window, from the parsed prefix on
unfoldable pub compute_subnets_window : Prefix → ℕ → ℕ → ℕ → Result Window
unfolding page_bounds blocks_from usable_hosts_ipv4
compute_subnets_window pp new_prefix_len offset limit =
    if not (is4 (prefix_addr pp))
    then err only_ipv4
    else if ltb new_prefix_len (bits pp) || ltb 32 new_prefix_len
    then err bad_new_prefix_len
    else let count = 2 ^ (new_prefix_len - bits pp) in
      elim (page_bounds count offset limit) [
        | none ↦ err too_many_blocks
        | some (start, stop) ↦ ok (record {
          blocks = blocks_from (base_of pp) new_prefix_len (stop - start) start;
          hosts = usable_hosts_ipv4 new_prefix_len;
          total = count;
        })
      ]
