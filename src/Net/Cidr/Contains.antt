-- ===== src/Net/Cidr/Contains.antt =====
-- `PrefixContains` of internal/cidr/cidr.go is inclusion of the address sets.
use cloudpam.Base.{
  ℕ, suc, ◌-◌, ◌≤◌, ◌<◌, ◌≡◌, sym, ◌∙◌, ◌↔◌, inl, inr, arith, pow_mono, pow_step, le_or_lt, true,
}
use cloudpam.Net.Ip.{Prefix, block, IsPrefix}
use cloudpam.Net.Ip.Block.{
  first, last, In, contains-In, In-iff, first-In, last-In, block_pos, coarser,
}
use cloudpam.Net.Cidr.{prefix_contains, last_addr-eq-last}

-- A longer prefix has a smaller block.
pub block_lt : (b c : ℕ) → b < c → c ≤ 32 → block c < block b
block_lt b c l h =
    omega (
      arith,
      pow_mono {m = suc (32 - c)} {n = 32 - b} (omega arith),
      pow_step (32 - c),
      block_pos c,
    )

-- An inclusion of blocks orders the prefix lengths.
pub bits_of_subset :
    (a b x y : ℕ) → b ≤ 32 → ((z : ℕ) → In (Prefix.v4 x y) z → In (Prefix.v4 a b) z) → b ≤ y
bits_of_subset a b x y h sub = elim (le_or_lt b y) [
  | inl l ↦ l
  | inr l ↦ absurd (
      omega (
        arith,
        block_lt y b l h,
        block_pos b,
        (sub (first x y) (first-In x y)).0,
        (sub (last x y) (last-In x y)).1,
      ))
]

-- Membership of one address of a smaller block carries over to every other.
pub In-coarser :
    (a b x y z w : ℕ)
    → b ≤ y
    → In (Prefix.v4 x y) z
    → In (Prefix.v4 x y) w
    → In (Prefix.v4 a b) z
    → In (Prefix.v4 a b) w
In-coarser a b x y z w l hz hw h =
    (In-iff a b w).1
      (coarser w z b y l ((In-iff x y w).0 hw ∙ sym ((In-iff x y z).0 hz)) ∙ (In-iff a b z).0 h)

-- For IPv4 prefixes `PrefixContains` holds exactly when every address of the inner prefix is an
-- address of the outer one.
pub prefix_contains-iff-subset :
    (a b x y : ℕ)
    → IsPrefix (Prefix.v4 a b)
    → IsPrefix (Prefix.v4 x y)
    → (prefix_contains (Prefix.v4 a b) (Prefix.v4 x y) ≡ true)
      ↔ ((z : ℕ) → In (Prefix.v4 x y) z → In (Prefix.v4 a b) z)
unfolding prefix_contains
prefix_contains-iff-subset a b x y p q =
    let start = contains-In a b (first x y) in
    let end = contains-In a b (last x y) in
    let l = last_addr-eq-last x y q.0 q.1 in
    (
      λ e z hz.
          In-coarser a b x y (first x y) z (ground arith) (first-In x y) hz
            (start.0 (ground arith)),
      λ sub.
          let bits_le = bits_of_subset a b x y p.1 sub in
          let s = start.1 (sub (first x y) (first-In x y)) in
          let t = end.1 (sub (last x y) (last-In x y)) in rw (l) (ground arith),
    )
