-- ===== src/Api/Cidr/Child.antt =====
-- Validation of a child prefix and overlap in internal/api/cidr.go, against address sets, against
-- internal/cidr and against internal/planning.
use cloudpam.Base.{ℕ, ◌+◌, ◌-◌, ◌%◌, ◌≤◌, ◌<◌, ◌≡◌, ◌↔◌, ap, ◌∙◌, inl, inr, arith, le_or_lt, some}
use cloudpam.Net.Ip.{Addr, Prefix, block, IsPrefix}
use cloudpam.Net.Ip.Block.{first, last, block_pos, contains-In, first-In, last-In}
use cloudpam.Net.Cidr
use cloudpam.Net.Cidr.{last_addr-eq-last}
use cloudpam.Net.Cidr.Contains.{In-coarser}
use cloudpam.Planning.Cidrs.{intervals_meet, prefixes_overlap}
use cloudpam.Planning.Cidrs.Overlap.{first_fits, Inside, prefixes_overlap-meet}
use cloudpam.Api.Cidr.{ok, u32_mod, last_addr, validate_child_prefix, prefixes_overlap_ipv4}

wrapped_last :
    (f m : ℕ) → 0 < m → f + m ≤ u32_mod → (f + m % u32_mod + u32_mod - 1) % u32_mod ≡ f + m - 1
wrapped_last f m p l = elim (le_or_lt u32_mod m) [ inl k ↦ omega arith | inr k ↦ omega arith ]

last_addr-last :
    (a b : ℕ) → IsPrefix (Prefix.v4 a b) → last_addr (Prefix.v4 a b) ≡ ok (Addr.v4 (last a b))
unfolding last_addr
last_addr-last a b p =
    ap (λ (n : ℕ). ok (Addr.v4 n))
      (wrapped_last (first a b) (block b) (block_pos b) (first_fits a b p.0 p.1))

-- For an IPv4 prefix the one-step `lastAddr` of internal/api and the bit-by-bit `lastAddr` of
-- internal/cidr return the same address.
pub last_addr-eq-cidr :
    (a b : ℕ)
    → IsPrefix (Prefix.v4 a b)
    → last_addr (Prefix.v4 a b) ≡ ok (Cidr.last_addr (Prefix.v4 a b))
last_addr-eq-cidr a b p = last_addr-last a b p ∙ rw (last_addr-eq-last a b p.0 p.1)

module _ (a b x y : ℕ) (p : IsPrefix (Prefix.v4 a b)) (q : IsPrefix (Prefix.v4 x y)) where
  -- For IPv4 prefixes `validateChildCIDR` accepts exactly the children with a longer prefix, all of
  -- whose addresses belong to the parent.
  pub validate_child_prefix_iff :
      (validate_child_prefix (Prefix.v4 a b) (Prefix.v4 x y) ≡ ok tt)
      ↔ ((b < y) × Inside (Prefix.v4 x y) (Prefix.v4 a b))
  unfolding validate_child_prefix
  validate_child_prefix_iff =
      let start = contains-In a b (first x y) in
      let stop = contains-In a b (last x y) in
      let l = last_addr-last x y q in
      (
        λ e.
            let k : b < y = ground arith in
            (
              k,
              λ z i.
                  In-coarser a b x y (first x y) z (omega arith) (first-In x y) i
                    (start.0 (ground arith)),
            ),
        λ (k, s).
            let u = start.1 (s (first x y) (first-In x y)) in
            let v = stop.1 (s (last x y) (last-In x y)) in ground arith,
      )

  -- For IPv4 prefixes the overlap test of internal/api and that of internal/planning agree.
  pub prefixes_overlap_ipv4-eq-planning :
      prefixes_overlap (Prefix.v4 a b) (Prefix.v4 x y)
      ≡ some (prefixes_overlap_ipv4 (Prefix.v4 a b) (Prefix.v4 x y))
  unfolding prefixes_overlap_ipv4 intervals_meet
  prefixes_overlap_ipv4-eq-planning =
      prefixes_overlap-meet a b x y p q
      ∙ ap some (
          rw (
            wrapped_last (first a b) (block b) (block_pos b) (first_fits a b p.0 p.1),
            wrapped_last (first x y) (block y) (block_pos y) (first_fits x y q.0 q.1),
          ))
