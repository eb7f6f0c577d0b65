-- ===== src/Planning/Compliance/Siblings.antt =====
-- `checkOverlap` of internal/planning/compliance.go against the addresses that siblings share.
use native.Mathlib.Nat.{div-mul-le_self}
use cloudpam.Base.{
  ℕ, ◌+◌, ◌-◌, ◌≤◌, ◌≡◌, ◌↔◌, ◌⊎◌, refl, sym, ap₂, subst, arith, inl, inr, Bool-cases, String, Bool,
  true, false, some, List, [], ◌∷◌, All, Any,
}
use cloudpam.Net.Ip.{Prefix, block, masked, IsPrefix}
use cloudpam.Net.Ip.Block.{first, In}
use cloudpam.Net.Cidr.{Netip}
use cloudpam.Domain.{Pool}
use cloudpam.Planning.Cidrs.{prefixes_overlap}
use cloudpam.Planning.Cidrs.Overlap.{first_idem, prefixes_overlap-iff_common}
use cloudpam.Planning.Compliance.{
  ComplianceReport, free, overlaps, counted, failing, overlap_violation, overlap_result, is_sibling,
  find_overlap, check_overlap,
}

masked-In : (a b z : ℕ) → In (masked (Prefix.v4 a b)) z ↔ In (Prefix.v4 a b) z
masked-In a b z =
    let span = λ (f : ℕ). (f ≤ z) × (z ≤ f + block b - 1) in
    (λ i. subst span (first_idem a b) i, λ i. subst span (sym (first_idem a b)) i)

masked-IsPrefix : (a b : ℕ) → IsPrefix (Prefix.v4 a b) → IsPrefix (masked (Prefix.v4 a b))
masked-IsPrefix a b p = (omega (arith, div-mul-le_self a (block b), p.0), p.1)

-- An address of both prefixes
abbrev pub Shared : Prefix → Prefix → Type 0
Shared p q = (z : ℕ) × In p z × In q z

masked-Shared :
    (a b x y : ℕ)
    → IsPrefix (Prefix.v4 a b)
    → IsPrefix (Prefix.v4 x y)
    → (r : Bool) × (prefixes_overlap (masked (Prefix.v4 a b)) (masked (Prefix.v4 x y)) ≡ some r)
      × ((r ≡ true) ↔ Shared (Prefix.v4 a b) (Prefix.v4 x y))
masked-Shared a b x y p q =
    let (r, e, c) =
      prefixes_overlap-iff_common (first a b) b (first x y) y (masked-IsPrefix a b p)
        (masked-IsPrefix x y q) in
    (
      r,
      e,
      (
        λ t. let (z, i, j) = c.0 t in (z, (masked-In a b z).0 i, (masked-In x y z).0 j),
        λ (z, i, j). c.1 (z, (masked-In a b z).1 i, (masked-In x y z).1 j),
      ),
    )

module _ (netip : Netip) (quote : String → String) where
  -- The pool's CIDR is an IPv4 prefix.
  abbrev pub Readable : Pool → Type 0
  Readable pool =
      (x : ℕ) × (y : ℕ) × (netip.parse_prefix pool.cidr ≡ some (Prefix.v4 x y))
      × IsPrefix (Prefix.v4 x y)

  -- A sibling that shares an address with the prefix
  abbrev pub Clashes : Pool → Prefix → Pool → Type 0
  Clashes pool p other =
      (is_sibling pool other ≡ true)
      × ((q : Prefix) × (netip.parse_prefix other.cidr ≡ some q) × Shared p q)

  no_clash :
      (r : Bool) (other pool : Pool) (a b x y : ℕ)
      → netip.parse_prefix other.cidr ≡ some (Prefix.v4 x y)
      → ((r ≡ true) ↔ Shared (Prefix.v4 a b) (Prefix.v4 x y))
      → r ≡ false
      → ¬ (Clashes pool (Prefix.v4 a b) other)
  no_clash r other pool a b x y f c u (s, (q, g, shared)) =
      let same : q ≡ Prefix.v4 x y = ground arith in
      let hit = c.1 (subst (Shared (Prefix.v4 a b)) same shared) in absurd (cc hit)

  -- The search ends with a clash when there is one, and is free otherwise.
  find_overlap-cases :
      (pool : Pool) (a b : ℕ) (pools : List Pool)
      → netip.parse_prefix pool.cidr ≡ some (Prefix.v4 a b)
      → IsPrefix (Prefix.v4 a b)
      → All Readable pools
      → ((find_overlap netip quote pool pools ≡ free)
          × ¬ (Any (Clashes pool (Prefix.v4 a b)) pools))
        ⊎ ((other : Pool) × (find_overlap netip quote pool pools ≡ overlaps other)
            × Any (Clashes pool (Prefix.v4 a b)) pools)
  unfolding find_overlap
  find_overlap-cases pool a b [] e p t = inl (refl, λ n. n)
  find_overlap-cases pool a b (other ∷ pools) e p ((x, y, f, q), t) =
      let ih = find_overlap-cases pool a b pools e p t in
      let (r, o, c) = masked-Shared a b x y p q in
      elim (Bool-cases (is_sibling pool other)) [
        | inr s ↦ elim ih [
          | inl (g, n) ↦ inl (rw s g, λ m. elim m [ inl k ↦ absurd (cc (k.0)) | inr k ↦ n k ])
          | inr (w, g, n) ↦ inr (w, rw s g, inr n)
        ]
        | inl s ↦ elim (Bool-cases r) [
          | inl u ↦ inr (other, rw (s, e, f, o, u) refl, inl (s, (Prefix.v4 x y, f, c.0 u)))
          | inr u ↦ elim ih [
            | inl (g, n) ↦ inl (
              rw (s, e, f, o, u) g,
              λ m. elim m [ inl k ↦ no_clash r other pool a b x y f c u k | inr k ↦ n k ],
            )
            | inr (w, g, n) ↦ inr (w, rw (s, e, f, o, u) g, inr n)
          ]
        ]
      ]

  -- For a child pool, where its CIDR and those of all pools are IPv4 prefixes, the check on overlaps
  -- returns and counts one check. It counts one failure exactly when a sibling, a pool of the same
  -- parent with another id, shares an address with the pool; else no failure is added.
  pub check_overlap-clash :
      (pool : Pool) (parent a b : ℕ) (pools : List Pool) (report : ComplianceReport)
      → pool.parent_id ≡ some parent
      → netip.parse_prefix pool.cidr ≡ some (Prefix.v4 a b)
      → IsPrefix (Prefix.v4 a b)
      → All Readable pools
      → (after : ComplianceReport) × (check_overlap netip quote pool pools report ≡ some after)
        × (after.total_checks ≡ report.total_checks + 1)
        × (((after.failed ≡ report.failed + 1) × Any (Clashes pool (Prefix.v4 a b)) pools)
            ⊎ ((after.failed ≡ report.failed) × ¬ (Any (Clashes pool (Prefix.v4 a b)) pools)))
  unfolding check_overlap
  check_overlap-clash pool parent a b pools report child e p t =
      elim (find_overlap-cases pool a b pools e p t) [
        | inl (f, n) ↦ (
          counted report,
          ap₂ (λ o w. overlap_result netip quote pool o w report) child f,
          refl,
          inr (refl, n),
        )
        | inr (other, f, m) ↦ (
          failing (overlap_violation netip quote pool other) (counted report),
          ap₂ (λ o w. overlap_result netip quote pool o w report) child f,
          refl,
          inl (refl, m),
        )
      ]
