-- ===== src/Planning/Gaps/Available.antt =====
-- The available blocks of `AnalyzeGaps` are what no child holds.
use cloudpam.Base.{
  ℕ, ◌+◌, ◌≤◌, ◌<◌, ◌≡◌, ◌↔◌, ◌⊎◌, refl, subst, arith, inl, inr, Bool-cases, le_or_lt, false, some,
  List, [], ◌∷◌, ◌++◌, All, Any, ltb, leb, ◌==◌, not, ◌&&◌, ◌||◌, ◌%◌, if◌then◌else◌,
}
use cloudpam.Net.Ip.{Prefix, IsPrefix}
use cloudpam.Net.Ip.Block.{first, last, In, block_pos}
use cloudpam.Net.Cidr.{Netip}
use cloudpam.Domain.{Pool}
use cloudpam.Planning.Ranges.{
  Interval, u32_mod, sort_by_start, merge_from, tail_gap, gap_before, walk_gaps, merge_and_walk,
  find_free_ranges,
}
use cloudpam.Planning.Ranges.Merge.{Covered, Within}
use cloudpam.Planning.Ranges.Free.{find_free_ranges-complement}
use cloudpam.Planning.Cidrs.{range_to_cidrs, range_loop}
use cloudpam.Planning.Cidrs.Cover.{range_to_cidrs-cover}
use cloudpam.Planning.Cidrs.Overlap.{span, masked-span, first_fits}
use cloudpam.Planning.Gaps.{child_intervals, blocks_of, available_blocks}

-- No range of the list ends behind `pe`.
abbrev pub EndBy : ℕ → List Interval → Type 0
EndBy pe = All (λ (i : Interval). i.end ≤ pe)

tail_gap-EndBy : (cursor pe : ℕ) → EndBy pe (tail_gap cursor pe)
tail_gap-EndBy cursor pe = elim (Bool-cases (not (cursor == 0) && leb cursor pe)) [
  | inl h ↦ rw h (omega arith, tt)
  | inr h ↦ rw h tt
]

gap_before-EndBy :
    (cursor start pe : ℕ) (gaps : List Interval)
    → start ≤ pe
    → EndBy pe gaps
    → EndBy pe (gap_before cursor start gaps)
gap_before-EndBy cursor start pe gaps l h = elim (Bool-cases (ltb cursor start)) [
  | inl e ↦ rw e (omega arith, h)
  | inr e ↦ rw e h
]

clamped_le :
    (ps pe : ℕ) (m : Interval)
    → ps ≤ pe
    → (ltb m.end ps || ltb pe m.start) ≡ false
    → (if ltb m.start ps then ps else m.start) ≤ pe
clamped_le ps pe m l h = ground arith

-- No free range ends behind the parent.
walk_gaps-EndBy :
    (ps pe cursor : ℕ) (ms : List Interval) → ps ≤ pe → EndBy pe (walk_gaps ps pe cursor ms)
unfolding walk_gaps
walk_gaps-EndBy ps pe cursor [] l = tail_gap-EndBy cursor pe
walk_gaps-EndBy ps pe cursor (m ∷ ms) l =
    let m_end = if ltb pe m.end then pe else m.end in
    let next = (m_end + 1) % u32_mod in
    elim (Bool-cases (ltb m.end ps || ltb pe m.start)) [
      | inl h ↦ rw h (walk_gaps-EndBy ps pe cursor ms l)
      | inr h ↦ rw h (
          gap_before-EndBy cursor _ pe _ (clamped_le ps pe m l h) (elim (Bool-cases (next == 0)) [
            | inl e ↦ rw e (tail_gap-EndBy 0 pe)
            | inr e ↦ rw e (walk_gaps-EndBy ps pe next ms l)
          ]))
    ]

merge_and_walk-EndBy :
    (ps pe : ℕ) (cs : List Interval) → ps ≤ pe → EndBy pe (merge_and_walk ps pe cs)
unfolding merge_and_walk
merge_and_walk-EndBy ps pe [] l = (omega arith, tt)
merge_and_walk-EndBy ps pe (c ∷ cs) l = walk_gaps-EndBy ps pe ps (merge_from c cs) l

-- A range falls into blocks that hold its addresses, also when it is empty.
range_to_cidrs-In :
    (s e : ℕ)
    → e < u32_mod
    → (ps : List Prefix) × (range_to_cidrs s e ≡ some ps)
      × ((x : ℕ) → Any (λ p. In p x) ps ↔ ((s ≤ x) × (x ≤ e)))
unfolding range_to_cidrs range_loop
range_to_cidrs-In s e h = elim (le_or_lt s e) [
  | inl l ↦ let (ps, f, c, n) = range_to_cidrs-cover s e l h in (ps, f, c)
  | inr l ↦ (
    [],
    (let f : leb s e ≡ false = ground arith in rw f refl),
    λ x. (λ m. absurd m, λ p. absurd (omega arith)),
  )
]

module _ {ℓ} {A : Type ℓ} where
  Any-append : (P : A → Type 0) (xs ys : List A) → Any P (xs ++ ys) ↔ (Any P xs ⊎ Any P ys)
  Any-append P [] ys = (λ h. inr h, λ h. elim h [ inl e ↦ absurd e | inr h ↦ h ])
  Any-append P (x ∷ xs) ys =
      let ih = Any-append P xs ys in
      (
        λ h. elim h [
          | inl p ↦ inl (inl p)
          | inr q ↦ elim (ih.0 q) [ inl m ↦ inl (inr m) | inr m ↦ inr m ]
        ],
        λ h. elim h [
          | inl m ↦ elim m [ inl p ↦ inl p | inr q ↦ inr (ih.1 (inl q)) ]
          | inr m ↦ inr (ih.1 (inr m))
        ],
      )

-- The blocks of some ranges hold the addresses of the ranges.
blocks_of-In :
    (pe : ℕ) (rs : List Interval)
    → pe < u32_mod
    → EndBy pe rs
    → (ps : List Prefix) × (blocks_of rs ≡ some ps)
      × ((x : ℕ) → Any (λ p. In p x) ps ↔ Covered x rs)
unfolding blocks_of
blocks_of-In pe [] h ends = ([], refl, λ x. (λ m. m, λ m. m))
blocks_of-In pe (r ∷ rs) h ends =
    let (ps, e, c) = range_to_cidrs-In r.start r.end (omega (arith, ends.0)) in
    let (qs, f, d) = blocks_of-In pe rs h ends.1 in
    (
      ps ++ qs,
      rw (blocks_of, e, f) refl,
      λ x.
          let both = Any-append (λ p. In p x) ps qs in
          (
            λ m. elim (both.0 m) [ inl i ↦ inl ((c x).0 i) | inr i ↦ inr ((d x).0 i) ],
            λ m. both.1 (elim m [ inl i ↦ inl ((c x).1 i) | inr i ↦ inr ((d x).1 i) ]),
          ),
    )

module _ (netip : Netip) (a b : ℕ) where
  -- The child has the prefix, an IPv4 one that lies within the parent.
  pub record Fits (child : Pool) : Type 0 where
    pub addr : ℕ
    pub len : ℕ
    pub parsed : netip.parse_prefix child.cidr ≡ some (Prefix.v4 addr len)
    pub prefix : IsPrefix (Prefix.v4 addr len)
    pub from : first a b ≤ first addr len
    pub to : last addr len ≤ last a b

  -- The address belongs to the CIDR of the child.
  abbrev pub Holds : ℕ → Pool → Type 0
  Holds z child = (p : Prefix) × (netip.parse_prefix child.cidr ≡ some p) × In p z

  child_intervals-Covered :
      (children : List Pool)
      → All Fits children
      → (cs : List Interval) × (child_intervals netip children ≡ some cs)
        × All (Within (first a b) (last a b)) cs
        × ((z : ℕ) → Covered z cs ↔ Any (Holds z) children)
  unfolding child_intervals
  child_intervals-Covered [] t = ([], refl, tt, λ z. (λ m. m, λ m. m))
  child_intervals-Covered (child ∷ children) (f, t) =
      let (cs, e, w, c) = child_intervals-Covered children t in
      let own = masked-span f.addr f.len f.prefix.0 f.prefix.1 in
      (
        span f.addr f.len ∷ cs,
        rw (child_intervals, f.parsed, own, e) refl,
        ((f.from, omega (arith, block_pos f.len), f.to), w),
        λ z. (
          λ m. elim m [
            | inl i ↦ inl (Prefix.v4 f.addr f.len, f.parsed, i)
            | inr i ↦ inr ((c z).0 i)
          ],
          λ m. elim m [
            | inl (p, q, i) ↦
                let same : p ≡ Prefix.v4 f.addr f.len = ground arith in
                inl (subst (λ r. In r z) same i)
            | inr i ↦ inr ((c z).1 i)
          ],
        ),
      )

  -- For an IPv4 parent whose children are IPv4 and lie within it, the gap analysis returns blocks,
  -- and an address lies in one of them exactly when it is one of the parent that no child holds.
  pub available_blocks-free :
      (children : List Pool)
      → IsPrefix (Prefix.v4 a b)
      → All Fits children
      → (ps : List Prefix) × (available_blocks netip (Prefix.v4 a b) children ≡ some ps)
        × ((z : ℕ) → Any (λ p. In p z) ps ↔ (In (Prefix.v4 a b) z × ¬ (Any (Holds z) children)))
  unfolding available_blocks find_free_ranges
  available_blocks-free children valid fit =
      let (cs, e, w, c) = child_intervals-Covered children fit in
      let own = masked-span a b valid.0 valid.1 in
      let ends : last a b < u32_mod = omega (arith, first_fits a b valid.0 valid.1, block_pos b) in
      let range : first a b ≤ last a b = omega (arith, block_pos b) in
      let (ps, f, d) =
        blocks_of-In (last a b) (find_free_ranges (first a b) (last a b) cs) ends
          (merge_and_walk-EndBy (first a b) (last a b) (sort_by_start cs) range) in
      (
        ps,
        rw (available_blocks, own, e) f,
        λ z.
            let free = find_free_ranges-complement (first a b) (last a b) cs ends range w z in
            (
              λ m. let (l, h, n) = free.0 ((d z).0 m) in ((l, h), λ k. n ((c z).1 k)),
              λ (i, n). (d z).1 (free.1 (i.0, i.1, λ k. n ((c z).0 k))),
            ),
      )
