-- ===== src/Planning/Ranges/Free.antt =====
-- The free ranges that `findFreeRanges` reports, against the addresses that no child covers.
use cloudpam.Base.{
  ℕ, ◌+◌, ◌-◌, ◌%◌, ◌≤◌, ◌<◌, ◌≡◌, ◌≢◌, ◌↔◌, ◌⊎◌, inl, inr, refl, false, Bool-cases, le_or_lt, List,
  [], ◌∷◌, All, arith, ltb, leb, ◌==◌, if◌then◌else◌, ==_iff,
}
use cloudpam.Planning.Ranges.{
  Interval, u32_mod, insert_by_start, sort_by_start, merge_from, extend_last, walk_gaps,
  merge_and_walk, find_free_ranges,
}
use cloudpam.Planning.Ranges.Merge.{
  Covered, IsSorted, Within, After, IsApart, sort-Covered, sort-All, sort-IsSorted, merge-Covered,
  merge-IsApart, merge-After,
}

After-not-Covered : (x k : ℕ) (cs : List Interval) → After k cs → x < k → ¬ (Covered x cs)
After-not-Covered x k [] a l h = h
After-not-Covered x k (c ∷ cs) a l (inl h) = omega arith
After-not-Covered x k (c ∷ cs) a l (inr h) = After-not-Covered x k cs a.1 l h

-- The addresses that the walk should report.
abbrev Free : ℕ → ℕ → ℕ → List Interval → Type 0
Free lo hi x cs = (lo ≤ x) × (x ≤ hi) × ¬ (Covered x cs)

-- An interval in sight of the walk is neither skipped nor clamped.
walk_step :
    (ps pe cursor : ℕ) (m : Interval) (ms : List Interval)
    → ps ≤ cursor
    → Within cursor pe m
    → walk_gaps ps pe cursor (m ∷ ms) ≡ (
        if ltb cursor m.start
        then record { start = cursor; end = m.start - 1 }
          ∷ (if (m.end + 1) % u32_mod == 0 then [] else walk_gaps ps pe ((m.end + 1) % u32_mod) ms)
        else if (m.end + 1) % u32_mod == 0
        then []
        else walk_gaps ps pe ((m.end + 1) % u32_mod) ms)
unfolding walk_gaps
walk_step ps pe cursor m ms l w = ground arith

gap_Covered :
    (x cursor start : ℕ) (gaps : List Interval)
    → cursor ≤ start
    → Covered x
        (if ltb cursor start then record { start = cursor; end = start - 1 } ∷ gaps else gaps)
      ↔ ((cursor ≤ x) × (x < start) ⊎ Covered x gaps)
gap_Covered x cursor start gaps l = elim (Bool-cases (ltb cursor start)) [
  | inl e ↦ rw e (ground arith)
  | inr e ↦ rw e (ground arith)
]

wraps_not : (n : ℕ) → ((n + 1) % u32_mod == 0) ≡ false → n < u32_mod → (n + 1) % u32_mod ≡ n + 1
wraps_not n e l = ground arith

merge_from_ne : (last : Interval) (cs : List Interval) → merge_from last cs ≢ []
unfolding merge_from
merge_from_ne last [] = λ e. cc
merge_from_ne last (c ∷ cs) = elim (Bool-cases (leb c.start ((last.end + 1) % u32_mod))) [
  | inl e ↦ rw e (merge_from_ne (extend_last last c) cs)
  | inr e ↦ rw e (λ h. cc)
]

walk-Covered :
    (ps pe x cursor : ℕ) (ms : List Interval)
    → pe < u32_mod
    → ps ≤ cursor
    → (cursor ≢ 0) ⊎ (ms ≢ [])
    → IsApart cursor pe ms
    → Covered x (walk_gaps ps pe cursor ms) ↔ Free cursor pe x ms
walk-Covered ps pe x cursor [] l k (inl nonzero) a =
    unfold walk_gaps in (λ h. ground arith, λ h. ground arith)
walk-Covered ps pe x cursor [] l k (inr full) a = absurd (full refl)
walk-Covered ps pe x cursor (m ∷ ms) l k c a =
    let later = λ (lt : x < m.start). After-not-Covered x m.start ms a.1 lt in
    elim (Bool-cases ((m.end + 1) % u32_mod == 0)) [
      | inl wraps ↦
          let w = (==_iff _ _).0 wraps in
          let g = gap_Covered x cursor m.start [] a.0.0 in
          rw (walk_step ps pe cursor m ms k a.0, wraps)
            (
              λ h. elim (g.0 h) [
                | inl p ↦
                    (p.0, omega arith, λ q. elim q [ inl r ↦ omega arith | inr r ↦ later p.1 r ])
                | inr b ↦ absurd b
              ],
              λ f. elim (le_or_lt m.start x) [
                | inr p ↦ g.1 (inl (f.0, p))
                | inl p ↦ absurd (f.2 (inl (p, omega (arith, f.1))))
              ],
            )
      | inr goes ↦
          let w = wraps_not m.end goes (omega arith) in
          let rest = walk_gaps ps pe (m.end + 1) ms in
          let g = gap_Covered x cursor m.start rest a.0.0 in
          let ih =
            walk-Covered ps pe x (m.end + 1) ms l (omega arith) (inl (omega arith))
              (elim a.2 [ inl e ↦ absurd (omega arith) | inr r ↦ r ]) in
          rw (walk_step ps pe cursor m ms k a.0, goes, w)
            (
              λ h. elim (g.0 h) [
                | inl p ↦
                    (p.0, omega arith, λ q. elim q [ inl r ↦ omega arith | inr r ↦ later p.1 r ])
                | inr r ↦
                    let f = ih.0 r in
                    (omega arith, f.1, λ q. elim q [ inl r ↦ omega arith | inr r ↦ f.2 r ])
              ],
              λ f. elim (le_or_lt m.start x) [
                | inr p ↦ g.1 (inl (f.0, p))
                | inl p ↦ elim (le_or_lt x m.end) [
                  | inl q ↦ absurd (f.2 (inl (p, q)))
                  | inr q ↦ g.1 (inr (ih.1 (omega arith, f.1, λ r. f.2 (inr r))))
                ]
              ],
            )
    ]

Within-widen :
    (lo hi : ℕ) (cs : List Interval)
    → hi < u32_mod
    → All (Within lo hi) cs
    → All (Within 0 (u32_mod - 1)) cs
Within-widen lo hi [] l w = tt
Within-widen lo hi (c ∷ cs) l w = (omega arith, Within-widen lo hi cs l w.1)

merged_lem :
    (lo hi x : ℕ) (cs : List Interval)
    → hi < u32_mod
    → lo ≤ hi
    → IsSorted cs
    → All (Within lo hi) cs
    → Covered x (merge_and_walk lo hi cs) ↔ Free lo hi x cs
unfolding merge_and_walk
merged_lem lo hi x [] l r s w = (λ h. ground arith, λ h. ground arith)
merged_lem lo hi x (c ∷ cs) l r s w =
    let m = merge-Covered x c cs (omega arith) s (Within-widen lo hi cs l w.1) in
    let a = merge-IsApart lo hi c cs l s w in
    let k =
      walk-Covered lo hi x lo (merge_from c cs) l (omega arith) (inr (merge_from_ne c cs)) a in
    (λ h. let f = k.0 h in (f.0, f.1, λ q. f.2 (m.1 q)), λ f. k.1 (f.0, f.1, λ q. f.2 (m.0 q)))

module _ (lo hi : ℕ) (children : List Interval) (fits : hi < u32_mod) (range : lo ≤ hi)
    (inside : All (Within lo hi) children) where
  -- An address lies in a reported free range exactly when it is an address of the parent that no
  -- child covers, for children that lie within the parent.
  pub find_free_ranges-complement :
      (x : ℕ)
      → Covered x (find_free_ranges lo hi children) ↔ ((lo ≤ x) × (x ≤ hi) × ¬ (Covered x children))
  unfolding find_free_ranges
  find_free_ranges-complement x =
      let s = sort-Covered x children in
      let m =
        merged_lem lo hi x (sort_by_start children) fits range (sort-IsSorted children)
          (sort-All (Within lo hi) children inside) in
      (λ h. let f = m.0 h in (f.0, f.1, λ c. f.2 (s.1 c)), λ f. m.1 (f.0, f.1, λ c. f.2 (s.0 c)))

insert_ne : (c : Interval) (cs : List Interval) → insert_by_start c cs ≢ []
unfolding insert_by_start
insert_ne c [] = λ e. cc
insert_ne c (d ∷ ds) = λ e. ground arith

sort_ne : (cs : List Interval) → cs ≢ [] → sort_by_start cs ≢ []
unfolding sort_by_start
sort_ne [] n = n
sort_ne (c ∷ cs) n = insert_ne c (sort_by_start cs)

skip_all : (hi : ℕ) (ms : List Interval) → After (hi + 1) ms → walk_gaps 0 hi 0 ms ≡ []
unfolding walk_gaps
skip_all hi [] a = refl
skip_all hi (m ∷ ms) a = ground (arith, skip_all hi ms a.1)

nonempty_walk :
    (hi : ℕ) (cs : List Interval) → cs ≢ [] → After (hi + 1) cs → merge_and_walk 0 hi cs ≡ []
unfolding merge_and_walk
nonempty_walk hi [] n a = absurd (n refl)
nonempty_walk hi (c ∷ cs) n a = skip_all hi (merge_from c cs) (merge-After (hi + 1) c cs a.0 a.1)

-- A parent that starts at address 0, with children all of which lie behind it, is reported to
-- have no free range, although none of its addresses is covered.
pub find_free_ranges-zero_start :
    (hi : ℕ) (children : List Interval)
    → children ≢ []
    → After (hi + 1) children
    → (find_free_ranges 0 hi children ≡ []) × ((x : ℕ) → x ≤ hi → ¬ (Covered x children))
unfolding find_free_ranges
find_free_ranges-zero_start hi children n a = (
  nonempty_walk hi (sort_by_start children) (sort_ne children n)
      (sort-All (λ (d : Interval). hi + 1 ≤ d.start) children a),
  λ x l. After-not-Covered x (hi + 1) children a (omega arith),
)

-- A child that reaches from before the parent to the last IPv4 address hides the parent, and the
-- merge does not join a second child to it: what lies behind the second child is reported free.
pub find_free_ranges-wrapped_end :
    (lo hi x : ℕ) (c d : Interval)
    → hi < u32_mod - 1
    → c.start ≤ lo
    → c.end ≡ u32_mod - 1
    → Within (lo + 1) hi d
    → d.end < x
    → x ≤ hi
    → Covered x (find_free_ranges lo hi (c ∷ d ∷ [])) × Covered x (c ∷ d ∷ [])
unfolding find_free_ranges merge_and_walk merge_from walk_gaps sort_by_start
find_free_ranges-wrapped_end lo hi x c d h s e w l m = (ground arith, ground arith)
