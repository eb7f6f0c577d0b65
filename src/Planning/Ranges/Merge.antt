-- ===== src/Planning/Ranges/Merge.antt =====
-- The sorting and merging steps of `findFreeRanges` keep the covered addresses.
use cloudpam.Base.{
  ℕ, ◌+◌, ◌-◌, ◌%◌, ◌≤◌, ◌<◌, ◌≡◌, ◌↔◌, ◌⊎◌, inl, inr, Bool-cases, leb→le, ltb→lt, le_or_lt, List,
  [], ◌∷◌, All, Any, arith, leb,
}
use cloudpam.Planning.Ranges.{
  Interval, u32_mod, insert_by_start, sort_by_start, merge_from, extend_last,
}

abbrev pub InInterval : ℕ → Interval → Type 0
InInterval x iv = (iv.start ≤ x) × (x ≤ iv.end)

-- `x` lies in one of the intervals.
abbrev pub Covered : ℕ → List Interval → Type 0
Covered x = Any (InInterval x)

abbrev pub IsSorted : List Interval → Type 0
IsSorted [] = Unit
IsSorted (c ∷ cs) = All (λ (d : Interval). c.start ≤ d.start) cs × IsSorted cs

-- The interval lies within the range.
abbrev pub Within : ℕ → ℕ → Interval → Type 0
Within lo hi c = (lo ≤ c.start) × (c.start ≤ c.end) × (c.end ≤ hi)

insert-Covered :
    (x : ℕ) (c : Interval) (cs : List Interval)
    → Covered x (insert_by_start c cs) ↔ (InInterval x c ⊎ Covered x cs)
unfolding insert_by_start
insert-Covered x c [] = ground arith
insert-Covered x c (d ∷ ds) =
    let ih = insert-Covered x c ds in
    elim (Bool-cases (leb c.start d.start)) [
      | inl e ↦ rw e (ground arith)
      | inr e ↦ rw e (ground (arith, ih.0, ih.1))
    ]

pub sort-Covered : (x : ℕ) (cs : List Interval) → Covered x (sort_by_start cs) ↔ Covered x cs
unfolding sort_by_start
sort-Covered x [] = ground arith
sort-Covered x (c ∷ cs) =
    let ih = sort-Covered x cs in
    let k = insert-Covered x c (sort_by_start cs) in
    (λ h. ground (arith, ih.0, k.0), λ h. ground (arith, ih.1, k.1))

module _ (P : Interval → Type 0) where
  insert-All : (c : Interval) (cs : List Interval) → P c → All P cs → All P (insert_by_start c cs)
  unfolding insert_by_start
  insert-All c [] p h = (p, tt)
  insert-All c (d ∷ ds) p h = elim (Bool-cases (leb c.start d.start)) [
    | inl e ↦ rw e (p, h)
    | inr e ↦ rw e (h.0, insert-All c ds p h.1)
  ]

  pub sort-All : (cs : List Interval) → All P cs → All P (sort_by_start cs)
  unfolding sort_by_start
  sort-All [] h = h
  sort-All (c ∷ cs) h = insert-All c (sort_by_start cs) h.0 (sort-All cs h.1)

-- Intervals that start at `k` or later.
abbrev pub After : ℕ → List Interval → Type 0
After k = All (λ (d : Interval). k ≤ d.start)

After-le : (j k : ℕ) (cs : List Interval) → j ≤ k → After k cs → After j cs
After-le j k [] l h = tt
After-le j k (c ∷ cs) l h = (omega arith, After-le j k cs l h.1)

insert-IsSorted :
    (c : Interval) (cs : List Interval) → IsSorted cs → IsSorted (insert_by_start c cs)
unfolding insert_by_start
insert-IsSorted c [] h = (tt, tt)
insert-IsSorted c (d ∷ ds) h = elim (Bool-cases (leb c.start d.start)) [
  | inl e ↦ rw e ((ground arith, After-le c.start d.start ds (ground arith) h.0), h)
  | inr e ↦ rw e (
    insert-All (λ (a : Interval). d.start ≤ a.start) c ds (ground arith) h.0,
    insert-IsSorted c ds h.1,
  )
]

pub sort-IsSorted : (cs : List Interval) → IsSorted (sort_by_start cs)
unfolding sort_by_start
sort-IsSorted [] = tt
sort-IsSorted (c ∷ cs) = insert-IsSorted c (sort_by_start cs) (sort-IsSorted cs)

-- What the walk needs of the merged intervals: each lies beyond the one before, or that one ends
-- at the last address there is.
abbrev pub IsApart : ℕ → ℕ → List Interval → Type 0
IsApart lo hi [] = Unit
IsApart lo hi (m ∷ ms) =
    Within lo hi m × After m.start ms × ((m.end + 1 ≡ u32_mod) ⊎ IsApart (m.end + 1) hi ms)

Within-raise :
    (lo lo' hi : ℕ) (cs : List Interval)
    → After lo' cs
    → All (Within lo hi) cs
    → All (Within lo' hi) cs
Within-raise lo lo' hi [] a w = tt
Within-raise lo lo' hi (c ∷ cs) a w = ((a.0, w.0.1, w.0.2), Within-raise lo lo' hi cs a.1 w.1)

extend_last_lem :
    (last c : Interval)
    → ((extend_last last c).start ≡ last.start)
      × (last.end ≤ (extend_last last c).end)
      × (c.end ≤ (extend_last last c).end)
      × (((extend_last last c).end ≡ last.end) ⊎ ((extend_last last c).end ≡ c.end))
unfolding extend_last
extend_last_lem last c = ground arith

-- `c` starts inside `last` or right behind it.
abbrev Touches : Interval → Interval → Type 0
Touches last c = c.start ≤ (last.end + 1) % u32_mod

pub merge-After :
    (k : ℕ) (last : Interval) (cs : List Interval)
    → k ≤ last.start
    → After k cs
    → After k (merge_from last cs)
unfolding merge_from
merge-After k last [] l h = (l, tt)
merge-After k last (c ∷ cs) l h = elim (Bool-cases (leb c.start ((last.end + 1) % u32_mod))) [
  | inl e ↦
      rw e (merge-After k (extend_last last c) cs (omega (arith, (extend_last_lem last c).0)) h.1)
  | inr e ↦ rw e (l, merge-After k c cs h.0 h.1)
]

pub merge-Covered :
    (x : ℕ) (last : Interval) (cs : List Interval)
    → last.end < u32_mod
    → IsSorted (last ∷ cs)
    → All (Within 0 (u32_mod - 1)) cs
    → Covered x (merge_from last cs) ↔ (InInterval x last ⊎ Covered x cs)
unfolding merge_from
merge-Covered x last [] l s w = (λ h. h, λ h. h)
merge-Covered x last (c ∷ cs) l s w =
    let f = extend_last_lem last c in
    elim (Bool-cases (leb c.start ((last.end + 1) % u32_mod))) [
      | inl e ↦
          let ih =
            merge-Covered x (extend_last last c) cs (omega (arith, f.3)) (rw f.0 s.0.1, s.1.1)
              w.1 in
          let t = leb→le _ _ e in rw e (λ h. ground (arith, ih.0 h), λ h. ih.1 (grind arith))
      | inr e ↦
          let ih = merge-Covered x c cs (omega arith) s.1 w.1 in
          rw e (λ h. ground (arith, ih.0), λ h. ground (arith, ih.1))
    ]

pub merge-IsApart :
    (lo hi : ℕ) (last : Interval) (cs : List Interval)
    → hi < u32_mod
    → IsSorted (last ∷ cs)
    → All (Within lo hi) (last ∷ cs)
    → IsApart lo hi (merge_from last cs)
unfolding merge_from
merge-IsApart lo hi last [] l s w = (w.0, tt, inr tt)
merge-IsApart lo hi last (c ∷ cs) l s w =
    let f = extend_last_lem last c in
    elim (Bool-cases (leb c.start ((last.end + 1) % u32_mod))) [
      | inl e ↦ rw e (
          merge-IsApart lo hi (extend_last last c) cs l (rw f.0 s.0.1, s.1.1)
            ((omega (arith, f.0, w.0), omega (arith, f, w.0), omega (arith, f.3, w)), w.1.1))
      | inr e ↦
          let k = ltb→lt ((last.end + 1) % u32_mod) c.start (ground arith) in
          rw e (
            w.0,
            merge-After last.start c cs s.0.0 s.0.1,
            elim (le_or_lt u32_mod (last.end + 1)) [
              | inl wraps ↦ inl (omega arith)
              | inr below ↦ inr (
                  merge-IsApart (last.end + 1) hi c cs l s.1 (
                    (omega arith, w.1.0.1, w.1.0.2),
                    Within-raise lo (last.end + 1) hi cs
                        (After-le (last.end + 1) c.start cs (omega arith) s.1.0) w.1.1,
                  ))
            ],
          )
    ]
