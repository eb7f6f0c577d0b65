-- ===== src/Planning/Ranges.antt =====
-- Address ranges of internal/planning: `interval` and `prefixToInterval` (types.go), the free
-- ranges of a pool (`findFreeRanges`, gaps.go). A uint32 keeps its wrap-around.
pub mod Free
pub mod Merge
use cloudpam.Base.{
  ℕ, zero, suc, ◌+◌, ◌-◌, ◌%◌, ◌^◌, ◌≤◌, Bool, true, false, not, ◌&&◌, ◌||◌, Option, none, some,
  List, [], ◌∷◌, ltb, leb, ◌==◌, if◌then◌else◌,
}
use cloudpam.Net.Ip.{Addr, Prefix, prefix_addr, bits, masked, as4}

abbrev pub u32_mod : ℕ
u32_mod = 2 ^ 32

-- interval: both ends belong to it
pub record Interval : Type 0 where
  pub start : ℕ
  pub end : ℕ

-- prefixToInterval; `none` is the panic of `As4` or of a negative shift.
unfoldable pub prefix_to_interval : Prefix → Option Interval
prefix_to_interval p = elim (as4 (prefix_addr (masked p))) [
  | none ↦ none
  | some start ↦
      if ltb 32 (bits p)
      then none
      else some (record {
        start = start;
        end = (start + 2 ^ (32 - bits p) % u32_mod + u32_mod - 1) % u32_mod;
      })
]

-- sort.Slice by `start`, as an insertion sort
unfoldable pub insert_by_start : Interval → List Interval → List Interval
insert_by_start c [] = c ∷ []
insert_by_start c (d ∷ ds) = if leb c.start d.start then c ∷ d ∷ ds else d ∷ insert_by_start c ds

unfoldable pub sort_by_start : List Interval → List Interval
unfolding insert_by_start
sort_by_start [] = []
sort_by_start (c ∷ cs) = insert_by_start c (sort_by_start cs)

-- if c.end > last.end { last.end = c.end }
unfoldable pub extend_last : Interval → Interval → Interval
extend_last last c = if ltb last.end c.end then record last { end = c.end } else last

-- The merging loop, from the last merged interval on. `last.end+1` wraps.
unfoldable pub merge_from : Interval → List Interval → List Interval
merge_from last [] = last ∷ []
merge_from last (c ∷ cs) =
    let merged = merge_from (extend_last last c) cs in
    let apart = last ∷ merge_from c cs in
    if leb c.start ((last.end + 1) % u32_mod) then merged else apart

-- The gap after the last interval.
abbrev pub tail_gap : ℕ → ℕ → List Interval
tail_gap cursor parent_end =
    if not (cursor == 0) && leb cursor parent_end
    then record { start = cursor; end = parent_end } ∷ []
    else []

-- The gap before an interval, in front of the later gaps.
abbrev pub gap_before : ℕ → ℕ → List Interval → List Interval
gap_before cursor start gaps =
    if ltb cursor start then record { start = cursor; end = start - 1 } ∷ gaps else gaps

-- The walk over the merged intervals, clamped to the parent. At a wrapped cursor the loop breaks.
unfoldable pub walk_gaps : ℕ → ℕ → ℕ → List Interval → List Interval
walk_gaps parent_start parent_end cursor [] = tail_gap cursor parent_end
walk_gaps parent_start parent_end cursor (m ∷ ms) =
    let skipped = walk_gaps parent_start parent_end cursor ms in
    let m_start = if ltb m.start parent_start then parent_start else m.start in
    let m_end = if ltb parent_end m.end then parent_end else m.end in
    let next = (m_end + 1) % u32_mod in
    let rest = walk_gaps parent_start parent_end next ms in
    if ltb m.end parent_start || ltb parent_end m.start
    then skipped
    else gap_before cursor m_start (if next == 0 then tail_gap 0 parent_end else rest)

-- findFreeRanges after the sort
unfoldable pub merge_and_walk : ℕ → ℕ → List Interval → List Interval
merge_and_walk parent_start parent_end [] = record { start = parent_start; end = parent_end } ∷ []
merge_and_walk parent_start parent_end (c ∷ cs) =
    walk_gaps parent_start parent_end parent_start (merge_from c cs)

-- findFreeRanges
unfoldable pub find_free_ranges : ℕ → ℕ → List Interval → List Interval
find_free_ranges parent_start parent_end children =
    merge_and_walk parent_start parent_end (sort_by_start children)
