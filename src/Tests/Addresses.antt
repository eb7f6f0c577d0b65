-- ===== src/Tests/Addresses.antt =====
-- The theorems on prefixes and intervals, at concrete networks.
use cloudpam.Base.{ℕ, ◌<◌, ◌≤◌, ◌≡◌, ◌↔◌, refl, arith, Bool, true, List, [], ◌∷◌, some, Any, length}
use cloudpam.Net.Ip.{Prefix, IsPrefix}
use cloudpam.Net.Ip.Block.{In}
use cloudpam.Net.Cidr
use cloudpam.Net.Cidr.{prefix_contains, last_addr-eq-last}
use cloudpam.Net.Cidr.Contains.{prefix_contains-iff-subset}
use cloudpam.Planning.Ranges.{
  Interval, find_free_ranges, merge_and_walk, sort_by_start, walk_gaps, merge_from,
}
use cloudpam.Planning.Ranges.Merge.{Covered}
use cloudpam.Planning.Ranges.Free.{
  find_free_ranges-complement, find_free_ranges-zero_start, find_free_ranges-wrapped_end,
}
use cloudpam.Planning.Cidrs.{
  range_to_cidrs, range_loop, fit_bits, trailing_zeros, bit_length, prefixes_overlap, is_rfc1918,
  rfc1918_blocks,
}
use cloudpam.Planning.Cidrs.Tiling.{Tiles, range_to_cidrs-Tiles}
use cloudpam.Planning.Cidrs.Cover.{sum_counts, range_to_cidrs-cover}
use cloudpam.Planning.Cidrs.Overlap.{Inside, prefixes_overlap-iff_common, is_rfc1918-iff_Inside}
use cloudpam.Api.Cidr.{
  ok, last_addr, validate_child_prefix, prefixes_overlap_ipv4, compute_subnets_window,
}
use cloudpam.Api.Cidr.Child.{
  last_addr-eq-cidr, validate_child_prefix_iff, prefixes_overlap_ipv4-eq-planning,
}
use cloudpam.Api.Cidr.Pages.{all_blocks, page, compute_subnets_window-page}

-- 10.0.0.0
abbrev ten : ℕ
ten = 0x0a000000

-- 10.1.0.0
abbrev ten_one : ℕ
ten_one = 0x0a010000

ten-IsPrefix : IsPrefix (Prefix.v4 ten 8)
ten-IsPrefix = (omega arith, omega arith)

ten_one-IsPrefix : IsPrefix (Prefix.v4 ten_one 16)
ten_one-IsPrefix = (omega arith, omega arith)

prefix_contains-iff-subset_example :
    (prefix_contains (Prefix.v4 ten 8) (Prefix.v4 ten_one 16) ≡ true)
    ↔ ((z : ℕ) → In (Prefix.v4 ten_one 16) z → In (Prefix.v4 ten 8) z)
prefix_contains-iff-subset_example =
    prefix_contains-iff-subset ten 8 ten_one 16 ten-IsPrefix ten_one-IsPrefix

abbrev one_child : List Interval
one_child = record { start = 4; end = 7 } ∷ []

find_free_ranges-complement_example :
    Covered 9 (find_free_ranges 0 15 one_child) ↔ ((0 ≤ 9) × (9 ≤ 15) × ¬ (Covered 9 one_child))
find_free_ranges-complement_example =
    find_free_ranges-complement 0 15 one_child (omega arith) (omega arith)
      ((omega arith, omega arith, omega arith), tt) 9

find_free_ranges_run :
    find_free_ranges 0 15 one_child
    ≡ record { start = 0; end = 3 } ∷ record { start = 8; end = 15 } ∷ []
unfolding find_free_ranges merge_and_walk sort_by_start walk_gaps merge_from
find_free_ranges_run = refl

abbrev behind : List Interval
behind = record { start = 20; end = 23 } ∷ []

find_free_ranges-zero_start_example :
    (find_free_ranges 0 15 behind ≡ []) × ((x : ℕ) → x ≤ 15 → ¬ (Covered x behind))
find_free_ranges-zero_start_example =
    find_free_ranges-zero_start 0xf behind (λ e. cc) (omega arith, tt)

abbrev to_the_end : Interval
to_the_end = record { start = 0; end = 0xffffffff }

abbrev second : Interval
second = record { start = 20; end = 23 }

find_free_ranges-wrapped_end_example :
    Covered 25 (find_free_ranges 16 31 (to_the_end ∷ second ∷ []))
    × Covered 25 (to_the_end ∷ second ∷ [])
find_free_ranges-wrapped_end_example =
    find_free_ranges-wrapped_end 16 31 25 to_the_end second (omega arith) (omega arith) refl
      (omega arith, omega arith, omega arith) (omega arith) (omega arith)

range_to_cidrs-Tiles_example : (ps : List Prefix) × (range_to_cidrs 3 12 ≡ some ps) × Tiles 3 13 ps
range_to_cidrs-Tiles_example = range_to_cidrs-Tiles 3 12 (omega arith) (omega arith)

range_to_cidrs_run :
    range_to_cidrs 3 12
    ≡ some (Prefix.v4 3 32 ∷ Prefix.v4 4 30 ∷ Prefix.v4 8 30 ∷ Prefix.v4 12 32 ∷ [])
unfolding range_to_cidrs range_loop fit_bits trailing_zeros bit_length
range_to_cidrs_run = refl

range_to_cidrs-cover_example :
    (ps : List Prefix) × (range_to_cidrs 3 12 ≡ some ps)
    × ((x : ℕ) → Any (λ p. In p x) ps ↔ ((3 ≤ x) × (x ≤ 12)))
    × (sum_counts ps ≡ 10)
range_to_cidrs-cover_example = range_to_cidrs-cover 3 12 (omega arith) (omega arith)

prefixes_overlap-iff_common_example :
    (r : Bool) × (prefixes_overlap (Prefix.v4 ten 8) (Prefix.v4 ten_one 16) ≡ some r)
    × ((r ≡ true) ↔ ((z : ℕ) × In (Prefix.v4 ten 8) z × In (Prefix.v4 ten_one 16) z))
prefixes_overlap-iff_common_example =
    prefixes_overlap-iff_common ten 8 ten_one 16 ten-IsPrefix ten_one-IsPrefix

is_rfc1918-iff_Inside_example :
    (r : Bool) × (is_rfc1918 (Prefix.v4 ten_one 16) ≡ some r)
    × ((r ≡ true) ↔ Any (Inside (Prefix.v4 ten_one 16)) rfc1918_blocks)
is_rfc1918-iff_Inside_example = is_rfc1918-iff_Inside ten_one 16 ten_one-IsPrefix

last_addr-eq-cidr_example : last_addr (Prefix.v4 ten 8) ≡ ok (Cidr.last_addr (Prefix.v4 ten 8))
last_addr-eq-cidr_example = last_addr-eq-cidr ten 8 ten-IsPrefix

validate_child_prefix_iff_example :
    (validate_child_prefix (Prefix.v4 ten 8) (Prefix.v4 ten_one 16) ≡ ok tt)
    ↔ ((8 < 16) × Inside (Prefix.v4 ten_one 16) (Prefix.v4 ten 8))
validate_child_prefix_iff_example =
    validate_child_prefix_iff ten 8 ten_one 16 ten-IsPrefix ten_one-IsPrefix

prefixes_overlap_ipv4-eq-planning_example :
    prefixes_overlap (Prefix.v4 ten 8) (Prefix.v4 ten_one 16)
    ≡ some (prefixes_overlap_ipv4 (Prefix.v4 ten 8) (Prefix.v4 ten_one 16))
prefixes_overlap_ipv4-eq-planning_example =
    prefixes_overlap_ipv4-eq-planning ten 8 ten_one 16 ten-IsPrefix ten_one-IsPrefix

compute_subnets_window-page_example :
    (compute_subnets_window (Prefix.v4 ten 8) 10 1 2 ≡ ok (page ten 8 10 1 2))
    × (length (all_blocks ten 8 10) ≡ 4)
    × ((x : ℕ) → Any (λ q. In q x) (all_blocks ten 8 10) ↔ In (Prefix.v4 ten 8) x)
compute_subnets_window-page_example =
    compute_subnets_window-page ten 8 10 ten-IsPrefix (omega arith) (omega arith) 1 2 (omega arith)
