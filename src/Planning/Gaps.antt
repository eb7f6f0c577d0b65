-- ===== src/Planning/Gaps.antt =====
-- `AnalyzeGaps` of internal/planning/gaps.go: what is free in a pool. `none` is a panic, that of
-- `As4` on an IPv6 prefix.
pub mod Available
use cloudpam.Base.{
  ℕ, ◌+◌, ◌-◌, ◌%◌, ◌^◌, String, ltb, if◌then◌else◌, Option, none, some, List, [], ◌∷◌, ◌++◌,
}
use cloudpam.Net.Ip.{Prefix, masked}
use cloudpam.Net.Cidr.{Netip}
use cloudpam.Domain.{Pool}
use cloudpam.Storage.Memory.{MemoryStore, Result, ok, err, get_pool, get_pool_children}
use cloudpam.Storage.Memory.Stats.{Floats, PoolStats, calculate_pool_utilization}
use cloudpam.Planning.Ranges.{Interval, prefix_to_interval, find_free_ranges}
use cloudpam.Planning.Cidrs.{range_to_cidrs, prefix_address_count}

abbrev pub cons_some {ℓ} : {A : Type ℓ} → Option A → Option (List A) → Option (List A)
cons_some none xs = none
cons_some (some x) none = none
cons_some (some x) (some xs) = some (x ∷ xs)

abbrev pub append_some {ℓ} : {A : Type ℓ} → Option (List A) → Option (List A) → Option (List A)
append_some none ys = none
append_some (some xs) none = none
append_some (some xs) (some ys) = some (xs ++ ys)

-- The intervals of the children; one whose CIDR cannot be parsed is left out.
unfoldable pub child_intervals : Netip → List Pool → Option (List Interval)
child_intervals netip [] = some []
child_intervals netip (child ∷ children) =
    let rest = child_intervals netip children in
    elim (netip.parse_prefix child.cidr) [
      | none ↦ rest
      | some p ↦ cons_some (prefix_to_interval (masked p)) rest
    ]

-- The blocks that the free ranges fall into
unfoldable pub blocks_of : List Interval → Option (List Prefix)
unfolding range_to_cidrs
blocks_of [] = some []
blocks_of (r ∷ ranges) = append_some (range_to_cidrs r.start r.end) (blocks_of ranges)

-- The addresses of the blocks
unfoldable pub free_addresses : List Prefix → ℕ
free_addresses [] = 0
free_addresses (p ∷ ps) = prefix_address_count p + free_addresses ps

abbrev pub free_in : Option Interval → Option (List Interval) → Option (List Prefix)
free_in (some parent) (some children) =
    blocks_of (find_free_ranges parent.start parent.end children)
free_in _ _ = none

-- AnalyzeGaps, from the parsed parent and the children on to the available blocks
unfoldable pub available_blocks : Netip → Prefix → List Pool → Option (List Prefix)
unfolding child_intervals blocks_of find_free_ranges
available_blocks netip parent children =
    free_in (prefix_to_interval (masked parent)) (child_intervals netip children)

-- GapAnalysis; a block is its prefix and its number of addresses.
pub record AllocatedBlock (F : Type 0) : Type 0 where
  pub pool_id : ℕ
  pub name : String
  pub cidr : String
  pub utilization : F

pub record GapAnalysis (F : Type 0) : Type 0 where
  pub pool_id : ℕ
  pub pool_name : String
  pub parent_cidr : String
  pub allocated_blocks : List (AllocatedBlock F)
  pub available : List Prefix
  pub total_addresses : ℕ
  pub used_addresses : ℕ
  pub free_count : ℕ
  pub utilization : F

-- What AnalyzeGaps returns: an error, a run that panics or does not end, or the analysis.
pub data GapResult (F : Type 0) : Type 0 where
  pool_not_found bad_cidr crashed : GapResult F
  analysed : GapAnalysis F → GapResult F

module _ (netip : Netip) (floats : Floats) where
  -- The utilization of a child, zero when there is none
  abbrev pub utilization_of : Option (Result (PoolStats floats.Float)) → Option floats.Float
  utilization_of none = none
  utilization_of (some (err e)) = some floats.zero_float
  utilization_of (some (ok stats)) = some stats.utilization

  abbrev pub allocated_block : Pool → floats.Float → AllocatedBlock floats.Float
  allocated_block child u = record {
    pool_id = child.id;
    name = child.name;
    cidr = child.cidr;
    utilization = u;
  }

  abbrev pub block_with : Pool → Option floats.Float → Option (AllocatedBlock floats.Float)
  block_with child none = none
  block_with child (some u) = some (allocated_block child u)

  unfoldable pub allocated_blocks :
      MemoryStore → List Pool → Option (List (AllocatedBlock floats.Float))
  unfolding calculate_pool_utilization
  allocated_blocks m [] = some []
  allocated_blocks m (child ∷ children) =
      let rest = allocated_blocks m children in
      elim (netip.parse_prefix child.cidr) [
        | none ↦ rest
        | some p ↦
            cons_some
              (block_with child
                (utilization_of (calculate_pool_utilization netip floats child.id m)))
              rest
      ]

  -- uint64 subtraction wraps.
  abbrev pub gap_analysis :
      ℕ
      → Pool
      → ℕ
      → Option (List (AllocatedBlock floats.Float))
      → Option (List Prefix)
      → GapResult floats.Float
  gap_analysis pool_id pool total none free = crashed
  gap_analysis pool_id pool total (some allocated) none = crashed
  gap_analysis pool_id pool total (some allocated) (some free) =
      let used = (total + 2 ^ 64 - free_addresses free % 2 ^ 64) % 2 ^ 64 in
      analysed (record {
        pool_id = pool_id;
        pool_name = pool.name;
        parent_cidr = pool.cidr;
        allocated_blocks = allocated;
        available = free;
        total_addresses = total;
        used_addresses = used;
        free_count = free_addresses free % 2 ^ 64;
        utilization = if ltb 0 total then floats.percent used total else floats.zero_float;
      })

  -- AnalyzeGaps
  unfoldable pub analyze_gaps : ℕ → MemoryStore → GapResult floats.Float
  unfolding get_pool available_blocks allocated_blocks free_addresses prefix_address_count
      get_pool_children
  analyze_gaps pool_id m = elim (get_pool pool_id m) [
    | none ↦ pool_not_found
    | some pool ↦ elim (netip.parse_prefix pool.cidr) [
      | none ↦ bad_cidr
      | some parent ↦ elim (get_pool_children pool_id m) [
        | err e ↦ pool_not_found
        | ok children ↦
            gap_analysis pool_id pool (prefix_address_count (masked parent))
              (allocated_blocks m children) (available_blocks netip parent children)
      ]
    ]
  ]
