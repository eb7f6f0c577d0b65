-- ===== src/Storage/Memory/Stats.antt =====
-- The statistics and the hierarchy of internal/storage/store.go. The recursion over descendants runs
-- on fuel, one level for each pool and one more; `none` is a recursion that goes deeper, as on pools
-- that are their own ancestors. `floats` has the arithmetic in float64.
use cloudpam.Base.{
  ℕ, zero, suc, ◌+◌, ◌-◌, ◌^◌, Option, none, some, [], ◌∷◌, length, ltb, leb, if◌then◌else◌,
}
use cloudpam.Base.Ints.{ℤ, difference}
use cloudpam.Base.Table.{Table}
use cloudpam.Net.Ip.{Prefix}
use cloudpam.Net.Cidr.{Netip}
use cloudpam.Domain.{Pool}
use cloudpam.Storage.Memory.{MemoryStore, Result, ok, err, err_not_found, get_pool, is_child_of}

-- float64 with its zero and `float64(used) / float64(total) * 100`
pub record Floats : Type 1 where
  pub Float : Type 0
  pub zero_float : Float
  pub percent : ℕ → ℕ → Float

pub record PoolStats (F : Type 0) : Type 0 where
  pub total_ips : ℕ
  pub used_ips : ℕ
  pub available_ips : ℤ
  pub utilization : F
  pub child_count : ℕ
  pub direct_children : ℕ

-- The addresses of a prefix, with the cap for IPv6
abbrev pub total_of : Prefix → ℕ
total_of (Prefix.v4 a b) = 2 ^ (32 - b)
total_of (Prefix.v6 a b) = if leb 63 (128 - b) then 2 ^ 62 else 2 ^ (128 - b)
total_of Prefix.invalid = 2 ^ 62

-- What a child's CIDR uses
abbrev pub used_by : Option Prefix → ℕ
used_by none = 0
used_by (some Prefix.invalid) = 0
used_by (some (Prefix.v4 a b)) = 2 ^ (32 - b)
used_by (some (Prefix.v6 a b)) = 0

abbrev add_some : Option ℕ → Option ℕ → Option ℕ
add_some none b = none
add_some (some a) none = none
add_some (some a) (some b) = some (suc (a + b))

-- The loop of countDescendants, with the recursive call as an argument
unfoldable pub count_level : (ℕ → Option ℕ) → ℕ → Table Pool → Option ℕ
count_level count parent_id [] = some 0
count_level count parent_id ((id, child) ∷ rest) =
    let others = count_level count parent_id rest in
    if is_child_of parent_id id child then add_some (count child.id) others else others

-- countDescendants
unfoldable pub count_descendants : ℕ → Table Pool → ℕ → Option ℕ
unfolding count_level
count_descendants zero pools parent_id = none
count_descendants (suc fuel) pools parent_id =
    count_level (count_descendants fuel pools) parent_id pools

unfoldable pub direct_children : ℕ → Table Pool → ℕ
direct_children parent_id [] = 0
direct_children parent_id ((id, child) ∷ rest) =
    let count = direct_children parent_id rest in
    if is_child_of parent_id id child then count + 1 else count

module _ (netip : Netip) (floats : Floats) where
  unfoldable pub used_ips : ℕ → Table Pool → ℕ
  used_ips parent_id [] = 0
  used_ips parent_id ((id, child) ∷ rest) =
      let used = used_ips parent_id rest in
      if is_child_of parent_id id child
      then used + used_by (netip.parse_prefix child.cidr)
      else used

  abbrev pub stats_with : ℕ → ℕ → ℕ → Option ℕ → Option (PoolStats floats.Float)
  stats_with total used children none = none
  stats_with total used children (some descendants) = some (record {
    total_ips = total;
    used_ips = used;
    available_ips = difference total used;
    utilization = if ltb 0 total then floats.percent used total else floats.zero_float;
    child_count = descendants;
    direct_children = children;
  })

  -- calculatePoolStatsLocked
  unfoldable pub calculate_pool_stats : Pool → MemoryStore → Option (PoolStats floats.Float)
  unfolding count_descendants direct_children used_ips difference
  calculate_pool_stats p m = elim (netip.parse_prefix p.cidr) [
    | none ↦ some (record {
      total_ips = 0;
      used_ips = 0;
      available_ips = difference 0 0;
      utilization = floats.zero_float;
      child_count = 0;
      direct_children = 0;
    })
    | some prefix ↦
        stats_with (total_of prefix) (used_ips p.id m.pools) (direct_children p.id m.pools)
          (count_descendants (suc (length m.pools)) m.pools p.id)
  ]

  -- CalculatePoolUtilization
  unfoldable pub calculate_pool_utilization :
      ℕ → MemoryStore → Option (Result (PoolStats floats.Float))
  unfolding get_pool calculate_pool_stats
  calculate_pool_utilization id m = elim (get_pool id m) [
    | none ↦ some (err err_not_found)
    | some p ↦ elim (calculate_pool_stats p m) [ none ↦ none | some stats ↦ some (ok stats) ]
  ]

  -- GetPoolWithStats
  unfoldable pub get_pool_with_stats :
      ℕ → MemoryStore → Option (Result (Pool × PoolStats floats.Float))
  unfolding get_pool calculate_pool_stats
  get_pool_with_stats id m = elim (get_pool id m) [
    | none ↦ some (err err_not_found)
    | some p ↦ elim (calculate_pool_stats p m) [ none ↦ none | some stats ↦ some (ok (p, stats)) ]
  ]
