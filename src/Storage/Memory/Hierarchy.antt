-- ===== src/Storage/Memory/Hierarchy.antt =====
-- `GetPoolHierarchy` of internal/storage/store.go: the pools as trees. The recursion runs on fuel,
-- one level for each pool and one more; `none` is a recursion that goes deeper.
use cloudpam.Base.{ℕ, zero, suc, Bool, ◌&&◌, Option, none, some, [], ◌∷◌, length, if◌then◌else◌}
use cloudpam.Base.Table.{Table, lookup}
use cloudpam.Net.Cidr.{Netip}
use cloudpam.Domain.{Pool}
use cloudpam.Storage.Memory.{
  MemoryStore, Result, ok, err, err_not_found, get_pool, is_child_of, is_none,
}
use cloudpam.Storage.Memory.Stats.{Floats, PoolStats, calculate_pool_stats}

-- PoolWithStats: a pool, its statistics and its children
mutual
  pub data PoolTree (F : Type 0) : Type 0 where
    node : Pool → PoolStats F → PoolTrees F → PoolTree F

  pub data PoolTrees (F : Type 0) : Type 0 where
    no_trees : PoolTrees F
    tree : PoolTree F → PoolTrees F → PoolTrees F

-- The pool that Go's map gives for a missing key
abbrev pub zero_pool : Pool
zero_pool = record {
  id = 0;
  name = "";
  cidr = "";
  parent_id = none;
  account_id = none;
  type = "";
  status = "";
  source = "";
  description = "";
  tags = none;
  created_at = 0;
  updated_at = 0;
  deleted_at = none;
}

abbrev pub pool_or_zero : Option Pool → Pool
pool_or_zero none = zero_pool
pool_or_zero (some p) = p

module _ (F : Type 0) where
  abbrev tree_some : Option (PoolTree F) → Option (PoolTrees F) → Option (PoolTrees F)
  tree_some none ts = none
  tree_some (some t) none = none
  tree_some (some t) (some ts) = some (tree t ts)

  -- The trees of the pools that pass a test, in the order of the map
  unfoldable pub trees_of :
      (ℕ → Option (PoolTree F)) → (ℕ → Pool → Bool) → Table Pool → Option (PoolTrees F)
  trees_of build wanted [] = some no_trees
  trees_of build wanted ((id, p) ∷ rest) =
      let others = trees_of build wanted rest in
      if wanted id p then tree_some (build p.id) others else others

  abbrev pub node_some : Pool → Option (PoolStats F) → Option (PoolTrees F) → Option (PoolTree F)
  node_some p none children = none
  node_some p (some stats) none = none
  node_some p (some stats) (some children) = some (node p stats children)

-- A live pool without a parent
abbrev pub is_top : ℕ → Pool → Bool
is_top id p = is_none p.parent_id && is_none p.deleted_at

module _ (netip : Netip) (floats : Floats) where
  -- buildTree
  unfoldable pub build_tree : ℕ → MemoryStore → ℕ → Option (PoolTree floats.Float)
  unfolding calculate_pool_stats trees_of
  build_tree zero m pid = none
  build_tree (suc fuel) m pid =
      let p = pool_or_zero (lookup pid m.pools) in
      node_some floats.Float p (calculate_pool_stats netip floats p m)
        (trees_of floats.Float (build_tree fuel m) (is_child_of pid) m.pools)

  -- GetPoolHierarchy; `none` inside the result is an error.
  unfoldable pub get_pool_hierarchy :
      Option ℕ → MemoryStore → Option (Result (PoolTrees floats.Float))
  unfolding build_tree trees_of get_pool
  get_pool_hierarchy none m =
      elim (trees_of floats.Float (build_tree (suc (length m.pools)) m) is_top m.pools) [
        | none ↦ none
        | some ts ↦ some (ok ts)
      ]
  get_pool_hierarchy (some root) m = elim (get_pool root m) [
    | none ↦ some (err err_not_found)
    | some p ↦ elim (build_tree (suc (length m.pools)) m root) [
      | none ↦ none
      | some t ↦ some (ok (tree t no_trees))
    ]
  ]
