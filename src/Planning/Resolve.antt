-- ===== src/Planning/Resolve.antt =====
-- `resolvePools` of internal/planning/compliance.go: the pools of a request, and below them breadth
-- first. The descent runs on fuel, a round for each pool of the queue and of the store, and one more;
-- Ends shows that it ends.
pub mod Ends
use cloudpam.Base.{
  ℕ, zero, suc, ◌+◌, ◌≤◌, ◌<◌, ◌≡◌, ◌⊎◌, refl, ap, arith, inl, inr, Bool-cases, Option-cases, Bool,
  true, false, ◌||◌, Option, none, some, List, [], ◌∷◌, ◌++◌, length, length-append, All, Any, ◌==◌,
  if◌then◌else◌,
}
use cloudpam.Base.Table.{Table}
use cloudpam.Domain.{Pool}
use cloudpam.Storage.Memory.{
  MemoryStore, Result, ok, err, get_pool, list_pools, is_child_of, children_in, get_pool_children,
}

-- The pools of the ids; `none` is the error on one that is not there.
unfoldable pub pools_by_ids : List ℕ → MemoryStore → Option (List Pool)
unfolding get_pool
pools_by_ids [] m = some []
pools_by_ids (id ∷ ids) m = elim (get_pool id m) [
  | none ↦ none
  | some p ↦ elim (pools_by_ids ids m) [ none ↦ none | some ps ↦ some (p ∷ ps) ]
]

-- The state of the descent
pub record Walk : Type 0 where
  pub seen : List ℕ
  pub queue : List ℕ
  pub pools : List Pool

unfoldable pub is_seen : ℕ → List ℕ → Bool
is_seen id [] = false
is_seen id (other ∷ seen) = other == id || is_seen id seen

unfoldable pub visit : Pool → Walk → Walk
unfolding is_seen
visit c w = if is_seen c.id w.seen then w else record {
  seen = c.id ∷ w.seen;
  queue = w.queue ++ (c.id ∷ []);
  pools = w.pools ++ (c ∷ []);
}

unfoldable pub visit_all : List Pool → Walk → Walk
unfolding visit
visit_all [] w = w
visit_all (c ∷ children) w = visit_all children (visit c w)

abbrev pub children_or_none : Result (List Pool) → List Pool
children_or_none (ok children) = children
children_or_none (err e) = []

unfoldable pub descend : ℕ → MemoryStore → Walk → Option (List Pool)
unfolding visit_all get_pool_children
descend zero m w = none
descend (suc fuel) m w = elim w.queue [
  | [] ↦ some w.pools
  | id ∷ queue ↦
      descend fuel m
        (visit_all (children_or_none (get_pool_children id m)) (record w { queue = queue }))
]

unfoldable pub ids_of : List Pool → List ℕ
ids_of [] = []
ids_of (p ∷ ps) = p.id ∷ ids_of ps

abbrev pub start_of : List Pool → Walk
start_of pools = record { seen = ids_of pools; queue = ids_of pools; pools = pools }

abbrev pub requested_pools : List ℕ → MemoryStore → Option (List Pool)
requested_pools [] m = some (list_pools m)
requested_pools (id ∷ ids) m = pools_by_ids (id ∷ ids) m

-- resolvePools; `none` is the error on a pool that is not there.
unfoldable pub resolve_pools : List ℕ → Bool → MemoryStore → Option (List Pool)
unfolding pools_by_ids descend ids_of
resolve_pools ids include_children m = elim (requested_pools ids m) [
  | none ↦ none
  | some pools ↦
      if include_children
      then descend (suc (length (ids_of pools) + length m.pools)) m (start_of pools)
      else some pools
]
