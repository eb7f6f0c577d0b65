-- ===== src/Planning/Resolve/Ends.antt =====
-- The descent of `resolvePools` of internal/planning/compliance.go ends: each round takes a pool off
-- the queue, and only a pool that was not seen is put on it.
use cloudpam.Base.{
  ℕ, zero, suc, ◌+◌, ◌≤◌, ◌<◌, ◌≡◌, ◌⊎◌, refl, ap, arith, inl, inr, Bool-cases, Option-cases, Bool,
  true, false, some, List, [], ◌∷◌, length, length-append, All, Any, if◌then◌else◌,
}
use cloudpam.Base.Table.{Table}
use cloudpam.Domain.{Pool}
use cloudpam.Storage.Memory.{MemoryStore, get_pool, is_child_of, children_in, get_pool_children}
use cloudpam.Planning.Resolve.{
  Walk, is_seen, visit, visit_all, children_or_none, descend, ids_of, start_of, requested_pools,
  resolve_pools,
}

-- The pools of the table that are not seen
unfoldable unseen : List ℕ → Table Pool → ℕ
unseen seen [] = 0
unseen seen ((id, p) ∷ rest) =
    let count = unseen seen rest in if is_seen p.id seen then count else count + 1

unseen-le : (seen : List ℕ) (m : Table Pool) → unseen seen m ≤ length m
unfolding unseen
unseen-le seen [] = omega arith
unseen-le seen ((id, p) ∷ m) = ground (arith, unseen-le seen m)

unseen-cons : (c : ℕ) (seen : List ℕ) (m : Table Pool) → unseen (c ∷ seen) m ≤ unseen seen m
unfolding unseen is_seen
unseen-cons c seen [] = omega arith
unseen-cons c seen ((id, p) ∷ m) = ground (arith, unseen-cons c seen m)

-- Seeing a pool of the table for the first time leaves fewer to see.
unseen-less :
    (c : Pool) (seen : List ℕ) (m : Table Pool)
    → Any (λ e. e.1 ≡ c) m
    → is_seen c.id seen ≡ false
    → unseen (c.id ∷ seen) m < unseen seen m
unfolding unseen is_seen
unseen-less c seen [] a n = absurd a
unseen-less c seen ((id, p) ∷ m) (inl e) n =
    let same = ap (λ x. x.id) e in
    let more = unseen-cons c.id seen m in ground (arith, ap (λ i. is_seen i seen) same)
unseen-less c seen ((id, p) ∷ m) (inr a) n = ground (arith, unseen-less c seen m a n)

abbrev left_to_do : MemoryStore → Walk → ℕ
left_to_do m w = length w.queue + unseen w.seen m.pools

visit-left :
    (m : MemoryStore) (c : Pool) (w : Walk)
    → Any (λ e. e.1 ≡ c) m.pools
    → left_to_do m (visit c w) ≤ left_to_do m w
unfolding visit
visit-left m c w a = elim (Bool-cases (is_seen c.id w.seen)) [
  | inl e ↦ rw e (omega arith)
  | inr e ↦
      rw e (omega (arith, unseen-less c w.seen m.pools a e, length-append w.queue (c.id ∷ [])))
]

-- The pools are values of the table.
abbrev Within : MemoryStore → List Pool → Type 0
Within m = All (λ c. Any (λ e. e.1 ≡ c) m.pools)

visit_all-left :
    (m : MemoryStore) (children : List Pool) (w : Walk)
    → Within m children
    → left_to_do m (visit_all children w) ≤ left_to_do m w
unfolding visit_all
visit_all-left m [] w a = omega arith
visit_all-left m (c ∷ children) w (a, rest) =
    omega (arith, visit-left m c w a, visit_all-left m children (visit c w) rest)

All-later :
    (p : ℕ × Pool) (m : Table Pool) (cs : List Pool)
    → All (λ c. Any (λ e. e.1 ≡ c) m) cs
    → All (λ c. Any (λ e. e.1 ≡ c) (p ∷ m)) cs
All-later p m [] a = tt
All-later p m (c ∷ cs) (a, rest) = (inr a, All-later p m cs rest)

children_in-Within : (id : ℕ) (m : Table Pool) → All (λ c. Any (λ e. e.1 ≡ c) m) (children_in id m)
unfolding children_in
children_in-Within id [] = tt
children_in-Within id ((pid, p) ∷ m) = elim (Bool-cases (is_child_of id pid p)) [
  | inl e ↦ rw e (inl refl, All-later (pid, p) m (children_in id m) (children_in-Within id m))
  | inr e ↦ rw e (All-later (pid, p) m (children_in id m) (children_in-Within id m))
]

children-Within : (id : ℕ) (m : MemoryStore) → Within m (children_or_none (get_pool_children id m))
unfolding get_pool_children
children-Within id m = elim (Option-cases (get_pool id m)) [
  | inl n ↦ rw (get_pool_children, n) tt
  | inr (p, n) ↦ rw (get_pool_children, n) (children_in-Within id m.pools)
]

List-cases : (q : List ℕ) → (q ≡ []) ⊎ ((id : ℕ) × (rest : List ℕ) × (q ≡ id ∷ rest))
List-cases [] = inl refl
List-cases (id ∷ rest) = inr (id, rest, refl)

-- A round for each pool that is left, and one more, are enough.
enough_rounds :
    (fuel : ℕ) (m : MemoryStore) (w : Walk)
    → left_to_do m w < fuel
    → (ps : List Pool) × (descend fuel m w ≡ some ps)
unfolding descend
enough_rounds zero m w l = absurd (omega arith)
enough_rounds (suc fuel) m w l = elim (List-cases w.queue) [
  | inl e ↦ (w.pools, rw (descend, e) refl)
  | inr (id, queue, e) ↦
      let children = children_or_none (get_pool_children id m) in
      let popped = record w { queue = queue } in
      let less = visit_all-left m children popped (children-Within id m) in
      let (ps, f) =
        enough_rounds fuel m (visit_all children popped) (omega (arith, less, ap length e)) in
      (ps, rw (descend, e) f)
]

-- The descent from pools of a request ends.
pub resolve_pools-ends :
    (ids : List ℕ) (include_children : Bool) (m : MemoryStore) (pools : List Pool)
    → requested_pools ids m ≡ some pools
    → (ps : List Pool) × (resolve_pools ids include_children m ≡ some ps)
unfolding resolve_pools
resolve_pools-ends ids false m pools e = (pools, rw (resolve_pools, e) refl)
resolve_pools-ends ids true m pools e =
    let some_left = unseen-le (ids_of pools) m.pools in
    let (ps, f) =
      enough_rounds (suc (length (ids_of pools) + length m.pools)) m (start_of pools)
        (omega (arith, some_left)) in
    (ps, rw (resolve_pools, e) f)
