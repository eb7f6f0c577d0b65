-- ===== src/Storage/Memory/Lookup.antt =====
-- What `GetPool` of internal/storage/store.go finds after the operations that write.
use cloudpam.Base.{
  ℕ, ◌<◌, ◌≡◌, ◌⊎◌, refl, arith, inl, inr, true, false, ◌||◌, Bool-cases, subst, Option-cases, none,
  some, ◌==◌, if◌then◌else◌, str_eq,
}
use cloudpam.Base.Table.{lookup, put, IsTable, lookup-put}
use cloudpam.Domain.{Pool, CreatePool, UpdatePool}
use cloudpam.Storage.Memory.{
  MemoryStore, get_pool, create_pool, new_pool, update_pool, updated_pool, deleted_pool, is_none,
  delete_pool, ok, err, err_validation,
}
use cloudpam.Storage.Memory.Rooted.{delete_pool-cases, delete_pool-missing}

-- What GetPool finds depends on the entry alone.
get_pool-put :
    (m : MemoryStore) (id j : ℕ) (p : Pool)
    → get_pool j (record m { pools = put id p m.pools })
      ≡ (if id == j then if is_none p.deleted_at then some p else none else get_pool j m)
unfolding get_pool
get_pool-put m id j p = ground (arith, lookup-put id j p m.pools)

-- Where every pool's id is below the counter of the store, `CreatePool` of an input that has a name
-- and a CIDR stores the pool under an id that no pool has; `GetPool` then finds it there and every
-- other pool as before. An input without one of the two is refused and the store is left.
pub create_pool-get_pool :
    (now : ℕ) (input : CreatePool) (m : MemoryStore)
    → ((id : ℕ) (p : Pool) → lookup id m.pools ≡ some p → id < m.next)
    → (((str_eq input.name "" || str_eq input.cidr "") ≡ true)
        × (create_pool now input m ≡ (err err_validation, m)))
      ⊎ ((str_eq input.name "" || str_eq input.cidr "") ≡ false)
        × ((create_pool now input m).0 ≡ ok (new_pool m.next now input))
        × (lookup m.next m.pools ≡ none)
        × ((j : ℕ)
            → get_pool j (create_pool now input m).1
              ≡ (if m.next == j then some (new_pool m.next now input) else get_pool j m))
unfolding create_pool get_pool
create_pool-get_pool now input m below =
    elim (Bool-cases (str_eq input.name "" || str_eq input.cidr "")) [
      | inl h ↦ inl (h, rw (create_pool, h) refl)
      | inr h ↦ inr (
        h,
        rw (create_pool, h) refl,
        elim (Option-cases (lookup m.next m.pools)) [
          | inl n ↦ n
          | inr (p, e) ↦ absurd (omega (arith, below m.next p e))
        ],
        λ j. rw (create_pool, h) (get_pool-put m m.next j (new_pool m.next now input)),
      )
    ]

-- Over a list of pools with distinct ids, after `DeletePool` has reported success `GetPool` finds no
-- pool under that id, and every other pool as before.
pub delete_pool-get_pool :
    (now id : ℕ) (m m' : MemoryStore)
    → IsTable m.pools
    → delete_pool now id m ≡ (ok true, m')
    → (j : ℕ) → get_pool j m' ≡ (if id == j then none else get_pool j m)
delete_pool-get_pool now id m m' t e j = elim (Option-cases (get_pool id m)) [
  | inl n ↦ absurd (cc (delete_pool-missing now id m n))
  | inr (p, n) ↦ elim (delete_pool-cases now id m p t n) [
    | inl c ↦ absurd (cc)
    | inr c ↦
        let same : record m { pools = put id (deleted_pool now p) m.pools } ≡ m' = cc in
        subst (λ a. get_pool j a ≡ (if id == j then none else get_pool j m)) same
          (get_pool-put m id j (deleted_pool now p))
  ]
]

-- `UpdatePool` of an id that the store has, be the pool live or deleted, returns the pool as it
-- was written, and `GetPool` then finds what was written if the pool is live and nothing if it is
-- deleted; every other pool is found as before.
pub update_pool-get_pool :
    (now id : ℕ) (update : UpdatePool) (m : MemoryStore) (p : Pool)
    → lookup id m.pools ≡ some p
    → ((update_pool now id update m).0 ≡ some (updated_pool now update p))
      × ((j : ℕ)
          → get_pool j (update_pool now id update m).1 ≡ (
              if id == j
              then if is_none p.deleted_at then some (updated_pool now update p) else none
              else get_pool j m))
unfolding update_pool
update_pool-get_pool now id update m p e = (
  rw (update_pool, e) refl,
  λ j. rw (update_pool, e) (get_pool-put m id j (updated_pool now update p)),
)
