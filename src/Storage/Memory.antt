-- ===== src/Storage/Memory.antt =====
-- `MemoryStore` of internal/storage/store.go: its state and the operations on pools. Each runs
-- under the store's lock, so it is one step; `now` is the clock that it reads. What an operation
-- returns is a copy (`clonePool`), which is the value itself here.
pub mod Cascade
pub mod Accounts
pub mod Rooted
pub mod Sound
pub mod Kept
pub mod Steps
pub mod Lookup
pub mod Search
pub mod Stats
pub mod Hierarchy
use cloudpam.Base.{
  ℕ, ◌+◌, String, Bool, true, false, ◌&&◌, ◌||◌, Option, none, some, List, [], ◌∷◌, map, ◌==◌,
  str_eq, if◌then◌else◌,
}
use cloudpam.Base.Table.{Table, lookup, put, some_entry}
use cloudpam.Domain.{Pool, CreatePool, UpdatePool, Account}

pub record MemoryStore : Type 0 where
  pub pools : Table Pool
  pub next : ℕ
  pub accounts : Table Account
  pub next_account : ℕ

-- NewMemoryStore
abbrev pub new_memory_store : MemoryStore
new_memory_store = record { pools = []; next = 1; accounts = []; next_account = 1 }

-- ErrValidation, ErrConflict and ErrNotFound of internal/storage/errors.go
pub data StoreError : Type 0 where
  err_validation err_conflict err_not_found : StoreError

pub data Result {ℓ} (A : Type ℓ) : Type ℓ where
  ok : A → Result A
  err : StoreError → Result A

abbrev pub is_none {ℓ} : {A : Type ℓ} → Option A → Bool
is_none none = true
is_none (some a) = false

-- A pointer that is not nil and leads to `id`.
abbrev pub points_to : ℕ → Option ℕ → Bool
points_to id none = false
points_to id (some j) = j == id

abbrev pub or_else {ℓ} : {A : Type ℓ} → Option A → A → A
or_else none old = old
or_else (some new) old = new

abbrev default_to : String → String → String
default_to s fallback = if str_eq s "" then fallback else s

-- ListPools
unfoldable pub live_pools : Table Pool → List Pool
live_pools [] = []
live_pools ((id, p) ∷ rest) =
    let live = live_pools rest in if is_none p.deleted_at then p ∷ live else live

abbrev pub list_pools : MemoryStore → List Pool
list_pools m = live_pools m.pools

-- The pool that CreatePool stores.
abbrev pub new_pool : ℕ → ℕ → CreatePool → Pool
new_pool id now input = record {
  id = id;
  name = input.name;
  cidr = input.cidr;
  parent_id = input.parent_id;
  account_id = input.account_id;
  type = default_to input.type "subnet";
  status = default_to input.status "active";
  source = default_to input.source "manual";
  description = input.description;
  tags = input.tags;
  created_at = now;
  updated_at = now;
  deleted_at = none;
}

-- CreatePool
unfoldable pub create_pool : ℕ → CreatePool → MemoryStore → Result Pool × MemoryStore
create_pool now input m =
    if str_eq input.name "" || str_eq input.cidr ""
    then (err err_validation, m)
    else (let p = new_pool m.next now input in
        (ok p, record m { pools = put m.next p m.pools; next = m.next + 1 }))

-- GetPool
unfoldable pub get_pool : ℕ → MemoryStore → Option Pool
get_pool id m = elim (lookup id m.pools) [
  | none ↦ none
  | some p ↦ if is_none p.deleted_at then some p else none
]

-- UpdatePoolAccount
unfoldable pub update_pool_account : ℕ → Option ℕ → MemoryStore → Option Pool × MemoryStore
update_pool_account id account_id m = elim (lookup id m.pools) [
  | none ↦ (none, m)
  | some p ↦
      let p' = record p { account_id = account_id } in
      (some p', record m { pools = put id p' m.pools })
]

-- UpdatePoolMeta
unfoldable pub update_pool_meta :
    ℕ → ℕ → Option String → Option ℕ → MemoryStore → Option Pool × MemoryStore
update_pool_meta now id name account_id m = elim (lookup id m.pools) [
  | none ↦ (none, m)
  | some p ↦
      let p' = record p { name = or_else name p.name; account_id = account_id; updated_at = now } in
      (some p', record m { pools = put id p' m.pools })
]

-- What UpdatePool writes.
abbrev pub updated_pool : ℕ → UpdatePool → Pool → Pool
updated_pool now update p = record p {
  name = or_else update.name p.name;
  account_id = update.account_id;
  type = or_else update.type p.type;
  status = or_else update.status p.status;
  description = or_else update.description p.description;
  tags = or_else update.tags p.tags;
  updated_at = now;
}

-- UpdatePool
unfoldable pub update_pool : ℕ → ℕ → UpdatePool → MemoryStore → Option Pool × MemoryStore
update_pool now id update m = elim (lookup id m.pools) [
  | none ↦ (none, m)
  | some p ↦ let p' = updated_pool now update p in (some p', record m { pools = put id p' m.pools })
]

-- A pool, marked as deleted.
abbrev pub deleted_pool : ℕ → Pool → Pool
deleted_pool now p = record p { deleted_at = some now; updated_at = now }

-- A live pool with this parent.
abbrev pub is_child_of : ℕ → ℕ → Pool → Bool
is_child_of id pid ch = points_to id ch.parent_id && is_none ch.deleted_at

-- DeletePool
unfoldable pub delete_pool : ℕ → ℕ → MemoryStore → Result Bool × MemoryStore
delete_pool now id m = elim (get_pool id m) [
  | none ↦ (ok false, m)
  | some p ↦
      if some_entry (is_child_of id) m.pools
      then (err err_conflict, m)
      else (ok true, record m { pools = put id (deleted_pool now p) m.pools })
]

-- GetPoolChildren
unfoldable pub children_in : ℕ → Table Pool → List Pool
children_in id [] = []
children_in id ((pid, p) ∷ rest) =
    let children = children_in id rest in if is_child_of id pid p then p ∷ children else children

unfoldable pub get_pool_children : ℕ → MemoryStore → Result (List Pool)
unfolding get_pool children_in
get_pool_children parent_id m = elim (get_pool parent_id m) [
  | none ↦ err err_not_found
  | some pp ↦ ok (children_in parent_id m.pools)
]
