-- ===== src/Storage/Memory/Steps.antt =====
-- The store of internal/storage/store.go as a state machine: one step for each operation that
-- changes it, in any order, from the empty store.
use cloudpam.Base.{ℕ, ◌≡◌, arith, String, Bool, Option, some}
use cloudpam.Base.Table.{lookup}
use cloudpam.Domain.{Account, CreatePool, UpdatePool, CreateAccount}
use cloudpam.Storage.Memory.{
  MemoryStore, new_memory_store, create_pool, update_pool, update_pool_meta, update_pool_account,
  delete_pool,
}
use cloudpam.Storage.Memory.Accounts.{create_account, update_account}
use cloudpam.Storage.Memory.Cascade.{delete_pool_cascade, delete_account, delete_account_cascade}
use cloudpam.Storage.Memory.Kept.{
  delete_account_cascade-IsSound, delete_account-IsSound, update_account-IsSound,
  create_account-IsSound, delete_pool_cascade-IsSound, delete_pool-IsSound,
  update_pool_account-IsSound, update_pool_meta-IsSound, update_pool-IsSound,
}
use cloudpam.Storage.Memory.Sound.{IsSound, IsLiveParent, create_pool-IsSound}
use cloudpam.Storage.Memory.Rooted.{IsRooted}

pub data Step : MemoryStore → MemoryStore → Type 0 where
  creates :
      (now : ℕ) (input : CreatePool) (m : MemoryStore)
      → IsLiveParent input.parent_id m.pools
      → Step m (create_pool now input m).1
  updates :
      (now id : ℕ) (update : UpdatePool) (m : MemoryStore) → Step m (update_pool now id update m).1
  updates_meta :
      (now id : ℕ) (name : Option String) (account_id : Option ℕ) (m : MemoryStore)
      → Step m (update_pool_meta now id name account_id m).1
  updates_account_id :
      (id : ℕ) (account_id : Option ℕ) (m : MemoryStore)
      → Step m (update_pool_account id account_id m).1
  deletes : (now id : ℕ) (m : MemoryStore) → Step m (delete_pool now id m).1
  deletes_cascade :
      (now id : ℕ) (m m' : MemoryStore) (found : Bool)
      → delete_pool_cascade now id m ≡ some (found, m')
      → Step m m'
  creates_account :
      (now : ℕ) (input : CreateAccount) (m : MemoryStore) → Step m (create_account now input m).1
  updates_account :
      (now id : ℕ) (update : Account) (m : MemoryStore) → Step m (update_account now id update m).1
  deletes_account : (now id : ℕ) (m : MemoryStore) → Step m (delete_account now id m).1
  deletes_account_cascade :
      (now id : ℕ) (m m' : MemoryStore) (found : Bool)
      → delete_account_cascade now id m ≡ some (found, m')
      → Step m m'

pub data Reachable : MemoryStore → Type 0 where
  start : Reachable new_memory_store
  then_step : (m m' : MemoryStore) → Reachable m → Step m m' → Reachable m'

new_memory_store-IsSound : IsSound new_memory_store
unfolding IsRooted lookup
new_memory_store-IsSound = record {
  table = tt;
  below = λ j p l. absurd (ground arith);
  own_id = λ j p l. absurd (ground arith);
  rooted = λ j k p q l live up m. absurd (ground arith);
}

Step-IsSound : (m m' : MemoryStore) → Step m m' → IsSound m → IsSound m'
Step-IsSound m m' (creates now input _ parent) s = create_pool-IsSound now input m parent s
Step-IsSound m m' (updates now id update _) s = update_pool-IsSound now id update m s
Step-IsSound m m' (updates_meta now id name account_id _) s =
    update_pool_meta-IsSound now id name account_id m s
Step-IsSound m m' (updates_account_id id account_id _) s =
    update_pool_account-IsSound id account_id m s
Step-IsSound m m' (deletes now id _) s = delete_pool-IsSound now id m s
Step-IsSound m m' (deletes_cascade now id _ _ found e) s =
    delete_pool_cascade-IsSound now id m m' found s e
Step-IsSound m m' (creates_account now input _) s = create_account-IsSound now input m s
Step-IsSound m m' (updates_account now id update _) s = update_account-IsSound now id update m s
Step-IsSound m m' (deletes_account now id _) s = delete_account-IsSound now id m s
Step-IsSound m m' (deletes_account_cascade now id _ _ found e) s =
    delete_account_cascade-IsSound now id m m' found s e

-- In every store that the operations reach from the empty one, where pools are created under no
-- deleted parent, ids stand once, below the counter and in their own records, and no live pool is
-- under a deleted one.
pub Reachable-IsSound : (m : MemoryStore) → Reachable m → IsSound m
Reachable-IsSound m start = new_memory_store-IsSound
Reachable-IsSound m (then_step before _ r t) = Step-IsSound before m t (Reachable-IsSound before r)
