-- ===== src/Tests/Store.antt =====
-- The theorems on the store, at a store of two pools.
use cloudpam.Base.{
  ℕ, ◌≡◌, ◌⊎◌, refl, arith, true, false, ◌||◌, [], ◌∷◌, some, none, ◌==◌, if◌then◌else◌, str_eq,
}
use cloudpam.Base.Table.{lookup, put, IsTable, some_entry}
use cloudpam.Domain.{Pool, CreatePool, UpdatePool, Account, CreateAccount}
use cloudpam.Storage.Memory.{
  MemoryStore, new_memory_store, create_pool, new_pool, get_pool, update_pool, updated_pool,
  delete_pool, ok, err, err_validation, err_conflict, deleted_pool,
}
use cloudpam.Storage.Memory.Accounts.{create_account, new_account}
use cloudpam.Storage.Memory.Cascade.{
  delete_pool_cascade, delete_account_cascade, get_account, deleted_account, pools_of,
}
use cloudpam.Storage.Memory.Cascade.Closure.{Descends}
use cloudpam.Storage.Memory.Cascade.Delete.{
  MarksExactly, delete_pool_cascade-exact, delete_account_cascade-exact,
}
use cloudpam.Storage.Memory.Rooted.{HasLiveChild, delete_pool-cases}
use cloudpam.Storage.Memory.Sound.{IsSound, IsLiveParent}
use cloudpam.Storage.Memory.Steps.{
  creates, creates_account, Reachable, start, then_step, Reachable-IsSound,
}
use cloudpam.Storage.Memory.Lookup.{
  create_pool-get_pool, delete_pool-get_pool, update_pool-get_pool,
}

abbrev root_input : CreatePool
root_input = record {
  name = "root";
  cidr = "10.0.0.0/8";
  parent_id = none;
  account_id = some 1;
  type = "";
  status = "";
  source = "";
  description = "";
  tags = none;
}

abbrev child_input : CreatePool
child_input = record root_input { name = "child"; cidr = "10.1.0.0/16"; parent_id = some 1 }

abbrev owner : CreateAccount
owner = record {
  key = "aws:1";
  name = "one";
  provider = "aws";
  external_id = "";
  description = "";
  platform = "";
  tier = "";
  environment = "";
  regions = none;
}

abbrev root : Pool
root = new_pool 1 5 root_input

abbrev leaf : Pool
leaf = new_pool 2 6 child_input

abbrev one : Account
one = new_account 1 4 owner

abbrev with_account : MemoryStore
with_account = record { pools = []; next = 1; accounts = (1, one) ∷ []; next_account = 2 }

abbrev with_root : MemoryStore
with_root = record with_account { pools = (1, root) ∷ []; next = 2 }

abbrev two_pools : MemoryStore
two_pools = record with_account { pools = (1, root) ∷ (2, leaf) ∷ []; next = 3 }

with_root_run : (create_pool 5 root_input with_account).1 ≡ with_root
unfolding create_pool put
with_root_run = refl

two_pools_run : (create_pool 6 child_input with_root).1 ≡ two_pools
unfolding create_pool put
two_pools_run = refl

with_root-Reachable : Reachable with_root
unfolding create_pool put create_account IsLiveParent lookup
with_root-Reachable =
    let a =
      then_step new_memory_store with_account start (creates_account 4 owner new_memory_store) in
    then_step with_account with_root a (creates 5 root_input with_account (λ k q e l. cc))

two_pools-Reachable : Reachable two_pools
unfolding create_pool put IsLiveParent lookup
two_pools-Reachable =
    then_step with_root two_pools with_root-Reachable
      (creates 6 child_input with_root (λ k q e l. ground arith))

two_pools-IsTable : IsTable two_pools.pools
two_pools-IsTable = ((λ e. ground arith, tt), (tt, tt))

Reachable-IsSound_example : IsSound two_pools
Reachable-IsSound_example = Reachable-IsSound two_pools two_pools-Reachable

root_is_found : get_pool 1 two_pools ≡ some root
unfolding get_pool lookup
root_is_found = refl

delete_pool_cascade-exact_example :
    (m' : MemoryStore) × (delete_pool_cascade 9 1 two_pools ≡ some (true, m'))
    × MarksExactly 9 (Descends two_pools.pools (1 ∷ [])) two_pools.pools m'.pools
    × (m'.accounts ≡ two_pools.accounts)
    × (m'.next ≡ two_pools.next)
    × IsTable m'.pools
delete_pool_cascade-exact_example =
    delete_pool_cascade-exact 9 1 two_pools root two_pools-IsTable root_is_found

one_is_found : get_account 1 two_pools ≡ some one
unfolding get_account lookup
one_is_found = refl

delete_account_cascade-exact_example :
    (m' : MemoryStore) × (delete_account_cascade 9 1 two_pools ≡ some (true, m'))
    × MarksExactly 9
        (Descends two_pools.pools (pools_of 1 two_pools.pools))
        two_pools.pools
        m'.pools
    × ((j : ℕ)
        → lookup j m'.accounts
          ≡ (if 1 == j then some (deleted_account 9 one) else lookup j two_pools.accounts))
    × (m'.next ≡ two_pools.next)
    × IsTable m'.pools
delete_account_cascade-exact_example =
    delete_account_cascade-exact 9 1 two_pools one two_pools-IsTable one_is_found

delete_pool-cases_example :
    (HasLiveChild 1 two_pools.pools × (delete_pool 9 1 two_pools ≡ (err err_conflict, two_pools)))
    ⊎ ((HasLiveChild 1 two_pools.pools → ⊥)
        × (delete_pool 9 1 two_pools
            ≡ (ok true, record two_pools { pools = put 1 (deleted_pool 9 root) two_pools.pools })))
delete_pool-cases_example = delete_pool-cases 9 1 two_pools root two_pools-IsTable root_is_found

create_pool-get_pool_example :
    (((str_eq "child" "" || str_eq "10.1.0.0/16" "") ≡ true)
      × (create_pool 6 child_input with_root ≡ (err err_validation, with_root)))
    ⊎ ((str_eq "child" "" || str_eq "10.1.0.0/16" "") ≡ false)
      × ((create_pool 6 child_input with_root).0 ≡ ok leaf)
      × (lookup 2 with_root.pools ≡ none)
      × ((j : ℕ)
          → get_pool j (create_pool 6 child_input with_root).1
            ≡ (if 2 == j then some leaf else get_pool j with_root))
create_pool-get_pool_example =
    create_pool-get_pool 6 child_input with_root
      (Reachable-IsSound with_root with_root-Reachable).below

abbrev leaf_deleted : MemoryStore
leaf_deleted = record two_pools { pools = (1, root) ∷ (2, deleted_pool 9 leaf) ∷ [] }

delete_leaf_run : delete_pool 9 2 two_pools ≡ (ok true, leaf_deleted)
unfolding delete_pool get_pool lookup some_entry put
delete_leaf_run = refl

delete_pool-get_pool_example :
    get_pool 1 leaf_deleted ≡ (if 2 == 1 then none else get_pool 1 two_pools)
delete_pool-get_pool_example =
    delete_pool-get_pool 9 2 two_pools leaf_deleted two_pools-IsTable delete_leaf_run 1

abbrev renaming : UpdatePool
renaming = record {
  name = some "renamed";
  account_id = none;
  type = none;
  status = none;
  description = none;
  tags = none;
}

deleted_leaf_stands : lookup 2 leaf_deleted.pools ≡ some (deleted_pool 9 leaf)
unfolding lookup
deleted_leaf_stands = refl

update_pool-get_pool_example :
    ((update_pool 11 2 renaming leaf_deleted).0
      ≡ some (updated_pool 11 renaming (deleted_pool 9 leaf)))
    × ((j : ℕ)
        → get_pool j (update_pool 11 2 renaming leaf_deleted).1
          ≡ (if 2 == j then none else get_pool j leaf_deleted))
update_pool-get_pool_example =
    update_pool-get_pool 11 2 renaming leaf_deleted (deleted_pool 9 leaf) deleted_leaf_stands
