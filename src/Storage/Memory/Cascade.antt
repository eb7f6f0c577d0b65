-- ===== src/Storage/Memory/Cascade.antt =====
-- `DeletePoolCascade`, `DeleteAccount` and `DeleteAccountCascade` of internal/storage/store.go: the
-- descendants of what is deleted are collected in rounds until nothing is added.
pub mod Closure
pub mod Delete
use cloudpam.Base.{
  ℕ, zero, suc, ◌+◌, String, Bool, true, false, not, ◌&&◌, ◌||◌, Option, none, some, List, [], ◌∷◌,
  length, ◌==◌, if◌then◌else◌,
}
use cloudpam.Base.Table.{Table, lookup, put, some_entry}
use cloudpam.Domain.{Pool, Account}
use cloudpam.Storage.Memory.{
  MemoryStore, Result, ok, err, err_conflict, is_none, points_to, get_pool, deleted_pool,
}

-- Membership in `toDelete`.
unfoldable pub mem : ℕ → List ℕ → Bool
mem k [] = false
mem k (j ∷ s) = k == j || mem k s

-- `toDelete[*pp.ParentID]`, for a parent that is not nil
abbrev pub parent_in : Option ℕ → List ℕ → Bool
parent_in none s = false
parent_in (some k) s = mem k s

-- The test that adds an entry to `toDelete`.
abbrev pub is_new : List ℕ → ℕ → Pool → Bool
is_new s pid pp = not (mem pid s) && (is_none pp.deleted_at && parent_in pp.parent_id s)

-- One round over the pools, with the set as it grows, and whether it progressed.
unfoldable pub grow : Table Pool → List ℕ → List ℕ × Bool
unfolding mem
grow [] s = (s, false)
grow ((pid, pp) ∷ rest) s =
    let added = is_new s pid pp in
    let (s', progressed) = grow rest (if added then pid ∷ s else s) in (s', added || progressed)

-- The rounds until one does not progress; `none` means that the fuel ran out.
unfoldable pub close : ℕ → Table Pool → List ℕ → Option (List ℕ)
unfolding grow
close zero pools s = none
close (suc fuel) pools s =
    let (s', progressed) = grow pools s in
    let again = close fuel pools s' in if progressed then again else some s'

-- Each round that progresses adds one of the pools.
abbrev pub rounds : Table Pool → ℕ
rounds pools = suc (length pools)

-- The loop that marks each pool of `toDelete`; all of them are in the table.
unfoldable pub mark_deleted : ℕ → List ℕ → Table Pool → Table Pool
mark_deleted now [] pools = pools
mark_deleted now (pid ∷ s) pools = elim (lookup pid pools) [
  | none ↦ mark_deleted now s pools
  | some pp ↦ mark_deleted now s (put pid (deleted_pool now pp) pools)
]

-- DeletePoolCascade; `none` means that the collection did not end.
unfoldable pub delete_pool_cascade : ℕ → ℕ → MemoryStore → Option (Bool × MemoryStore)
delete_pool_cascade now id m = elim (get_pool id m) [
  | none ↦ some (false, m)
  | some p ↦ elim (close (rounds m.pools) m.pools (id ∷ [])) [
    | none ↦ none
    | some to_delete ↦ some (true, record m { pools = mark_deleted now to_delete m.pools })
  ]
]

-- GetAccount
unfoldable pub get_account : ℕ → MemoryStore → Option Account
get_account id m = elim (lookup id m.accounts) [
  | none ↦ none
  | some a ↦ if is_none a.deleted_at then some a else none
]

-- A live pool of this account.
abbrev pub is_pool_of : ℕ → ℕ → Pool → Bool
is_pool_of id pid p = points_to id p.account_id && is_none p.deleted_at

abbrev pub deleted_account : ℕ → Account → Account
deleted_account now a = record a { deleted_at = some now; updated_at = now }

-- DeleteAccount
unfoldable pub delete_account : ℕ → ℕ → MemoryStore → Result Bool × MemoryStore
delete_account now id m = elim (get_account id m) [
  | none ↦ (ok false, m)
  | some a ↦
      if some_entry (is_pool_of id) m.pools
      then (err err_conflict, m)
      else (ok true, record m { accounts = put id (deleted_account now a) m.accounts })
]

-- The pools that refer to the account.
unfoldable pub pools_of : ℕ → Table Pool → List ℕ
pools_of id [] = []
pools_of id ((pid, p) ∷ rest) =
    let others = pools_of id rest in if is_pool_of id pid p then pid ∷ others else others

-- DeleteAccountCascade
unfoldable pub delete_account_cascade : ℕ → ℕ → MemoryStore → Option (Bool × MemoryStore)
unfolding pools_of
delete_account_cascade now id m = elim (get_account id m) [
  | none ↦ some (false, m)
  | some a ↦ elim (close (rounds m.pools) m.pools (pools_of id m.pools)) [
    | none ↦ none
    | some to_delete ↦ some (
      true,
      record m {
        pools = mark_deleted now to_delete m.pools;
        accounts = put id (deleted_account now a) m.accounts;
      },
    )
  ]
]
