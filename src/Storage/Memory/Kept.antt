-- ===== src/Storage/Memory/Kept.antt =====
-- Each operation of internal/storage/store.go keeps the invariant.
use cloudpam.Base.{
  ℕ, ◌<◌, ◌≡◌, refl, inl, inr, String, Bool, false, ◌||◌, Bool-cases, subst, sym, ap, ◌∙◌, Option,
  Option-cases, some, List, [], ◌∷◌, str_eq,
}
use cloudpam.Base.Table.{lookup, put, IsTable, IsTable-put, some_entry}
use cloudpam.Domain.{Account, UpdatePool, CreateAccount}
use cloudpam.Storage.Memory.{
  MemoryStore, get_pool, update_pool, updated_pool, update_pool_meta, update_pool_account,
  deleted_pool, delete_pool,
}
use cloudpam.Storage.Memory.Accounts.{create_account, update_account}
use cloudpam.Storage.Memory.Cascade.{
  delete_pool_cascade, delete_account, delete_account_cascade, get_account, pools_of, is_pool_of,
}
use cloudpam.Storage.Memory.Cascade.Closure.{Descends, child}
use cloudpam.Storage.Memory.Cascade.Delete.{
  MarksExactly, delete_pool_cascade-exact, delete_account_cascade-exact,
}
use cloudpam.Storage.Memory.Sound.{IsSound, put_over-IsSound, MarksExactly-IsSound}
use cloudpam.Storage.Memory.Rooted.{
  IsRooted, delete_pool-IsRooted, MarksExactly-IsRooted, delete_pool-cases, get_pool-live,
  put-MarksExactly, delete_pool-missing,
}

-- The pools are what soundness is about.
pub same_pools-IsSound :
    (m m' : MemoryStore) → m'.pools ≡ m.pools → m'.next ≡ m.next → IsSound m → IsSound m'
unfolding IsRooted
same_pools-IsSound m m' e f s = record {
  table = subst IsTable (sym e) s.table;
  below = λ j p l. subst (λ n. j < n) (sym f) (s.below j p (ap (λ t. lookup j t) (sym e) ∙ l));
  own_id = λ j p l. s.own_id j p (ap (λ t. lookup j t) (sym e) ∙ l);
  rooted = subst IsRooted (sym e) s.rooted;
}

pub update_pool-IsSound :
    (now id : ℕ) (update : UpdatePool) (m : MemoryStore)
    → IsSound m
    → IsSound (update_pool now id update m).1
unfolding update_pool
update_pool-IsSound now id update m s = elim (Option-cases (lookup id m.pools)) [
  | inl e ↦ rw (update_pool, e) s
  | inr (p, e) ↦
      rw (update_pool, e) (put_over-IsSound m id p (updated_pool now update p) s e refl refl refl)
]

pub update_pool_meta-IsSound :
    (now id : ℕ) (name : Option String) (account_id : Option ℕ) (m : MemoryStore)
    → IsSound m
    → IsSound (update_pool_meta now id name account_id m).1
unfolding update_pool_meta
update_pool_meta-IsSound now id name account_id m s = elim (Option-cases (lookup id m.pools)) [
  | inl e ↦ rw (update_pool_meta, e) s
  | inr (p, e) ↦ rw (update_pool_meta, e) (put_over-IsSound m id p _ s e refl refl refl)
]

pub update_pool_account-IsSound :
    (id : ℕ) (account_id : Option ℕ) (m : MemoryStore)
    → IsSound m
    → IsSound (update_pool_account id account_id m).1
unfolding update_pool_account
update_pool_account-IsSound id account_id m s = elim (Option-cases (lookup id m.pools)) [
  | inl e ↦ rw (update_pool_account, e) s
  | inr (p, e) ↦ rw (update_pool_account, e) (put_over-IsSound m id p _ s e refl refl refl)
]

pub delete_pool-IsSound :
    (now id : ℕ) (m : MemoryStore) → IsSound m → IsSound (delete_pool now id m).1
delete_pool-IsSound now id m s = elim (Option-cases (get_pool id m)) [
  | inl e ↦ rw (delete_pool-missing now id m e) s
  | inr (p, e) ↦ elim (delete_pool-cases now id m p s.table e) [
    | inl c ↦ rw c.1 s
    | inr c ↦
        let rooted = delete_pool-IsRooted now id m s.table s.rooted in
        let m' = record m { pools = put id (deleted_pool now p) m.pools } in
        rw c.1 (
          MarksExactly-IsSound now (λ j. j ≡ id) m m' s
            (put-MarksExactly now id m.pools p (get_pool-live id m p e).0)
            (subst (λ r. IsRooted r.1.pools) c.1 rooted)
            (IsTable-put id (deleted_pool now p) m.pools s.table) refl)
  ]
]

-- A cascade marks the descendants of some pools, which are closed under live children.
pub cascade-IsSound :
    (now : ℕ) (seeds : List ℕ) (m m' : MemoryStore)
    → IsSound m
    → MarksExactly now (Descends m.pools seeds) m.pools m'.pools
    → IsTable m'.pools
    → m'.next ≡ m.next
    → IsSound m'
cascade-IsSound now seeds m m' s marks table same =
    MarksExactly-IsSound now (Descends m.pools seeds) m m' s marks
      (MarksExactly-IsRooted now (Descends m.pools seeds) m.pools m'.pools
        (λ j k p l live up d. child k p l live up d) marks s.rooted)
      table same

pub delete_pool_cascade-IsSound :
    (now id : ℕ) (m m' : MemoryStore) (found : Bool)
    → IsSound m
    → delete_pool_cascade now id m ≡ some (found, m')
    → IsSound m'
unfolding delete_pool_cascade
delete_pool_cascade-IsSound now id m m' found s e = elim (Option-cases (get_pool id m)) [
  | inl n ↦
      let gone : delete_pool_cascade now id m ≡ some (false, m) =
        rw (delete_pool_cascade, n) refl in
      let same : m ≡ m' = cc in subst IsSound same s
  | inr (p, n) ↦
      let (m1, done, marks, accounts, next, table) =
        delete_pool_cascade-exact now id m p s.table n in
      let same : m1 ≡ m' = cc in
      subst IsSound same (cascade-IsSound now (id ∷ []) m m1 s marks table next)
]

pub create_account-IsSound :
    (now : ℕ) (input : CreateAccount) (m : MemoryStore)
    → IsSound m
    → IsSound (create_account now input m).1
unfolding create_account
create_account-IsSound now input m s =
    elim (Bool-cases (str_eq input.key "" || str_eq input.name "")) [
      | inl h ↦ rw (create_account, h) s
      | inr h ↦ rw (create_account, h) (same_pools-IsSound m _ refl refl s)
    ]

pub update_account-IsSound :
    (now id : ℕ) (update : Account) (m : MemoryStore)
    → IsSound m
    → IsSound (update_account now id update m).1
unfolding update_account
update_account-IsSound now id update m s = elim (Option-cases (lookup id m.accounts)) [
  | inl e ↦ rw (update_account, e) s
  | inr (a, e) ↦ rw (update_account, e) (same_pools-IsSound m _ refl refl s)
]

pub delete_account-IsSound :
    (now id : ℕ) (m : MemoryStore) → IsSound m → IsSound (delete_account now id m).1
unfolding delete_account
delete_account-IsSound now id m s = elim (Option-cases (get_account id m)) [
  | inl e ↦ rw (delete_account, e) s
  | inr (a, e) ↦ elim (Bool-cases (some_entry (is_pool_of id) m.pools)) [
    | inl h ↦ rw (delete_account, e, h) s
    | inr h ↦ rw (delete_account, e, h) (same_pools-IsSound m _ refl refl s)
  ]
]

pub delete_account_cascade-IsSound :
    (now id : ℕ) (m m' : MemoryStore) (found : Bool)
    → IsSound m
    → delete_account_cascade now id m ≡ some (found, m')
    → IsSound m'
unfolding delete_account_cascade
delete_account_cascade-IsSound now id m m' found s e = elim (Option-cases (get_account id m)) [
  | inl n ↦
      let gone : delete_account_cascade now id m ≡ some (false, m) =
        rw (delete_account_cascade, n) refl in
      let same : m ≡ m' = cc in subst IsSound same s
  | inr (a, n) ↦
      let (m1, done, marks, accounts, next, table) =
        delete_account_cascade-exact now id m a s.table n in
      let same : m1 ≡ m' = cc in
      subst IsSound same (cascade-IsSound now (pools_of id m.pools) m m1 s marks table next)
]
