-- ===== src/Storage/Memory/Cascade/Delete.antt =====
-- What the deletions of internal/storage/store.go leave in the store.
use cloudpam.Base.{
  ℕ, ◌⊎◌, ◌≡◌, ◌↔◌, refl, arith, true, inl, inr, Bool-cases, ==_iff, subst, sym, ◌∙◌, Option,
  Option-cases, none, some, List, [], ◌∷◌, ◌==◌, if◌then◌else◌,
}
use cloudpam.Base.Table.{Table, IsTable-put, lookup, put, IsTable, IsTable-put, lookup-put}
use cloudpam.Domain.{Pool, Account}
use cloudpam.Storage.Memory.{MemoryStore, get_pool, deleted_pool}
use cloudpam.Storage.Memory.Cascade.{
  mem, mark_deleted, delete_pool_cascade, delete_account_cascade, get_account, deleted_account,
  pools_of,
}
use cloudpam.Storage.Memory.Cascade.Closure.{Descends, close-Descends}

-- What marking makes of one entry.
unfoldable pub marked : ℕ → Option Pool → Option Pool
marked now none = none
marked now (some p) = some (deleted_pool now p)

lookup-mark_deleted :
    (now : ℕ) (s : List ℕ) (pools : Table Pool) (j : ℕ)
    → lookup j (mark_deleted now s pools)
      ≡ (if mem j s then marked now (lookup j pools) else lookup j pools)
unfolding mark_deleted mem marked
lookup-mark_deleted now [] pools j = refl
lookup-mark_deleted now (pid ∷ s) pools j = elim (Option-cases (lookup pid pools)) [
  | inl e ↦
      let rest = lookup-mark_deleted now s pools j in
      let at_pid : (j == pid) ≡ true → lookup j pools ≡ none =
        λ h. subst (λ a. lookup a pools ≡ none) (sym ((==_iff j pid).0 h)) e in
      rw (mark_deleted, e) (ground arith)
  | inr (p, e) ↦
      let rest = lookup-mark_deleted now s (put pid (deleted_pool now p) pools) j in
      let one = lookup-put pid j (deleted_pool now p) pools in
      let at_pid : (j == pid) ≡ true → lookup j pools ≡ some p =
        λ h. subst (λ a. lookup a pools ≡ some p) (sym ((==_iff j pid).0 h)) e in
      rw (mark_deleted, e) (ground arith)
]

-- Each entry of the second table is that of the first: marked where `D` holds, unchanged elsewhere.
unfoldable pub MarksExactly : ℕ → (ℕ → Type 0) → Table Pool → Table Pool → Type 0
MarksExactly now D before after =
    (j : ℕ)
    → (D j × (lookup j after ≡ marked now (lookup j before)))
      ⊎ ((D j → ⊥) × (lookup j after ≡ lookup j before))

mark_deleted-exact :
    (now : ℕ) (s : List ℕ) (pools : Table Pool) (D : ℕ → Type 0)
    → ((j : ℕ) → (mem j s ≡ true) ↔ D j)
    → MarksExactly now D pools (mark_deleted now s pools)
unfolding MarksExactly
mark_deleted-exact now s pools D iff j =
    let after = lookup-mark_deleted now s pools j in
    elim (Bool-cases (mem j s)) [
      | inl e ↦ inl ((iff j).0 e, after ∙ rw e refl)
      | inr e ↦ inr (λ d. absurd (cc ((iff j).1 d)), after ∙ rw e refl)
    ]

IsTable-mark_deleted :
    (now : ℕ) (s : List ℕ) (pools : Table Pool) → IsTable pools → IsTable (mark_deleted now s pools)
unfolding mark_deleted
IsTable-mark_deleted now [] pools t = t
IsTable-mark_deleted now (pid ∷ s) pools t = elim (Option-cases (lookup pid pools)) [
  | inl e ↦ rw (mark_deleted, e) (IsTable-mark_deleted now s pools t)
  | inr (p, e) ↦
      rw (mark_deleted, e)
        (IsTable-mark_deleted now s (put pid (deleted_pool now p) pools)
          (IsTable-put pid (deleted_pool now p) pools t))
]

-- Over a table of pools, `DeletePoolCascade` of a live pool succeeds: exactly its descendants are
-- marked as deleted, the accounts and the counter of pools are as they were, and the pools are
-- still a table.
pub delete_pool_cascade-exact :
    (now id : ℕ) (m : MemoryStore) (p : Pool)
    → IsTable m.pools
    → get_pool id m ≡ some p
    → (m' : MemoryStore) × (delete_pool_cascade now id m ≡ some (true, m'))
      × MarksExactly now (Descends m.pools (id ∷ [])) m.pools m'.pools
      × (m'.accounts ≡ m.accounts)
      × (m'.next ≡ m.next)
      × IsTable m'.pools
unfolding delete_pool_cascade
delete_pool_cascade-exact now id m p t e =
    let (s, found, iff) = close-Descends m.pools (id ∷ []) t in
    (
      record m { pools = mark_deleted now s m.pools },
      rw (delete_pool_cascade, e, found) refl,
      mark_deleted-exact now s m.pools (Descends m.pools (id ∷ [])) iff,
      refl,
      refl,
      IsTable-mark_deleted now s m.pools t,
    )

-- Over a table of pools, `DeleteAccountCascade` of a live account succeeds: the account is marked
-- as deleted, of the pools exactly the descendants of its own pools, no other account changes, and the
-- pools are still a table under the same counter.
pub delete_account_cascade-exact :
    (now id : ℕ) (m : MemoryStore) (a : Account)
    → IsTable m.pools
    → get_account id m ≡ some a
    → (m' : MemoryStore) × (delete_account_cascade now id m ≡ some (true, m'))
      × MarksExactly now (Descends m.pools (pools_of id m.pools)) m.pools m'.pools
      × ((j : ℕ)
          → lookup j m'.accounts
            ≡ (if id == j then some (deleted_account now a) else lookup j m.accounts))
      × (m'.next ≡ m.next)
      × IsTable m'.pools
unfolding delete_account_cascade
delete_account_cascade-exact now id m a t e =
    let (s, found, iff) = close-Descends m.pools (pools_of id m.pools) t in
    (
      record m {
        pools = mark_deleted now s m.pools;
        accounts = put id (deleted_account now a) m.accounts;
      },
      rw (delete_account_cascade, e, found) refl,
      mark_deleted-exact now s m.pools (Descends m.pools (pools_of id m.pools)) iff,
      λ j. lookup-put id j (deleted_account now a) m.accounts,
      refl,
      IsTable-mark_deleted now s m.pools t,
    )
