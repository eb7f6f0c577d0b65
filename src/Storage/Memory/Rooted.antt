-- ===== src/Storage/Memory/Rooted.antt =====
-- The pools of internal/storage/store.go as a forest: what a step may leave of a live pool's parent.
use cloudpam.Base.{
  ℕ, ◌≡◌, ◌⊎◌, refl, arith, inl, inr, true, false, Bool-cases, ==_iff, subst, sym, ◌∙◌,
  Option-cases, none, some, ◌==◌,
}
use cloudpam.Base.Table.{
  Table, lookup, put, IsTable, lookup-put, some_entry, some_entry-found, some_entry-lookup,
}
use cloudpam.Domain.{Pool}
use cloudpam.Storage.Memory.{
  MemoryStore, get_pool, deleted_pool, is_child_of, delete_pool, ok, err, err_conflict,
}
use cloudpam.Storage.Memory.Cascade.Delete.{marked, MarksExactly}

-- A pool that refers to `id` as its parent and is not deleted.
unfoldable pub HasLiveChild : ℕ → Table Pool → Type 0
HasLiveChild id pools =
    (k : ℕ) × (ch : Pool) × (lookup k pools ≡ some ch) × (is_child_of id k ch ≡ true)

-- Over a table of pools, `DeletePool` of a live pool reports a conflict and leaves the store when
-- the pool has a live child; otherwise it marks the pool as deleted and changes nothing else.
pub delete_pool-cases :
    (now id : ℕ) (m : MemoryStore) (p : Pool)
    → IsTable m.pools
    → get_pool id m ≡ some p
    → (HasLiveChild id m.pools × (delete_pool now id m ≡ (err err_conflict, m)))
      ⊎ ((HasLiveChild id m.pools → ⊥)
          × (delete_pool now id m
              ≡ (ok true, record m { pools = put id (deleted_pool now p) m.pools })))
unfolding delete_pool HasLiveChild
delete_pool-cases now id m p t e = elim (Bool-cases (some_entry (is_child_of id) m.pools)) [
  | inl h ↦ inl (some_entry-found (is_child_of id) m.pools t h, rw (delete_pool, e, h) refl)
  | inr h ↦ inr (
    λ (k, ch, l, c). absurd (cc (some_entry-lookup (is_child_of id) m.pools k ch l c)),
    rw (delete_pool, e, h) refl,
  )
]

-- No live pool refers to a deleted parent.
unfoldable pub IsRooted : Table Pool → Type 0
IsRooted pools =
    (j k : ℕ) (p q : Pool)
    → lookup j pools ≡ some p
    → p.deleted_at ≡ none
    → p.parent_id ≡ some k
    → lookup k pools ≡ some q
    → q.deleted_at ≡ none

-- Marking what is closed under live children keeps the forest.
pub MarksExactly-IsRooted :
    (now : ℕ) (D : ℕ → Type 0) (before after : Table Pool)
    → ((j k : ℕ) (p : Pool)
        → lookup j before ≡ some p
        → p.deleted_at ≡ none
        → p.parent_id ≡ some k
        → D k
        → D j)
    → MarksExactly now D before after
    → IsRooted before
    → IsRooted after
unfolding IsRooted MarksExactly marked
MarksExactly-IsRooted now D before after down marks rooted j k p q lj live up lk = elim (marks j) [
  | inl (d, e) ↦ elim (Option-cases (lookup j before)) [
    | inl n ↦ absurd (ground arith)
    | inr (w, n) ↦ absurd (ground arith)
  ]
  | inr (n, e) ↦
      let was : lookup j before ≡ some p = sym e ∙ lj in
      elim (marks k) [
        | inl (d, f) ↦ absurd (n (down j k p was live up d))
        | inr (o, f) ↦ rooted j k p q was live up (sym f ∙ lk)
      ]
]

pub get_pool-live :
    (id : ℕ) (m : MemoryStore) (p : Pool)
    → get_pool id m ≡ some p
    → (lookup id m.pools ≡ some p) × (p.deleted_at ≡ none)
unfolding get_pool
get_pool-live id m p e = elim (Option-cases (lookup id m.pools)) [
  | inl n ↦ absurd (ground arith)
  | inr (q, n) ↦ ground arith
]

pub delete_pool-missing :
    (now id : ℕ) (m : MemoryStore) → get_pool id m ≡ none → delete_pool now id m ≡ (ok false, m)
unfolding delete_pool
delete_pool-missing now id m e = rw (delete_pool, e) refl

pub put-MarksExactly :
    (now id : ℕ) (pools : Table Pool) (p : Pool)
    → lookup id pools ≡ some p
    → MarksExactly now (λ j. j ≡ id) pools (put id (deleted_pool now p) pools)
unfolding MarksExactly marked
put-MarksExactly now id pools p l j =
    let after = lookup-put id j (deleted_pool now p) pools in
    elim (Bool-cases (j == id)) [
      | inl h ↦
          let same = (==_iff j id).0 h in
          inl (
            same,
            subst (λ a. lookup j (put id (deleted_pool now p) pools) ≡ marked now (lookup a pools))
                (sym same) (ground arith),
          )
      | inr h ↦ inr (λ d. absurd (ground arith), ground arith)
    ]

-- `DeletePool` on a table leaves no live pool under a deleted parent if there was none.
pub delete_pool-IsRooted :
    (now id : ℕ) (m : MemoryStore)
    → IsTable m.pools
    → IsRooted m.pools
    → IsRooted (delete_pool now id m).1.pools
unfolding HasLiveChild MarksExactly marked get_pool delete_pool
delete_pool-IsRooted now id m t r = elim (Option-cases (get_pool id m)) [
  | inl e ↦ rw (delete_pool-missing now id m e) r
  | inr (p, e) ↦ elim (delete_pool-cases now id m p t e) [
    | inl c ↦ rw (c.1) r
    | inr c ↦ rw (c.1) (
        MarksExactly-IsRooted now (λ j. j ≡ id) m.pools (put id (deleted_pool now p) m.pools)
          (λ j k ch l live up d. absurd (c.0 (j, ch, l, ground arith)))
          (put-MarksExactly now id m.pools p (get_pool-live id m p e).0) r)
  ]
]
