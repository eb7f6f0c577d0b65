-- ===== src/Storage/Memory/Sound.antt =====
-- The invariant of the store of internal/storage/store.go, and what keeps it.
use cloudpam.Base.{
  ℕ, ◌<◌, ◌≡◌, refl, arith, inl, inr, ◌||◌, Bool-cases, ==_iff, subst, sym, ◌∙◌, Option,
  Option-cases, none, some, ◌==◌, str_eq,
}
use cloudpam.Base.Table.{Table, lookup, put, IsTable, IsTable-put, lookup-put}
use cloudpam.Domain.{Pool, CreatePool}
use cloudpam.Storage.Memory.{MemoryStore, create_pool, new_pool}
use cloudpam.Storage.Memory.Cascade.Delete.{marked, MarksExactly}
use cloudpam.Storage.Memory.Rooted.{IsRooted}

-- A parent that is not a deleted pool.
unfoldable pub IsLiveParent : Option ℕ → Table Pool → Type 0
IsLiveParent parent pools =
    (k : ℕ) (q : Pool) → parent ≡ some k → lookup k pools ≡ some q → q.deleted_at ≡ none

-- Ids stand once and lie below the counter, a record has the id that it is stored at, and no
-- live pool is under a deleted one.
pub record IsSound (m : MemoryStore) : Type 0 where
  pub table : IsTable m.pools
  pub below : (j : ℕ) (p : Pool) → lookup j m.pools ≡ some p → j < m.next
  pub own_id : (j : ℕ) (p : Pool) → lookup j m.pools ≡ some p → p.id ≡ j
  pub rooted : IsRooted m.pools

-- The pool that stood where a pool was then written.
record IsOver (before : Table Pool) (j : ℕ) (q : Pool) : Type 0 where
  was : Pool
  stood : lookup j before ≡ some was
  same_id : was.id ≡ q.id
  same_parent : was.parent_id ≡ q.parent_id
  same_mark : was.deleted_at ≡ q.deleted_at

put-IsOver :
    (pools : Table Pool) (id j : ℕ) (p' q : Pool)
    → IsOver pools id p'
    → lookup j (put id p' pools) ≡ some q
    → IsOver pools j q
put-IsOver pools id j p' q o e =
    let after = lookup-put id j p' pools in
    elim (Bool-cases (id == j)) [
      | inl h ↦
          let same : p' ≡ q = ground arith in
          subst (λ a. IsOver pools j a) same (subst (λ a. IsOver pools a p') ((==_iff id j).0 h) o)
      | inr h ↦ record {
        was = q;
        stood = ground arith;
        same_id = refl;
        same_parent = refl;
        same_mark = refl;
      }
    ]

-- A pool that is written over one with the same id, parent and mark.
pub put_over-IsSound :
    (m : MemoryStore) (id : ℕ) (p p' : Pool)
    → IsSound m
    → lookup id m.pools ≡ some p
    → p.id ≡ p'.id
    → p.parent_id ≡ p'.parent_id
    → p.deleted_at ≡ p'.deleted_at
    → IsSound (record m { pools = put id p' m.pools })
unfolding IsRooted
put_over-IsSound m id p p' s l same_id same_parent same_mark =
    let over : IsOver m.pools id p' = record {
      was = p;
      stood = l;
      same_id = same_id;
      same_parent = same_parent;
      same_mark = same_mark;
    } in
    record {
      table = IsTable-put id p' m.pools s.table;
      below = λ j q e.
          s.below j (put-IsOver m.pools id j p' q over e).was
            (put-IsOver m.pools id j p' q over e).stood;
      own_id = λ j q e.
          let o = put-IsOver m.pools id j p' q over e in sym o.same_id ∙ s.own_id j o.was o.stood;
      rooted = λ j k q r lj live up lk.
          let o = put-IsOver m.pools id j p' q over lj in
          let w = put-IsOver m.pools id k p' r over lk in
          sym w.same_mark
          ∙ s.rooted j k o.was w.was o.stood (o.same_mark ∙ live) (o.same_parent ∙ up) w.stood;
    }

-- Marking what is closed under live children.
pub MarksExactly-IsSound :
    (now : ℕ) (D : ℕ → Type 0) (m m' : MemoryStore)
    → IsSound m
    → MarksExactly now D m.pools m'.pools
    → IsRooted m'.pools
    → IsTable m'.pools
    → m'.next ≡ m.next
    → IsSound m'
unfolding MarksExactly marked
MarksExactly-IsSound now D m m' s marks rooted table same = record {
  table = table;
  below = λ j q e. elim (marks j) [
    | inl (d, f) ↦ elim (Option-cases (lookup j m.pools)) [
      | inl n ↦ absurd (ground arith)
      | inr (w, n) ↦ let old = s.below j w n in ground arith
    ]
    | inr (d, f) ↦ let old = s.below j q (sym f ∙ e) in ground arith
  ];
  own_id = λ j q e. elim (marks j) [
    | inl (d, f) ↦ elim (Option-cases (lookup j m.pools)) [
      | inl n ↦ absurd (ground arith)
      | inr (w, n) ↦ let old = s.own_id j w n in ground arith
    ]
    | inr (d, f) ↦ s.own_id j q (sym f ∙ e)
  ];
  rooted = rooted;
}

-- A new pool under a parent that is not deleted.
pub create_pool-IsSound :
    (now : ℕ) (input : CreatePool) (m : MemoryStore)
    → IsLiveParent input.parent_id m.pools
    → IsSound m
    → IsSound (create_pool now input m).1
unfolding create_pool IsLiveParent IsRooted
create_pool-IsSound now input m parent s =
    elim (Bool-cases (str_eq input.name "" || str_eq input.cidr "")) [
      | inl h ↦ rw (create_pool, h) s
      | inr h ↦
          rw (create_pool, h)
            (record {
              table = IsTable-put m.next (new_pool m.next now input) m.pools s.table;
              below = λ j q e.
                  let after = lookup-put m.next j (new_pool m.next now input) m.pools in
                  elim (Bool-cases (m.next == j)) [
                    | inl i ↦ ground arith
                    | inr i ↦ let old = s.below j q (ground arith) in omega (arith, old)
                  ];
              own_id = λ j q e.
                  let after = lookup-put m.next j (new_pool m.next now input) m.pools in
                  elim (Bool-cases (m.next == j)) [
                    | inl i ↦ ground arith
                    | inr i ↦ s.own_id j q (ground arith)
                  ];
              rooted = λ j k q r lj live up lk.
                  let at_j = lookup-put m.next j (new_pool m.next now input) m.pools in
                  let at_k = lookup-put m.next k (new_pool m.next now input) m.pools in
                  elim (Bool-cases (m.next == k)) [
                    | inl i ↦ ground arith
                    | inr i ↦ elim (Bool-cases (m.next == j)) [
                      | inl o ↦ parent k r (ground arith) (ground arith)
                      | inr o ↦ s.rooted j k q r (ground arith) live up (ground arith)
                    ]
                  ];
            })
    ]
