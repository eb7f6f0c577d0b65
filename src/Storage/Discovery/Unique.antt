-- ===== src/Storage/Discovery/Unique.antt =====
-- The resources of internal/storage/discovery_memory.go: each under its own id, and no two of one
-- account with one cloud id.
use cloudpam.Base.{
  ℕ, ◌≡◌, refl, sym, ap, ap₂, ◌∙◌, arith, inl, inr, Bool-cases, Option-cases, ==_iff, eq_iff, true,
  Option, some, ◌==◌,
}
use cloudpam.Base.Table.{
  Table, lookup, put, lookup-put, lookup-remove, IsTable, IsTable-put, IsTable-remove,
}
use cloudpam.Base.Entries.{
  first_entry, IsTable-map_values, map_values-was, first_entry-found, first_entry-none,
}
use cloudpam.Domain.Discovery.{DiscoveredResource}
use cloudpam.Storage.Discovery.{
  MemoryDiscoveryStore, same_resource, merged_resource, id_or, upsert_discovered_resource,
  stale_resource, mark_stale_resources, relink, delete_discovered_resource,
}

-- One resource of the table per account and cloud id
abbrev pub IsUnique : Table DiscoveredResource → Type 0
IsUnique m =
    (i j : ℕ) (r q : DiscoveredResource)
    → lookup i m ≡ some r
    → lookup j m ≡ some q
    → same_resource r q ≡ true
    → i ≡ j

same_resource-sym : (r q : DiscoveredResource) → same_resource r q ≡ same_resource q r
same_resource-sym r q =
    ground (arith, eq_iff r.resource_id q.resource_id, eq_iff q.resource_id r.resource_id)

-- A resource written at `id` keeps the table unique, when every other one like it is at `id`.
put-IsUnique :
    (id : ℕ) (new : DiscoveredResource) (m : Table DiscoveredResource)
    → ((j : ℕ) (q : DiscoveredResource) → lookup j m ≡ some q → same_resource new q ≡ true → id ≡ j)
    → IsUnique m
    → IsUnique (put id new m)
put-IsUnique id new m alone h i j r q li lj e =
    let at_i = lookup-put id i new m in
    let at_j = lookup-put id j new m in
    elim (Bool-cases (id == i)) [
      | inl f ↦ elim (Bool-cases (id == j)) [
        | inl g ↦ ground arith
        | inr g ↦
            let this : new ≡ r = ground arith in
            let at = alone j q (ground arith) (ap (λ x. same_resource x q) this ∙ e) in ground arith
      ]
      | inr f ↦ elim (Bool-cases (id == j)) [
        | inl g ↦
            let this : new ≡ q = ground arith in
            let at =
              alone i r (ground arith)
                (ap (λ x. same_resource x r) this ∙ same_resource-sym q r ∙ e) in
            ground arith
        | inr g ↦ h i j r q (ground arith) (ground arith) e
      ]
    ]

pub same_resource-shared :
    (r p q : DiscoveredResource)
    → same_resource r p ≡ true
    → same_resource r q ≡ true
    → same_resource p q ≡ true
same_resource-shared r p q a b = ground (
  arith,
  eq_iff p.resource_id r.resource_id,
  eq_iff q.resource_id r.resource_id,
  eq_iff q.resource_id p.resource_id,
)

-- The table of resources: a key stands once, each resource under its own id, and unique.
pub record IsSound (m : Table DiscoveredResource) : Type 0 where
  pub table : IsTable m
  pub own_id : (i : ℕ) (r : DiscoveredResource) → lookup i m ≡ some r → r.id ≡ i
  pub unique : IsUnique m

put-IsSound :
    (id : ℕ) (new : DiscoveredResource) (m : Table DiscoveredResource)
    → new.id ≡ id
    → ((j : ℕ) (q : DiscoveredResource) → lookup j m ≡ some q → same_resource new q ≡ true → id ≡ j)
    → IsSound m
    → IsSound (put id new m)
put-IsSound id new m e alone h = record {
  table = IsTable-put id new m h.table;
  own_id = λ i r l.
      let at = lookup-put id i new m in
      elim (Bool-cases (id == i)) [
        | inl f ↦
            let this : new ≡ r = ground arith in sym (ap (λ x. x.id) this) ∙ e ∙ (==_iff id i).0 f
        | inr f ↦ h.own_id i r (ground arith)
      ];
  unique = put-IsUnique id new m alone h.unique;
}

pub upsert-IsSound :
    (fresh : ℕ) (res : DiscoveredResource) (s : MemoryDiscoveryStore)
    → IsSound s.resources
    → IsSound (upsert_discovered_resource fresh res s).resources
unfolding upsert_discovered_resource
upsert-IsSound fresh res s h = elim (Option-cases (first_entry (same_resource res) s.resources)) [
  | inl n ↦
      rw (upsert_discovered_resource, n)
        (put-IsSound (id_or fresh res.id) (record res { id = id_or fresh res.id }) s.resources refl
          (λ j q l e. absurd (cc (first_entry-none (same_resource res) s.resources j q n l))) h)
  | inr ((id, old), n) ↦
      let (at, same) = first_entry-found (same_resource res) s.resources id old h.table n in
      rw (upsert_discovered_resource, n)
        (put-IsSound id (merged_resource id res old) s.resources refl
          (λ j q l e. h.unique id j old q at l (same_resource-shared res old q same e)) h)
]

pub relink-IsSound :
    (pool : Option ℕ) (id : ℕ) (s : MemoryDiscoveryStore)
    → IsSound s.resources
    → IsSound (relink pool id s).1.resources
unfolding relink
relink-IsSound pool id s h = elim (Option-cases (lookup id s.resources)) [
  | inl n ↦ rw (relink, n) h
  | inr (r, n) ↦
      rw (relink, n)
        (put-IsSound id (record r { pool_id = pool }) s.resources (h.own_id id r n)
          (λ j q l e. h.unique id j r q n l e) h)
]

pub delete-IsSound :
    (id : ℕ) (s : MemoryDiscoveryStore)
    → IsSound s.resources
    → IsSound (delete_discovered_resource id s).1.resources
unfolding delete_discovered_resource
delete-IsSound id s h = elim (Option-cases (lookup id s.resources)) [
  | inl n ↦ rw (delete_discovered_resource, n) h
  | inr (r, n) ↦
      rw (delete_discovered_resource, n)
        (record {
          table = IsTable-remove id s.resources h.table;
          own_id = λ i r l. let at = lookup-remove id i s.resources in h.own_id i r (ground arith);
          unique = λ i j r q li lj e.
              let at_i = lookup-remove id i s.resources in
              let at_j = lookup-remove id j s.resources in
              h.unique i j r q (ground arith) (ground arith) e;
        })
]

pub stale-IsSound :
    (account_id before : ℕ) (s : MemoryDiscoveryStore)
    → IsSound s.resources
    → IsSound (mark_stale_resources account_id before s).1.resources
unfolding mark_stale_resources
stale-IsSound account_id before s h =
    let change = stale_resource account_id before in
    record {
      table = IsTable-map_values change s.resources h.table;
      own_id = λ i r l.
          let (w, at, e) = map_values-was change i r s.resources l in
          sym (ap (λ x. x.id) e) ∙ h.own_id i w at;
      unique = λ i j r q li lj e.
          let (w, at, f) = map_values-was change i r s.resources li in
          let (v, there, g) = map_values-was change j q s.resources lj in
          h.unique i j w v at there (ap₂ same_resource f g ∙ e);
    }
