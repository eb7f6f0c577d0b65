-- ===== src/Storage/Discovery/Upsert.antt =====
-- The reached states of `MemoryDiscoveryStore` of internal/storage/discovery_memory.go, and what
-- `UpsertDiscoveredResource` does in them.
use cloudpam.Base.{
  ℕ, ◌≡◌, refl, sym, ap, ap₂, [], ◌∙◌, subst, arith, inl, inr, Option-cases, true, some, none, ◌==◌,
  if◌then◌else◌,
}
use cloudpam.Base.Table.{lookup, lookup-put}
use cloudpam.Base.Entries.{first_entry, first_entry-found, first_entry-none}
use cloudpam.Domain.Discovery.{DiscoveredResource, SyncJob, DiscoveryAgent}
use cloudpam.Storage.Discovery.{
  MemoryDiscoveryStore, new_memory_discovery_store, get_discovered_resource, same_resource,
  merged_resource, upsert_discovered_resource, mark_stale_resources, link_resource_to_pool,
  unlink_resource, delete_discovered_resource, create_sync_job, update_sync_job, select_job,
  claim_pending_agent_sync, upsert_agent, delete_agent,
}
use cloudpam.Storage.Discovery.Unique.{
  IsSound, same_resource-shared, upsert-IsSound, relink-IsSound, delete-IsSound, stale-IsSound,
}

pub data Step (s : MemoryDiscoveryStore) : MemoryDiscoveryStore → Type 0 where
  upserts : (fresh : ℕ) (res : DiscoveredResource) → Step s (upsert_discovered_resource fresh res s)
  marks : (account_id before : ℕ) → Step s (mark_stale_resources account_id before s).1
  links : (id pool : ℕ) → Step s (link_resource_to_pool id pool s).1
  unlinks : (id : ℕ) → Step s (unlink_resource id s).1
  deletes : (id : ℕ) → Step s (delete_discovered_resource id s).1
  creates_job : (fresh now : ℕ) (job : SyncJob) → Step s (create_sync_job fresh now job s).1
  updates_job : (job : SyncJob) → Step s (update_sync_job job s).1
  claims : (now agent_id : ℕ) → Step s (claim_pending_agent_sync now agent_id s).1
  upserts_agent : (fresh now : ℕ) (agent : DiscoveryAgent) → Step s (upsert_agent fresh now agent s)
  deletes_agent : (id : ℕ) → Step s (delete_agent id s).1

pub data Reachable : MemoryDiscoveryStore → Type 0 where
  start : Reachable new_memory_discovery_store
  then_step : (s t : MemoryDiscoveryStore) → Reachable s → Step s t → Reachable t

new-IsSound : IsSound []
unfolding lookup
new-IsSound = record {
  table = tt;
  own_id = λ i r l. absurd (ground arith);
  unique = λ i j r q l k e. absurd (ground arith);
}

-- The operations on jobs and agents leave the resources.
update_sync_job-resources :
    (job : SyncJob) (s : MemoryDiscoveryStore) → (update_sync_job job s).1.resources ≡ s.resources
unfolding update_sync_job
update_sync_job-resources job s = elim (Option-cases (lookup job.id s.sync_jobs)) [
  | inl n ↦ rw (update_sync_job, n) refl
  | inr (old, n) ↦ rw (update_sync_job, n) refl
]

claim-resources :
    (now agent_id : ℕ) (s : MemoryDiscoveryStore)
    → (claim_pending_agent_sync now agent_id s).1.resources ≡ s.resources
unfolding claim_pending_agent_sync
claim-resources now agent_id s = elim (Option-cases (select_job agent_id s.sync_jobs none)) [
  | inl n ↦ rw (claim_pending_agent_sync, n) refl
  | inr (job, n) ↦ rw (claim_pending_agent_sync, n) refl
]

delete_agent-resources :
    (id : ℕ) (s : MemoryDiscoveryStore) → (delete_agent id s).1.resources ≡ s.resources
unfolding delete_agent
delete_agent-resources id s = elim (Option-cases (lookup id s.agents)) [
  | inl n ↦ rw (delete_agent, n) refl
  | inr (a, n) ↦ rw (delete_agent, n) refl
]

Step-IsSound : (s t : MemoryDiscoveryStore) → Step s t → IsSound s.resources → IsSound t.resources
unfolding link_resource_to_pool unlink_resource create_sync_job upsert_agent
Step-IsSound s t (upserts fresh res) h = upsert-IsSound fresh res s h
Step-IsSound s t (marks account_id before) h = stale-IsSound account_id before s h
Step-IsSound s t (links id pool) h = relink-IsSound (some pool) id s h
Step-IsSound s t (unlinks id) h = relink-IsSound none id s h
Step-IsSound s t (deletes id) h = delete-IsSound id s h
Step-IsSound s t (creates_job fresh now job) h = h
Step-IsSound s t (updates_job job) h = subst IsSound (sym (update_sync_job-resources job s)) h
Step-IsSound s t (claims now id) h = subst IsSound (sym (claim-resources now id s)) h
Step-IsSound s t (upserts_agent fresh now agent) h = h
Step-IsSound s t (deletes_agent id) h = subst IsSound (sym (delete_agent-resources id s)) h

pub Reachable-IsSound : (s : MemoryDiscoveryStore) → Reachable s → IsSound s.resources
Reachable-IsSound s start = new-IsSound
Reachable-IsSound s (then_step before _ r t) = Step-IsSound before s t (Reachable-IsSound before r)

-- In every store that the operations reach from the empty one, two resources of one account with one
-- cloud id are the same resource under the same id.
pub get_discovered_resource_unique :
    (s : MemoryDiscoveryStore) (i j : ℕ) (r q : DiscoveredResource)
    → Reachable s
    → get_discovered_resource i s ≡ some r
    → get_discovered_resource j s ≡ some q
    → same_resource r q ≡ true
    → (i ≡ j) × (r ≡ q)
get_discovered_resource_unique s i j r q reached li lj e =
    let same = (Reachable-IsSound s reached).unique i j r q li lj e in
    (same, cc (ap (λ k. lookup k s.resources) same))

-- In every store that the operations reach, an upsert of a resource whose account and cloud id are
-- those of a stored one writes it over that one, under the id it has, with its pool link and its
-- time of discovery where the new ones are empty, and changes no other resource.
pub get-upsert_discovered_resource :
    (fresh : ℕ) (res old : DiscoveredResource) (s : MemoryDiscoveryStore) (id j : ℕ)
    → Reachable s
    → get_discovered_resource id s ≡ some old
    → same_resource res old ≡ true
    → get_discovered_resource j (upsert_discovered_resource fresh res s)
      ≡ (if id == j then some (merged_resource id res old) else get_discovered_resource j s)
unfolding upsert_discovered_resource
get-upsert_discovered_resource fresh res old s id j reached l e =
    let h = Reachable-IsSound s reached in
    elim (Option-cases (first_entry (same_resource res) s.resources)) [
      | inl n ↦ absurd (cc (first_entry-none (same_resource res) s.resources id old n l))
      | inr ((k, found), n) ↦
          let (at, same) = first_entry-found (same_resource res) s.resources k found h.table n in
          let id_is = h.unique k id found old at l (same_resource-shared res found old same e) in
          let this : found ≡ old = cc (ap (λ x. lookup x s.resources) id_is) in
          rw (upsert_discovered_resource, n)
            (lookup-put k j (merged_resource k res found) s.resources
              ∙ ap₂ (λ x o. if x == j then some (merged_resource x res o) else lookup j s.resources)
                  id_is this)
    ]
