-- ===== src/Storage/Discovery.antt =====
-- `MemoryDiscoveryStore` of internal/storage/discovery_memory.go. Each operation runs under the
-- store's lock, so it is one step; `now` is the clock, `fresh` a UUID that uuid.New draws. A clone
-- (`cloneDiscoveredResource`) is the value itself.
pub mod Lists
pub mod Unique
pub mod Upsert
pub mod Claim
use cloudpam.Base.{
  ℕ, ◌+◌, ◌-◌, ◌*◌, String, Bool, true, false, not, ◌&&◌, ◌||◌, Option, none, some, List, [], ◌∷◌,
  length, take, drop, ltb, ◌==◌, str_eq, if◌then◌else◌,
}
use cloudpam.Base.Table.{Table, lookup, put, remove}
use cloudpam.Base.Entries.{first_entry, map_values}
use cloudpam.Domain.Discovery.{
  DiscoveredResource, SyncJob, DiscoveryAgent, DiscoveryFilters, discovery_status_active,
  discovery_status_stale, sync_job_status_pending, sync_job_status_running,
}
use cloudpam.Storage.Memory.{StoreError, err_not_found, is_none, points_to}

pub record MemoryDiscoveryStore : Type 0 where
  pub resources : Table DiscoveredResource
  pub sync_jobs : Table SyncJob
  pub agents : Table DiscoveryAgent

-- NewMemoryDiscoveryStore
abbrev pub new_memory_discovery_store : MemoryDiscoveryStore
new_memory_discovery_store = record { resources = []; sync_jobs = []; agents = [] }

-- GetDiscoveredResource; `none` is ErrNotFound, here and in the other lookups.
abbrev pub get_discovered_resource : ℕ → MemoryDiscoveryStore → Option DiscoveredResource
get_discovered_resource id s = lookup id s.resources

-- The resource of the same account with the same cloud id.
abbrev pub same_resource : DiscoveredResource → DiscoveredResource → Bool
same_resource res existing =
    existing.account_id == res.account_id && str_eq existing.resource_id res.resource_id

-- An update keeps the id, and the pool link and the time of discovery where the new ones are empty.
abbrev pub merged_resource : ℕ → DiscoveredResource → DiscoveredResource → DiscoveredResource
merged_resource id res existing = record res {
  id = id;
  pool_id = if is_none res.pool_id then existing.pool_id else res.pool_id;
  discovered_at = if res.discovered_at == 0 then existing.discovered_at else res.discovered_at;
}

-- The id under which a resource, job or agent without one is stored
abbrev pub id_or : ℕ → ℕ → ℕ
id_or fresh id = if id == 0 then fresh else id

-- UpsertDiscoveredResource
unfoldable pub upsert_discovered_resource :
    ℕ → DiscoveredResource → MemoryDiscoveryStore → MemoryDiscoveryStore
unfolding first_entry
upsert_discovered_resource fresh res s = elim (first_entry (same_resource res) s.resources) [
  | some (id, existing) ↦ record s {
    resources = put id (merged_resource id res existing) s.resources;
  }
  | none ↦
      let id = id_or fresh res.id in
      record s { resources = put id (record res { id = id }) s.resources }
]

-- What MarkStaleResources tests and writes.
abbrev pub goes_stale : ℕ → ℕ → DiscoveredResource → Bool
goes_stale account_id before r =
    r.account_id == account_id
    && (str_eq r.status discovery_status_active && ltb r.last_seen_at before)

abbrev pub stale_resource : ℕ → ℕ → DiscoveredResource → DiscoveredResource
stale_resource account_id before r = record r {
  status = if goes_stale account_id before r then discovery_status_stale else r.status;
}

unfoldable pub stale_count : ℕ → ℕ → Table DiscoveredResource → ℕ
stale_count account_id before [] = 0
stale_count account_id before ((id, r) ∷ rest) =
    let count = stale_count account_id before rest in
    if goes_stale account_id before r then count + 1 else count

-- MarkStaleResources
unfoldable pub mark_stale_resources : ℕ → ℕ → MemoryDiscoveryStore → ℕ × MemoryDiscoveryStore
unfolding map_values stale_count
mark_stale_resources account_id before s = (
  stale_count account_id before s.resources,
  record s { resources = map_values (stale_resource account_id before) s.resources },
)

-- The writes of LinkResourceToPool and UnlinkResource
unfoldable pub relink :
    Option ℕ → ℕ → MemoryDiscoveryStore → Option StoreError × MemoryDiscoveryStore
relink pool id s = elim (lookup id s.resources) [
  | none ↦ (some err_not_found, s)
  | some r ↦ (none, record s { resources = put id (record r { pool_id = pool }) s.resources })
]

-- LinkResourceToPool
unfoldable pub link_resource_to_pool :
    ℕ → ℕ → MemoryDiscoveryStore → Option StoreError × MemoryDiscoveryStore
unfolding relink
link_resource_to_pool id pool s = relink (some pool) id s

-- UnlinkResource
unfoldable pub unlink_resource : ℕ → MemoryDiscoveryStore → Option StoreError × MemoryDiscoveryStore
unfolding relink
unlink_resource id s = relink none id s

-- DeleteDiscoveredResource
unfoldable pub delete_discovered_resource :
    ℕ → MemoryDiscoveryStore → Option StoreError × MemoryDiscoveryStore
delete_discovered_resource id s = elim (lookup id s.resources) [
  | none ↦ (some err_not_found, s)
  | some r ↦ (none, record s { resources = remove id s.resources })
]

-- CreateSyncJob
unfoldable pub create_sync_job :
    ℕ → ℕ → SyncJob → MemoryDiscoveryStore → SyncJob × MemoryDiscoveryStore
create_sync_job fresh now job s =
    let stored = record job {
      id = id_or fresh job.id;
      created_at = if job.created_at == 0 then now else job.created_at;
    } in
    (stored, record s { sync_jobs = put stored.id stored s.sync_jobs })

-- UpdateSyncJob
unfoldable pub update_sync_job :
    SyncJob → MemoryDiscoveryStore → Option StoreError × MemoryDiscoveryStore
update_sync_job job s = elim (lookup job.id s.sync_jobs) [
  | none ↦ (some err_not_found, s)
  | some old ↦ (none, record s { sync_jobs = put job.id job s.sync_jobs })
]

-- GetSyncJob
abbrev pub get_sync_job : ℕ → MemoryDiscoveryStore → Option SyncJob
get_sync_job id s = lookup id s.sync_jobs

-- A pending job of the agent
abbrev pub is_claimable : ℕ → SyncJob → Bool
is_claimable agent_id j =
    str_eq j.status sync_job_status_pending
    && (str_eq j.source "agent" && points_to agent_id j.agent_id)

-- Whether a job takes the place of the one selected so far
abbrev pub is_earlier : SyncJob → Option SyncJob → Bool
is_earlier j none = true
is_earlier j (some selected) = ltb j.created_at selected.created_at

-- The loop of ClaimPendingAgentSync
unfoldable pub select_job : ℕ → Table SyncJob → Option SyncJob → Option SyncJob
select_job agent_id [] selected = selected
select_job agent_id ((id, j) ∷ rest) selected =
    select_job agent_id rest
      (if is_claimable agent_id j && is_earlier j selected then some j else selected)

abbrev pub running_job : ℕ → SyncJob → SyncJob
running_job now job = record job { status = sync_job_status_running; started_at = some now }

-- ClaimPendingAgentSync
unfoldable pub claim_pending_agent_sync :
    ℕ → ℕ → MemoryDiscoveryStore → Option SyncJob × MemoryDiscoveryStore
unfolding select_job
claim_pending_agent_sync now agent_id s = elim (select_job agent_id s.sync_jobs none) [
  | none ↦ (none, s)
  | some job ↦ (
    some (running_job now job),
    record s { sync_jobs = put job.id (running_job now job) s.sync_jobs },
  )
]

abbrev created_before : ℕ → Option DiscoveryAgent → ℕ
created_before now none = now
created_before now (some existing) = existing.created_at

-- UpsertAgent
unfoldable pub upsert_agent : ℕ → ℕ → DiscoveryAgent → MemoryDiscoveryStore → MemoryDiscoveryStore
upsert_agent fresh now agent s =
    let id = id_or fresh agent.id in
    let created =
      if agent.created_at == 0 then created_before now (lookup id s.agents) else agent.created_at in
    record s { agents = put id (record agent { id = id; created_at = created }) s.agents }

-- GetAgent
abbrev pub get_agent : ℕ → MemoryDiscoveryStore → Option DiscoveryAgent
get_agent id s = lookup id s.agents

-- A job without its link to a deleted agent
abbrev pub released_job : ℕ → SyncJob → SyncJob
released_job id job = record job {
  agent_id = if points_to id job.agent_id then none else job.agent_id;
}

-- DeleteAgent
unfoldable pub delete_agent : ℕ → MemoryDiscoveryStore → Option StoreError × MemoryDiscoveryStore
unfolding map_values
delete_agent id s = elim (lookup id s.agents) [
  | none ↦ (some err_not_found, s)
  | some a ↦ (
    none,
    record s { sync_jobs = map_values (released_job id) s.sync_jobs; agents = remove id s.agents },
  )
]
