-- ===== src/Storage/Discovery/Claim/Jobs.antt =====
-- The sync jobs of internal/storage/discovery_memory.go: each stands under its own id, and a claim
-- hands out the oldest pending one.
use cloudpam.Base.{
  ℕ, ◌≤◌, ◌≡◌, refl, sym, ap, ◌∙◌, subst, arith, inl, inr, Bool-cases, Option-cases, ==_iff, true,
  false, Option, some, none, [], ◌==◌, if◌then◌else◌,
}
use cloudpam.Base.Table.{Table, lookup, put, lookup-put, IsTable, IsTable-put}
use cloudpam.Base.Entries.{first_entry, IsTable-map_values, map_values-was}
use cloudpam.Domain.Discovery.{DiscoveredResource, SyncJob}
use cloudpam.Storage.Discovery.{
  MemoryDiscoveryStore, get_sync_job, same_resource, upsert_discovered_resource,
  mark_stale_resources, relink, link_resource_to_pool, unlink_resource, delete_discovered_resource,
  create_sync_job, update_sync_job, select_job, is_claimable, running_job, released_job,
  claim_pending_agent_sync, upsert_agent, delete_agent,
}
use cloudpam.Storage.Discovery.Upsert.{
  Step, Reachable, upserts, marks, links, unlinks, deletes, creates_job, updates_job, claims,
  upserts_agent, deletes_agent, start, then_step,
}
use cloudpam.Storage.Discovery.Claim.{select_job-from, select_job-oldest}

pub record HasJobs (m : Table SyncJob) : Type 0 where
  pub table : IsTable m
  pub own_id : (i : ℕ) (j : SyncJob) → lookup i m ≡ some j → j.id ≡ i

put-HasJobs : (job : SyncJob) (m : Table SyncJob) → HasJobs m → HasJobs (put job.id job m)
put-HasJobs job m h = record {
  table = IsTable-put job.id job m h.table;
  own_id = λ i j l.
      let at = lookup-put job.id i job m in
      elim (Bool-cases (job.id == i)) [
        | inl f ↦
            let this : job ≡ j = ground arith in sym (ap (λ x. x.id) this) ∙ (==_iff job.id i).0 f
        | inr f ↦ h.own_id i j (ground arith)
      ];
}

update_sync_job-HasJobs :
    (job : SyncJob) (s : MemoryDiscoveryStore)
    → HasJobs s.sync_jobs
    → HasJobs (update_sync_job job s).1.sync_jobs
unfolding update_sync_job
update_sync_job-HasJobs job s h = elim (Option-cases (lookup job.id s.sync_jobs)) [
  | inl n ↦ rw (update_sync_job, n) h
  | inr (old, n) ↦ rw (update_sync_job, n) (put-HasJobs job s.sync_jobs h)
]

claim-HasJobs :
    (now a : ℕ) (s : MemoryDiscoveryStore)
    → HasJobs s.sync_jobs
    → HasJobs (claim_pending_agent_sync now a s).1.sync_jobs
unfolding claim_pending_agent_sync
claim-HasJobs now a s h = elim (Option-cases (select_job a s.sync_jobs none)) [
  | inl n ↦ rw (claim_pending_agent_sync, n) h
  | inr (job, n) ↦
      rw (claim_pending_agent_sync, n) (put-HasJobs (running_job now job) s.sync_jobs h)
]

delete_agent-HasJobs :
    (id : ℕ) (s : MemoryDiscoveryStore)
    → HasJobs s.sync_jobs
    → HasJobs (delete_agent id s).1.sync_jobs
unfolding delete_agent
delete_agent-HasJobs id s h = elim (Option-cases (lookup id s.agents)) [
  | inl n ↦ rw (delete_agent, n) h
  | inr (a, n) ↦
      rw (delete_agent, n)
        (record {
          table = IsTable-map_values (released_job id) s.sync_jobs h.table;
          own_id = λ i j l.
              let (w, at, e) = map_values-was (released_job id) i j s.sync_jobs l in
              sym (ap (λ x. x.id) e) ∙ h.own_id i w at;
        })
]

-- The operations on resources leave the jobs.
upsert-sync_jobs :
    (fresh : ℕ) (res : DiscoveredResource) (s : MemoryDiscoveryStore)
    → (upsert_discovered_resource fresh res s).sync_jobs ≡ s.sync_jobs
unfolding upsert_discovered_resource
upsert-sync_jobs fresh res s = elim (Option-cases (first_entry (same_resource res) s.resources)) [
  | inl n ↦ rw (upsert_discovered_resource, n) refl
  | inr (found, n) ↦ rw (upsert_discovered_resource, n) refl
]

relink-sync_jobs :
    (pool : Option ℕ) (id : ℕ) (s : MemoryDiscoveryStore)
    → (relink pool id s).1.sync_jobs ≡ s.sync_jobs
unfolding relink
relink-sync_jobs pool id s = elim (Option-cases (lookup id s.resources)) [
  | inl n ↦ rw (relink, n) refl
  | inr (r, n) ↦ rw (relink, n) refl
]

delete-sync_jobs :
    (id : ℕ) (s : MemoryDiscoveryStore)
    → (delete_discovered_resource id s).1.sync_jobs ≡ s.sync_jobs
unfolding delete_discovered_resource
delete-sync_jobs id s = elim (Option-cases (lookup id s.resources)) [
  | inl n ↦ rw (delete_discovered_resource, n) refl
  | inr (r, n) ↦ rw (delete_discovered_resource, n) refl
]

Step-HasJobs : (s t : MemoryDiscoveryStore) → Step s t → HasJobs s.sync_jobs → HasJobs t.sync_jobs
unfolding link_resource_to_pool unlink_resource mark_stale_resources create_sync_job upsert_agent
Step-HasJobs s t (upserts fresh res) h = subst HasJobs (sym (upsert-sync_jobs fresh res s)) h
Step-HasJobs s t (marks account_id before) h = h
Step-HasJobs s t (links id pool) h = subst HasJobs (sym (relink-sync_jobs (some pool) id s)) h
Step-HasJobs s t (unlinks id) h = subst HasJobs (sym (relink-sync_jobs none id s)) h
Step-HasJobs s t (deletes id) h = subst HasJobs (sym (delete-sync_jobs id s)) h
Step-HasJobs s t (creates_job fresh now job) h =
    put-HasJobs (create_sync_job fresh now job s).0 s.sync_jobs h
Step-HasJobs s t (updates_job job) h = update_sync_job-HasJobs job s h
Step-HasJobs s t (claims now id) h = claim-HasJobs now id s h
Step-HasJobs s t (upserts_agent fresh now agent) h = h
Step-HasJobs s t (deletes_agent id) h = delete_agent-HasJobs id s h

new-HasJobs : HasJobs []
unfolding lookup
new-HasJobs = record { table = tt; own_id = λ i j l. absurd (ground arith) }

Reachable-HasJobs : (s : MemoryDiscoveryStore) → Reachable s → HasJobs s.sync_jobs
Reachable-HasJobs s start = new-HasJobs
Reachable-HasJobs s (then_step before _ r t) = Step-HasJobs before s t (Reachable-HasJobs before r)

-- A running job is claimable by no agent.
running_job-unclaimable : (now b : ℕ) (job : SyncJob) → is_claimable b (running_job now job) ≡ false
running_job-unclaimable now b job = refl

-- In every store that the operations reach, when the agent has a pending job, a claim hands one out:
-- a pending job of the agent that is no younger than that one, now running since the time of the
-- claim. Afterwards the store has it so under its id, no other job has changed, and no agent can
-- claim it again.
pub claim_pending_agent_sync-oldest :
    (now a k : ℕ) (other : SyncJob) (s : MemoryDiscoveryStore)
    → Reachable s
    → get_sync_job k s ≡ some other
    → is_claimable a other ≡ true
    → (job : SyncJob) × ((claim_pending_agent_sync now a s).0 ≡ some (running_job now job))
      × (get_sync_job job.id s ≡ some job)
      × (is_claimable a job ≡ true)
      × (job.created_at ≤ other.created_at)
      × ((i : ℕ)
          → get_sync_job i (claim_pending_agent_sync now a s).1
            ≡ (if job.id == i then some (running_job now job) else get_sync_job i s))
      × ((b : ℕ) → is_claimable b (running_job now job) ≡ false)
unfolding claim_pending_agent_sync
claim_pending_agent_sync-oldest now a k other s reached l c =
    let h = Reachable-HasJobs s reached in
    let (job, e, older) = select_job-oldest a s.sync_jobs none k other l c in
    elim (select_job-from a s.sync_jobs none job h.table e) [
      | inl f ↦ absurd (cc)
      | inr (i, at, mine) ↦
          let own = ap (λ x. lookup x s.sync_jobs) (h.own_id i job at) in
          (
            job,
            rw (claim_pending_agent_sync, e) refl,
            own ∙ at,
            mine,
            older,
            λ x.
                rw (claim_pending_agent_sync, e)
                  (lookup-put job.id x (running_job now job) s.sync_jobs),
            λ b. running_job-unclaimable now b job,
          )
    ]
