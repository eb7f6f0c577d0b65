-- ===== src/Tests/Cloud.antt =====
-- The theorems on discovered resources, sync jobs and drift, at concrete stores.
use cloudpam.Base.{
  ℕ, ◌+◌, ◌<◌, arith, length, ◌≡◌, ◌≤◌, inl, refl, true, false, [], ◌∷◌, some, none, List, String,
  All, ◌==◌, if◌then◌else◌,
}
use cloudpam.Base.Int64.{int_limit}
use cloudpam.Base.Table.{lookup, put}
use cloudpam.Net.Cidr.{Netip}
use cloudpam.Domain.{Account}
use cloudpam.Domain.Discovery.{DiscoveredResource, SyncJob}
use cloudpam.Domain.Drift.{RunDriftDetectionResponse}
use cloudpam.Storage.Memory.{MemoryStore, new_memory_store}
use cloudpam.Storage.Memory.Accounts.{live_accounts}
use cloudpam.Storage.Drift.{DriftStore}
use cloudpam.Storage.Discovery.{
  MemoryDiscoveryStore, new_memory_discovery_store, get_discovered_resource, get_sync_job,
  merged_resource, upsert_discovered_resource, create_sync_job, is_claimable, running_job,
  claim_pending_agent_sync,
}
use cloudpam.Storage.Discovery.Lists.{filtered_resources}
use cloudpam.Storage.Discovery.Upsert.{
  Reachable, start, then_step, upserts, creates_job, get_discovered_resource_unique,
  get-upsert_discovered_resource,
}
use cloudpam.Storage.Discovery.Claim.Jobs.{claim_pending_agent_sync-oldest}
use cloudpam.Discovery.{active_page, target_accounts}
use cloudpam.Discovery.Detect.{list_active_resources, detect}
use cloudpam.Discovery.Paging.{list_active_resources-all}
use cloudpam.Discovery.Current.{Accounted, detect-current}

abbrev vpc : DiscoveredResource
vpc = record {
  id = 0;
  account_id = 1;
  provider = "aws";
  region = "eu-west-1";
  resource_type = "vpc";
  resource_id = "vpc-1";
  name = "main";
  cidr = "10.0.0.0/16";
  parent_resource_id = none;
  pool_id = none;
  status = "active";
  metadata = none;
  discovered_at = 5;
  last_seen_at = 5;
}

abbrev stored_vpc : DiscoveredResource
stored_vpc = record vpc { id = 9 }

abbrev one_resource : MemoryDiscoveryStore
one_resource = upsert_discovered_resource 9 vpc new_memory_discovery_store

one_resource-Reachable : Reachable one_resource
one_resource-Reachable = then_step new_memory_discovery_store one_resource start (upserts 9 vpc)

vpc_stored : get_discovered_resource 9 one_resource ≡ some stored_vpc
unfolding upsert_discovered_resource lookup put
vpc_stored = refl

get_discovered_resource_unique_example : (◌≡◌ {A = ℕ} 9 9) × (stored_vpc ≡ stored_vpc)
get_discovered_resource_unique_example =
    get_discovered_resource_unique one_resource 9 9 stored_vpc stored_vpc one_resource-Reachable
      vpc_stored vpc_stored refl

get-upsert_discovered_resource_example :
    get_discovered_resource 9 (upsert_discovered_resource 7 vpc one_resource)
    ≡ some (merged_resource 9 vpc stored_vpc)
get-upsert_discovered_resource_example =
    get-upsert_discovered_resource 7 vpc stored_vpc one_resource 9 9 one_resource-Reachable
      vpc_stored refl

abbrev job : SyncJob
job = record {
  id = 3;
  account_id = 1;
  status = "pending";
  source = "agent";
  agent_id = some 4;
  started_at = none;
  completed_at = none;
  resources_found = 0;
  resources_created = 0;
  resources_updated = 0;
  resources_deleted = 0;
  error_message = "";
  created_at = 2;
}

abbrev one_job : MemoryDiscoveryStore
one_job = (create_sync_job 8 2 job new_memory_discovery_store).1

job_stored : get_sync_job 3 one_job ≡ some job
unfolding create_sync_job lookup put
job_stored = refl

claim_pending_agent_sync-oldest_example :
    (claimed : SyncJob) × ((claim_pending_agent_sync 6 4 one_job).0 ≡ some (running_job 6 claimed))
    × (get_sync_job claimed.id one_job ≡ some claimed)
    × (is_claimable 4 claimed ≡ true)
    × (claimed.created_at ≤ 2)
    × ((i : ℕ)
        → get_sync_job i (claim_pending_agent_sync 6 4 one_job).1
          ≡ (if claimed.id == i then some (running_job 6 claimed) else get_sync_job i one_job))
    × ((b : ℕ) → is_claimable b (running_job 6 claimed) ≡ false)
claim_pending_agent_sync-oldest_example =
    claim_pending_agent_sync-oldest 6 4 3 job one_job
      (then_step new_memory_discovery_store one_job start (creates_job 8 2 job)) job_stored refl

-- One resource needs no sorting, and lower-casing is not asked for.
abbrev unsorted : (V : Type 0) → (V → ℕ) → List V → List V
unsorted V key xs = xs

abbrev as_is : String → String
as_is s = s

few_listed :
    (account_id : ℕ)
    → length
          (filtered_resources unsorted as_is account_id (active_page 1 1000) one_resource.resources)
        + 1000
      < int_limit
unfolding filtered_resources upsert_discovered_resource put
few_listed account_id = ground arith

list_active_resources-all_example :
    list_active_resources unsorted as_is 1 one_resource
    ≡ some (filtered_resources unsorted as_is 1 (active_page 1 1000) one_resource.resources)
list_active_resources-all_example =
    list_active_resources-all unsorted as_is 1 one_resource (few_listed 1)

-- A netip that reads nothing, and ids by number
abbrev no_netip : Netip
no_netip = record { parse_prefix = λ s. none; parse_addr = λ s. none }

abbrev drawn_id : ℕ → String
drawn_id n = if n == 0 then "a" else "b"

abbrev cloud_account : Account
cloud_account = record {
  id = 1;
  key = "aws:1";
  name = "one";
  provider = "aws";
  external_id = "";
  description = "";
  platform = "";
  tier = "";
  environment = "";
  regions = none;
  created_at = 1;
  updated_at = 1;
  deleted_at = none;
}

abbrev one_account : MemoryStore
one_account = record new_memory_store { accounts = (1, cloud_account) ∷ []; next_account = 2 }

detect-current_example :
    (reply : RunDriftDetectionResponse) × (after : DriftStore) × (detect unsorted as_is no_netip
        as_is drawn_id 6 [] one_account one_resource []
      ≡ some (reply, after))
    × All (Accounted 1 reply.items) after
unfolding target_accounts live_accounts
detect-current_example =
    detect-current unsorted as_is no_netip as_is drawn_id 6 one_resource few_listed [] one_account
      [] cloud_account (inl refl)
