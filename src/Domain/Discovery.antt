-- ===== src/Domain/Discovery.antt =====
-- internal/domain/discovery.go: discovered resources, sync jobs and agents. A UUID is a number, the
-- nil UUID 0; a time is a number, the zero time 0.
use cloudpam.Base.{ℕ, String, Bool, Option, List, [], ◌∷◌}
use cloudpam.Domain.{Tags, one_of}

pub record DiscoveredResource : Type 0 where
  pub id : ℕ
  pub account_id : ℕ
  pub provider : String
  pub region : String
  pub resource_type : String
  pub resource_id : String
  pub name : String
  pub cidr : String
  pub parent_resource_id : Option String
  pub pool_id : Option ℕ
  pub status : String
  pub metadata : Option Tags
  pub discovered_at : ℕ
  pub last_seen_at : ℕ

pub record SyncJob : Type 0 where
  pub id : ℕ
  pub account_id : ℕ
  pub status : String
  pub source : String
  pub agent_id : Option ℕ
  pub started_at : Option ℕ
  pub completed_at : Option ℕ
  pub resources_found : ℕ
  pub resources_created : ℕ
  pub resources_updated : ℕ
  pub resources_deleted : ℕ
  pub error_message : String
  pub created_at : ℕ

pub record DiscoveryAgent : Type 0 where
  pub id : ℕ
  pub name : String
  pub account_id : ℕ
  pub api_key_id : String
  pub status : String
  pub approval_status : String
  pub version : String
  pub hostname : String
  pub last_seen_at : ℕ
  pub registered_at : Option ℕ
  pub approved_at : Option ℕ
  pub approved_by : Option String
  pub created_at : ℕ

-- A page or a page size below 1 is 0 here.
pub record DiscoveryFilters : Type 0 where
  pub provider : String
  pub region : String
  pub resource_type : String
  pub status : String
  pub query : String
  pub has_pool : Option Bool
  pub page : ℕ
  pub page_size : ℕ

-- DiscoveryStatusActive, DiscoveryStatusStale
abbrev pub discovery_status_active : String
discovery_status_active = "active"

abbrev pub discovery_status_stale : String
discovery_status_stale = "stale"

-- SyncJobStatusPending, SyncJobStatusRunning
abbrev pub sync_job_status_pending : String
sync_job_status_pending = "pending"

abbrev pub sync_job_status_running : String
sync_job_status_running = "running"

-- ValidCloudResourceTypes
abbrev pub valid_cloud_resource_types : List String
valid_cloud_resource_types = "vpc" ∷ "subnet" ∷ "network_interface" ∷ "elastic_ip" ∷ []

-- IsValidCloudResourceType
unfoldable pub is_valid_cloud_resource_type : String → Bool
unfolding one_of
is_valid_cloud_resource_type t = one_of t valid_cloud_resource_types

-- ValidDiscoveryStatuses
abbrev pub valid_discovery_statuses : List String
valid_discovery_statuses = discovery_status_active ∷ discovery_status_stale ∷ "deleted" ∷ []

-- IsValidDiscoveryStatus
unfoldable pub is_valid_discovery_status : String → Bool
unfolding one_of
is_valid_discovery_status s = one_of s valid_discovery_statuses
