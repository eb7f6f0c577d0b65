-- ===== src/Domain/Drift.antt =====
-- internal/domain/drift.go: items of drift between the cloud and the managed pools.
use cloudpam.Base.{ℕ, String, Option, List}
use cloudpam.Domain.{Tags}

-- DriftTypeUnmanaged, DriftTypeCIDRMismatch, DriftTypeOrphanedPool
abbrev pub drift_type_unmanaged : String
drift_type_unmanaged = "unmanaged"

abbrev pub drift_type_cidr_mismatch : String
drift_type_cidr_mismatch = "cidr_mismatch"

abbrev pub drift_type_orphaned_pool : String
drift_type_orphaned_pool = "orphaned_pool"

-- DriftSeverityCritical, DriftSeverityWarning, DriftSeverityInfo
abbrev pub drift_severity_critical : String
drift_severity_critical = "critical"

abbrev pub drift_severity_warning : String
drift_severity_warning = "warning"

abbrev pub drift_severity_info : String
drift_severity_info = "info"

-- DriftStatusOpen, DriftStatusResolved
abbrev pub drift_status_open : String
drift_status_open = "open"

abbrev pub drift_status_resolved : String
drift_status_resolved = "resolved"

pub record DriftItem : Type 0 where
  pub id : String
  pub account_id : ℕ
  pub resource_id : Option ℕ
  pub pool_id : Option ℕ
  pub type : String
  pub severity : String
  pub status : String
  pub title : String
  pub description : String
  pub resource_cidr : String
  pub pool_cidr : String
  pub details : Option Tags
  pub ignore_reason : String
  pub resolved_at : Option ℕ
  pub detected_at : ℕ
  pub updated_at : ℕ

-- A page or a page size below 1 is 0 here.
pub record DriftFilters : Type 0 where
  pub account_id : ℕ
  pub type : String
  pub severity : String
  pub status : String
  pub page : ℕ
  pub page_size : ℕ

-- A count per severity or type is kept by its name.
pub record DriftSummary : Type 0 where
  pub total_drifts : ℕ
  pub by_severity : List (String × ℕ)
  pub by_type : List (String × ℕ)
  pub accounts_scanned : ℕ
  pub resources_scanned : ℕ
  pub pools_scanned : ℕ

pub record RunDriftDetectionResponse : Type 0 where
  pub items : List DriftItem
  pub total : ℕ
  pub summary : DriftSummary
