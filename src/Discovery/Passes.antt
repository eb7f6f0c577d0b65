-- ===== src/Discovery/Passes.antt =====
-- The two passes of `Detect` of internal/discovery/drift.go, and the items that they make.
use Prim.Native.String.{◌++◌ as concat}
use cloudpam.Base.{
  ℕ, ◌+◌, String, not, ◌||◌, Option, none, some, List, [], ◌∷◌, ◌++◌, str_eq, if◌then◌else◌,
}
use cloudpam.Net.Cidr.{Netip}
use cloudpam.Domain.{Pool}
use cloudpam.Domain.Discovery.{DiscoveredResource}
use cloudpam.Domain.Drift.{
  DriftItem, drift_type_unmanaged, drift_type_cidr_mismatch, drift_type_orphaned_pool,
  drift_severity_critical, drift_severity_warning, drift_severity_info, drift_status_open,
}
use cloudpam.Storage.Memory.{MemoryStore, get_pool}
use cloudpam.Storage.Drift.{create_drift_item}
use cloudpam.Discovery.{Run, cidrs_equal, is_linked}

module _ (netip : Netip) (quote : String → String) (ids : ℕ → String) (now : ℕ) where
  unfoldable pub unmanaged_item : String → ℕ → DiscoveredResource → DriftItem
  unmanaged_item id account_id res = record {
    id = id;
    account_id = account_id;
    resource_id = some res.id;
    pool_id = none;
    type = drift_type_unmanaged;
    severity =
        if str_eq res.resource_type "network_interface" || str_eq res.resource_type "elastic_ip"
        then drift_severity_info
        else drift_severity_warning;
    status = drift_status_open;
    title = concat "Unmanaged " (concat res.resource_type (concat ": " res.name));
    description = concat "Cloud resource " (
        concat res.resource_id (
          concat " ("
            (concat res.cidr (concat ") in " (concat res.region " has no linked IPAM pool")))));
    resource_cidr = res.cidr;
    pool_cidr = "";
    details = some (
        ("resource_type", res.resource_type)
        ∷ ("region", res.region)
        ∷ ("provider", res.provider)
        ∷ []);
    ignore_reason = "";
    resolved_at = none;
    detected_at = now;
    updated_at = now;
  }

  unfoldable pub mismatch_item : String → ℕ → DiscoveredResource → Pool → DriftItem
  mismatch_item id account_id res pool = record {
    id = id;
    account_id = account_id;
    resource_id = some res.id;
    pool_id = some pool.id;
    type = drift_type_cidr_mismatch;
    severity = drift_severity_critical;
    status = drift_status_open;
    title = concat "CIDR mismatch: " (concat res.cidr (concat " vs " pool.cidr));
    description = concat "Resource " (
        concat res.resource_id (
          concat " has CIDR " (
            concat res.cidr (
              concat " but linked pool "
                (concat (quote pool.name) (concat " has CIDR " pool.cidr))))));
    resource_cidr = res.cidr;
    pool_cidr = pool.cidr;
    details = some (("resource_id", res.resource_id) ∷ ("pool_name", pool.name) ∷ []);
    ignore_reason = "";
    resolved_at = none;
    detected_at = now;
    updated_at = now;
  }

  unfoldable pub orphan_item : String → ℕ → Pool → DriftItem
  orphan_item id account_id p = record {
    id = id;
    account_id = account_id;
    resource_id = none;
    pool_id = some p.id;
    type = drift_type_orphaned_pool;
    severity = drift_severity_warning;
    status = drift_status_open;
    title = concat "Orphaned pool: " p.name;
    description = concat "Pool " (
        concat (quote p.name) (
          concat " (" (
            concat p.cidr ") was created from discovery but has no active linked cloud resource")));
    resource_cidr = "";
    pool_cidr = p.cidr;
    details = some (("pool_name", p.name) ∷ []);
    ignore_reason = "";
    resolved_at = none;
    detected_at = now;
    updated_at = now;
  }

  -- What one step of the first pass finds
  unfoldable pub resource_drift : MemoryStore → String → ℕ → DiscoveredResource → Option DriftItem
  unfolding cidrs_equal get_pool unmanaged_item mismatch_item
  resource_drift m id account_id res = if str_eq res.cidr "" then none else elim res.pool_id [
    | none ↦ some (unmanaged_item id account_id res)
    | some pool_id ↦ elim (get_pool pool_id m) [
      | none ↦ none
      | some pool ↦
          if cidrs_equal netip res.cidr pool.cidr
          then none
          else some (mismatch_item id account_id res pool)
    ]
  ]

  -- What one step of the second pass finds
  unfoldable pub pool_drift : List DiscoveredResource → String → ℕ → Pool → Option DriftItem
  unfolding is_linked orphan_item
  pool_drift resources id account_id p =
      if not (str_eq p.source "discovered") || is_linked p.id resources
      then none
      else some (orphan_item id account_id p)

  -- An item is created in the store and appended to the run's items; it uses up an id.
  unfoldable pub add_item : Option DriftItem → Run → Run
  add_item none run = run
  add_item (some item) run = record run {
    drifts = create_drift_item item run.drifts;
    items = run.items ++ (item ∷ []);
    drawn = run.drawn + 1;
  }

  unfoldable pub check_resources : MemoryStore → ℕ → List DiscoveredResource → Run → Run
  unfolding resource_drift add_item
  check_resources m account_id [] run = run
  check_resources m account_id (res ∷ resources) run =
      check_resources m account_id resources
        (add_item (resource_drift m (ids run.drawn) account_id res) run)

  unfoldable pub check_pools : List DiscoveredResource → ℕ → List Pool → Run → Run
  unfolding pool_drift add_item
  check_pools resources account_id [] run = run
  check_pools resources account_id (p ∷ pools) run =
      check_pools resources account_id pools
        (add_item (pool_drift resources (ids run.drawn) account_id p) run)
