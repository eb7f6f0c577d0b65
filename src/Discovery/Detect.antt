-- ===== src/Discovery/Detect.antt =====
-- `Detect` and `listActiveResources` of internal/discovery/drift.go. Pages hold 1000 resources; the
-- loop over the pages has one step for each resource found and one more.
use cloudpam.Base.{ℕ, suc, String, Option, none, some, List, [], ◌∷◌, length, ◌+◌}
use cloudpam.Net.Cidr.{Netip}
use cloudpam.Domain.{Pool, Account}
use cloudpam.Domain.Discovery.{DiscoveredResource}
use cloudpam.Domain.Drift.{RunDriftDetectionResponse}
use cloudpam.Storage.Memory.{MemoryStore, list_pools}
use cloudpam.Storage.Memory.Accounts.{list_accounts}
use cloudpam.Storage.Discovery.{MemoryDiscoveryStore}
use cloudpam.Storage.Discovery.Lists.{Listed, list_discovered_resources}
use cloudpam.Storage.Drift.{DriftStore, delete_open_for_account}
use cloudpam.Discovery.{
  Run, active_page, collect_pages, total_of, build_summary, target_accounts, pools_of,
}
use cloudpam.Discovery.Passes.{check_resources, check_pools}

module _ (sort : (V : Type 0) → (V → ℕ) → List V → List V) (lower : String → String) where
  unfoldable pub active_listing : MemoryDiscoveryStore → ℕ → ℕ → Listed DiscoveredResource
  unfolding list_discovered_resources
  active_listing s account_id page =
      list_discovered_resources sort lower account_id (active_page page 1000) s

  -- listActiveResources
  unfoldable pub list_active_resources : ℕ → MemoryDiscoveryStore → Option (List DiscoveredResource)
  unfolding active_listing collect_pages
  list_active_resources account_id s =
      collect_pages (active_listing s account_id) (suc (total_of (active_listing s account_id 1))) 1
        []

  module _ (netip : Netip) (quote : String → String) (ids : ℕ → String) (now : ℕ) where
    -- Both passes on one account
    unfoldable pub check_account : MemoryStore → List Pool → ℕ → List DiscoveredResource → Run → Run
    unfolding check_resources check_pools pools_of
    check_account m pools account_id resources run =
        check_pools netip quote ids now resources account_id (pools_of account_id pools) (
          check_resources netip quote ids now m account_id resources
            (record run { resources = run.resources + length resources }))

    -- The body of the loop over the accounts
    unfoldable pub detect_account :
        MemoryStore → MemoryDiscoveryStore → List Pool → ℕ → Run → Option Run
    unfolding list_active_resources check_account delete_open_for_account
    detect_account m s pools account_id run = elim (list_active_resources account_id s) [
      | none ↦ none
      | some resources ↦ some (
          check_account m pools account_id resources
            (record run { drifts = delete_open_for_account account_id run.drifts }))
    ]

    unfoldable pub detect_accounts :
        MemoryStore → MemoryDiscoveryStore → List Pool → List Account → Run → Option Run
    unfolding detect_account
    detect_accounts m s pools [] run = some run
    detect_accounts m s pools (a ∷ accounts) run = elim (detect_account m s pools a.id run) [
      | none ↦ none
      | some next ↦ detect_accounts m s pools accounts next
    ]

    abbrev pub response : ℕ → ℕ → Run → RunDriftDetectionResponse
    response accounts pools run = record {
      items = run.items;
      total = length run.items;
      summary = build_summary run.items accounts run.resources pools;
    }

    -- Detect: the response, and the drift store after it
    unfoldable pub detect :
        List ℕ
        → MemoryStore
        → MemoryDiscoveryStore
        → DriftStore
        → Option (RunDriftDetectionResponse × DriftStore)
    unfolding detect_accounts target_accounts
    detect account_ids m s drifts =
        let targets = target_accounts account_ids (list_accounts m) in
        let pools = list_pools m in
        elim (detect_accounts m s pools targets
          (record { drifts = drifts; items = []; drawn = 0; resources = 0 })) [
            | none ↦ none
            | some run ↦ some (response (length targets) (length pools) run, run.drifts)
          ]
