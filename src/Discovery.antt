-- ===== src/Discovery.antt =====
-- internal/discovery/drift.go: the comparison of discovered resources with the managed pools. The
-- stores are the in-memory ones, whose operations here return no error. `netip` parses prefixes,
-- `quote` is the verb %q, `ids` the strings that uuid.New draws, one after the other, `sort` is
-- sort.Slice and `lower` strings.ToLower; `now` is the clock.
pub mod Passes
pub mod Paging
pub mod Detect
pub mod Current
use Prim.Native.String.{◌++◌ as concat}
use cloudpam.Base.{
  ℕ, zero, suc, ◌+◌, String, Bool, true, false, not, ◌&&◌, ◌||◌, Option, none, some, List, [], ◌∷◌,
  ◌++◌, length, leb, ◌==◌, str_eq, if◌then◌else◌,
}
use cloudpam.Net.Ip.{Prefix, masked}
use cloudpam.Net.Cidr.{Netip}
use cloudpam.Domain.{Pool, Account, Tags}
use cloudpam.Domain.Discovery.{DiscoveredResource, DiscoveryFilters, discovery_status_active}
use cloudpam.Domain.Drift.{
  DriftItem, DriftSummary, RunDriftDetectionResponse, drift_type_unmanaged,
  drift_type_cidr_mismatch, drift_type_orphaned_pool, drift_severity_critical,
  drift_severity_warning, drift_severity_info, drift_status_open,
}
use cloudpam.Storage.Memory.{MemoryStore, list_pools, get_pool, points_to}
use cloudpam.Storage.Memory.Accounts.{list_accounts}
use cloudpam.Storage.Discovery.{MemoryDiscoveryStore}
use cloudpam.Storage.Discovery.Lists.{Listed}
use cloudpam.Storage.Drift.{DriftStore, create_drift_item, delete_open_for_account}

-- `==` on prefixes
abbrev pub same_prefix : Prefix → Prefix → Bool
same_prefix Prefix.invalid Prefix.invalid = true
same_prefix (Prefix.v4 a n) (Prefix.v4 b k) = a == b && n == k
same_prefix (Prefix.v6 a n) (Prefix.v6 b k) = a == b && n == k
same_prefix _ _ = false

abbrev both_parsed : String → String → Option Prefix → Option Prefix → Bool
both_parsed a b (some pa) (some pb) = same_prefix (masked pa) (masked pb)
both_parsed a b _ _ = str_eq a b

-- cidrsEqual
unfoldable pub cidrs_equal : Netip → String → String → Bool
cidrs_equal netip a b = both_parsed a b (netip.parse_prefix a) (netip.parse_prefix b)

-- The page that listActiveResources asks for
abbrev pub active_page : ℕ → ℕ → DiscoveryFilters
active_page page page_size = record {
  provider = "";
  region = "";
  resource_type = "";
  status = discovery_status_active;
  query = "";
  has_pool = none;
  page = page;
  page_size = page_size;
}

-- The loop of listActiveResources, on fuel; `none` is a panic of a listing, or no fuel left.
unfoldable pub collect_pages :
    (ℕ → Listed DiscoveredResource)
    → ℕ
    → ℕ
    → List DiscoveredResource
    → Option (List DiscoveredResource)
collect_pages listing zero page all = none
collect_pages listing (suc fuel) page all = elim (listing page) [
  | none ↦ none
  | some (resources, total) ↦
      let all' = all ++ resources in
      elim (length resources == 0 || leb total (length all')) [
        | true ↦ some all'
        | false ↦ collect_pages listing fuel (page + 1) all'
      ]
]

-- The total that a listing reports
abbrev pub total_of : Listed DiscoveredResource → ℕ
total_of none = 0
total_of (some (resources, total)) = total

-- What a run of the detection has done so far: the drift store, the items it made, how many ids it
-- drew, and how many resources it saw.
pub record Run : Type 0 where
  pub drifts : DriftStore
  pub items : List DriftItem
  pub drawn : ℕ
  pub resources : ℕ

-- buildSummary
unfoldable pub count_in : String → List (String × ℕ) → List (String × ℕ)
count_in name [] = (name, 1) ∷ []
count_in name ((other, n) ∷ rest) =
    if str_eq other name then (other, n + 1) ∷ rest else (other, n) ∷ count_in name rest

unfoldable pub counts :
    (DriftItem → String) → List DriftItem → List (String × ℕ) → List (String × ℕ)
unfolding count_in
counts name [] sofar = sofar
counts name (item ∷ items) sofar = counts name items (count_in (name item) sofar)

unfoldable pub build_summary : List DriftItem → ℕ → ℕ → ℕ → DriftSummary
unfolding counts
build_summary items accounts resources pools = record {
  total_drifts = length items;
  by_severity = counts (λ i. i.severity) items [];
  by_type = counts (λ i. i.type) items [];
  accounts_scanned = accounts;
  resources_scanned = resources;
  pools_scanned = pools;
}

-- The accounts of the request, or all without one
unfoldable pub requested : ℕ → List ℕ → Bool
requested id [] = false
requested id (wanted ∷ ids) = wanted == id || requested id ids

unfoldable pub target_accounts : List ℕ → List Account → List Account
unfolding requested
target_accounts ids [] = []
target_accounts ids (a ∷ accounts) =
    let rest = target_accounts ids accounts in
    if length ids == 0 || requested a.id ids then a ∷ rest else rest

-- poolsByAccount
unfoldable pub pools_of : ℕ → List Pool → List Pool
pools_of account_id [] = []
pools_of account_id (p ∷ pools) =
    let rest = pools_of account_id pools in
    if points_to account_id p.account_id then p ∷ rest else rest

-- Whether some resource is linked to the pool
unfoldable pub is_linked : ℕ → List DiscoveredResource → Bool
is_linked pool_id [] = false
is_linked pool_id (r ∷ resources) = points_to pool_id r.pool_id || is_linked pool_id resources
