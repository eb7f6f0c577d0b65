-- ===== src/Storage/Drift.antt =====
-- `MemoryDriftStore` of internal/storage/drift_memory.go: the items of drift by id. Each operation
-- runs under the store's lock, so it is one step; `now` is the clock. A clone (`cloneDriftItem`) is
-- the value itself.
use cloudpam.Base.{
  ℕ, String, Bool, true, ◌&&◌, Option, none, some, List, [], ◌∷◌, length, ◌==◌, str_eq,
  if◌then◌else◌,
}
use cloudpam.Base.Dict.{Dict, find, set, drop_where}
use cloudpam.Domain.{Tags}
use cloudpam.Domain.Drift.{DriftItem, DriftFilters, drift_status_open, drift_status_resolved}
use cloudpam.Storage.Memory.{StoreError, err_not_found}
use cloudpam.Storage.Discovery.Lists.{wanted, page_slice, Listed, with_total}

-- NewMemoryDriftStore makes the empty map.
abbrev pub DriftStore : Type 0
DriftStore = Dict DriftItem

abbrev pub new_memory_drift_store : DriftStore
new_memory_drift_store = []

-- CreateDriftItem
abbrev pub create_drift_item : DriftItem → DriftStore → DriftStore
create_drift_item item s = set s item.id item

-- GetDriftItem; `none` is ErrNotFound.
abbrev pub get_drift_item : String → DriftStore → Option DriftItem
get_drift_item id s = find s id

-- What the loop of ListDriftItems lets pass; the account 0 is any.
abbrev pub passes_drift_filters : DriftFilters → DriftItem → Bool
passes_drift_filters filters d =
    (if filters.account_id == 0 then true else d.account_id == filters.account_id)
    && (wanted filters.type d.type
        && (wanted filters.severity d.severity && wanted filters.status d.status))

unfoldable pub filtered_drifts : DriftFilters → DriftStore → List DriftItem
filtered_drifts filters [] = []
filtered_drifts filters ((id, d) ∷ rest) =
    let found = filtered_drifts filters rest in
    if passes_drift_filters filters d then d ∷ found else found

-- ListDriftItems; `sort` is sort.Slice by the time of detection, the latest first.
unfoldable pub list_drift_items :
    (List DriftItem → List DriftItem) → DriftFilters → DriftStore → Listed DriftItem
unfolding filtered_drifts page_slice
list_drift_items sort filters s =
    let found = sort (filtered_drifts filters s) in
    with_total (length found) (page_slice filters.page filters.page_size found)

-- UpdateDriftStatus
abbrev pub drift_with_status : ℕ → String → String → DriftItem → DriftItem
drift_with_status now status reason d = record d {
  status = status;
  ignore_reason = reason;
  updated_at = now;
  resolved_at = if str_eq status drift_status_resolved then some now else d.resolved_at;
}

unfoldable pub update_drift_status :
    ℕ → String → String → String → DriftStore → Option StoreError × DriftStore
update_drift_status now id status reason s = elim (find s id) [
  | none ↦ (some err_not_found, s)
  | some d ↦ (none, set s id (drift_with_status now status reason d))
]

-- UpdateDriftDetails: each given detail is set; a nil map is made first.
unfoldable pub set_details : Tags → Tags → Tags
set_details [] old = old
set_details ((key, value) ∷ rest) old = set_details rest (set old key value)

abbrev pub details_of : Option Tags → Tags
details_of none = []
details_of (some old) = old

unfoldable pub update_drift_details :
    ℕ → String → Tags → DriftStore → Option StoreError × DriftStore
unfolding set_details
update_drift_details now id details s = elim (find s id) [
  | none ↦ (some err_not_found, s)
  | some d ↦ (
    none,
    set s id (record d {
      details = some (set_details details (details_of d.details));
      updated_at = now;
    }),
  )
]

-- DeleteOpenForAccount
abbrev pub is_open_of : ℕ → DriftItem → Bool
is_open_of account_id d = d.account_id == account_id && str_eq d.status drift_status_open

unfoldable pub delete_open_for_account : ℕ → DriftStore → DriftStore
unfolding drop_where
delete_open_for_account account_id s = drop_where (is_open_of account_id) s
