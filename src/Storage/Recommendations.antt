-- ===== src/Storage/Recommendations.antt =====
-- `MemoryRecommendationStore` of internal/storage/recommendations_memory.go: the recommendations by
-- id. Each operation runs under the store's lock, so it is one step; `now` is the clock. A clone
-- (`cloneRecommendation`) is the value itself.
use cloudpam.Base.{
  ℕ, String, Bool, true, ◌&&◌, Option, none, some, List, [], ◌∷◌, length, ◌==◌, str_eq,
  if◌then◌else◌,
}
use cloudpam.Base.Dict.{Dict, find, set, drop_where}
use cloudpam.Domain.Recommendation.{
  Recommendation, RecommendationFilters, recommendation_status_pending,
}
use cloudpam.Storage.Memory.{StoreError, err_not_found}
use cloudpam.Storage.Discovery.Lists.{wanted, page_slice, Listed, with_total}

abbrev pub RecommendationStore : Type 0
RecommendationStore = Dict Recommendation

-- NewMemoryRecommendationStore makes the empty map.
abbrev pub new_memory_recommendation_store : RecommendationStore
new_memory_recommendation_store = []

-- CreateRecommendation
abbrev pub create_recommendation : Recommendation → RecommendationStore → RecommendationStore
create_recommendation rec s = set s rec.id rec

-- GetRecommendation; `none` is ErrNotFound.
abbrev pub get_recommendation : String → RecommendationStore → Option Recommendation
get_recommendation id s = find s id

-- What the loop of ListRecommendations lets pass; the pool 0 is any.
abbrev pub passes_recommendation_filters : RecommendationFilters → Recommendation → Bool
passes_recommendation_filters filters r =
    (if filters.pool_id == 0 then true else r.pool_id == filters.pool_id)
    && (wanted filters.type r.type
        && (wanted filters.status r.status && wanted filters.priority r.priority))

unfoldable pub filtered_recommendations :
    RecommendationFilters → RecommendationStore → List Recommendation
filtered_recommendations filters [] = []
filtered_recommendations filters ((id, r) ∷ rest) =
    let found = filtered_recommendations filters rest in
    if passes_recommendation_filters filters r then r ∷ found else found

-- ListRecommendations; `sort` is sort.Slice by the time of creation, the latest first.
unfoldable pub list_recommendations :
    (List Recommendation → List Recommendation)
    → RecommendationFilters
    → RecommendationStore
    → Listed Recommendation
unfolding filtered_recommendations page_slice
list_recommendations sort filters s =
    let found = sort (filtered_recommendations filters s) in
    with_total (length found) (page_slice filters.page filters.page_size found)

-- UpdateRecommendationStatus
abbrev pub recommendation_with_status :
    ℕ → String → String → Option ℕ → Recommendation → Recommendation
recommendation_with_status now status reason pool r = record r {
  status = status;
  dismiss_reason = reason;
  applied_pool_id = pool;
  updated_at = now;
}

unfoldable pub update_recommendation_status :
    ℕ
    → String
    → String
    → String
    → Option ℕ
    → RecommendationStore
    → Option StoreError × RecommendationStore
update_recommendation_status now id status reason pool s = elim (find s id) [
  | none ↦ (some err_not_found, s)
  | some r ↦ (none, set s id (recommendation_with_status now status reason pool r))
]

-- DeletePendingForPool
abbrev pub is_pending_of : ℕ → Recommendation → Bool
is_pending_of pool_id r = r.pool_id == pool_id && str_eq r.status recommendation_status_pending

unfoldable pub delete_pending_for_pool : ℕ → RecommendationStore → RecommendationStore
unfolding drop_where
delete_pending_for_pool pool_id s = drop_where (is_pending_of pool_id) s
