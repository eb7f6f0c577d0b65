-- ===== src/Storage/Discovery/Lists.antt =====
-- The listings of internal/storage/discovery_memory.go. `sort` is sort.Slice by a time, the latest
-- first, and `lower` is strings.ToLower.
use cloudpam.Base.{
  ℕ, ◌+◌, ◌-◌, ◌*◌, String, Bool, true, not, ◌&&◌, ◌||◌, Option, none, some, List, [], ◌∷◌, length,
  take, ltb, ◌==◌, str_eq, if◌then◌else◌,
}
use cloudpam.Base.Int64.{int_limit, wrap_int, cut_int, slice_of}
use cloudpam.Base.Table.{Table}
use cloudpam.Domain.Discovery.{DiscoveredResource, SyncJob, DiscoveryAgent, DiscoveryFilters}
use cloudpam.Storage.Memory.{is_none}
use cloudpam.Storage.Memory.Search.{text_contains}
use cloudpam.Storage.Discovery.{MemoryDiscoveryStore}

-- An empty filter lets everything pass.
abbrev pub wanted : String → String → Bool
wanted filter text = if str_eq filter "" then true else str_eq text filter

abbrev pub wanted_link : Option Bool → Option ℕ → Bool
wanted_link none pool = true
wanted_link (some linked) pool = if linked then not (is_none pool) else is_none pool

-- The jobs and the agents of an account; the account 0 has every agent.
unfoldable pub account_jobs : ℕ → Table SyncJob → List SyncJob
account_jobs account_id [] = []
account_jobs account_id ((id, j) ∷ rest) =
    let jobs = account_jobs account_id rest in if j.account_id == account_id then j ∷ jobs else jobs

unfoldable pub account_agents : ℕ → Table DiscoveryAgent → List DiscoveryAgent
account_agents account_id [] = []
account_agents account_id ((id, a) ∷ rest) =
    let agents = account_agents account_id rest in
    if account_id == 0 || a.account_id == account_id then a ∷ agents else agents

-- The pagination of the listings, whose bounds are computed on ints and wrap. The page and its size
-- are ints, here below 2 ^ 63; one below 1 is 0. `none` is the panic on a slice out of range.
abbrev pub first_page : ℕ → ℕ
first_page page = if ltb page 1 then 1 else page

abbrev pub page_size_or : ℕ → ℕ
page_size_or size = if ltb size 1 then 50 else size

unfoldable pub page_slice : {V : Type 0} → ℕ → ℕ → List V → Option (List V)
page_slice page size found =
    let total = length found in
    let start = wrap_int ((first_page page - 1) * page_size_or size) in
    let end = cut_int total (wrap_int (start + page_size_or size)) in
    if ltb start int_limit && ltb total start then some [] else slice_of found start end

-- A listing: the page and the total, or the panic
abbrev pub Listed : Type 0 → Type 0
Listed V = Option (List V × ℕ)

abbrev pub with_total : {V : Type 0} → ℕ → Option (List V) → Listed V
with_total total none = none
with_total total (some page) = some (page, total)

module _ (sort : (V : Type 0) → (V → ℕ) → List V → List V) (lower : String → String) where
  abbrev pub matches_query : String → DiscoveredResource → Bool
  matches_query query r =
      if str_eq query ""
      then true
      else (text_contains (lower r.name) (lower query)
          || (text_contains (lower r.resource_id) (lower query)
              || text_contains (lower r.cidr) (lower query)))

  -- What the loop of ListDiscoveredResources lets pass
  abbrev pub passes_filters : ℕ → DiscoveryFilters → DiscoveredResource → Bool
  passes_filters account_id filters r =
      r.account_id == account_id
      && (wanted filters.provider r.provider
          && (wanted filters.region r.region
              && (wanted filters.resource_type r.resource_type
                  && (wanted filters.status r.status
                      && (matches_query filters.query r
                          && wanted_link filters.has_pool r.pool_id)))))

  unfoldable pub filtered_resources :
      ℕ → DiscoveryFilters → Table DiscoveredResource → List DiscoveredResource
  filtered_resources account_id filters [] = []
  filtered_resources account_id filters ((id, r) ∷ rest) =
      let found = filtered_resources account_id filters rest in
      if passes_filters account_id filters r then r ∷ found else found

  -- ListDiscoveredResources
  unfoldable pub list_discovered_resources :
      ℕ → DiscoveryFilters → MemoryDiscoveryStore → Listed DiscoveredResource
  unfolding page_slice filtered_resources
  list_discovered_resources account_id filters s =
      let found =
        sort DiscoveredResource (λ r. r.discovered_at)
          (filtered_resources account_id filters s.resources) in
      with_total (length found) (page_slice filters.page filters.page_size found)

  -- ListSyncJobs; a limit below 1 is 0 here.
  unfoldable pub list_sync_jobs : ℕ → ℕ → MemoryDiscoveryStore → List SyncJob
  unfolding account_jobs
  list_sync_jobs account_id limit s =
      let jobs = sort SyncJob (λ j. j.created_at) (account_jobs account_id s.sync_jobs) in
      if ltb 0 limit && ltb limit (length jobs) then take limit jobs else jobs

  -- ListAgents
  unfoldable pub list_agents : ℕ → MemoryDiscoveryStore → List DiscoveryAgent
  unfolding account_agents
  list_agents account_id s =
      sort DiscoveryAgent (λ a. a.created_at) (account_agents account_id s.agents)
