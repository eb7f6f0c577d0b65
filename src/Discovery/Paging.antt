-- ===== src/Discovery/Paging.antt =====
-- `listActiveResources` of internal/discovery/drift.go ends, and has collected every page.
use cloudpam.Base.{
  ℕ, zero, suc, ◌+◌, ◌-◌, ◌*◌, ◌≤◌, ◌<◌, ◌≡◌, refl, sym, ap, ◌∙◌, arith, inl, inr, Bool-cases,
  String, ◌||◌, ◌&&◌, some, List, [], ◌∷◌, ◌++◌, length, length-take, length-drop, take, drop, ltb,
  leb, ◌==◌,
}
use cloudpam.Base.Int64.{int_limit, wrap_int-small, slice_of-cut}
use cloudpam.Base.Slices.{take-all, take_none, drop-all}
use cloudpam.Base.Table.{Table}
use cloudpam.Domain.Discovery.{DiscoveredResource}
use cloudpam.Storage.Discovery.{MemoryDiscoveryStore}
use cloudpam.Storage.Discovery.Lists.{
  page_slice, Listed, with_total, first_page, page_size_or, filtered_resources,
  list_discovered_resources,
}
use cloudpam.Discovery.{active_page, collect_pages, total_of}
use cloudpam.Discovery.Detect.{active_listing, list_active_resources}

module _ {V : Type 0} where
  take-add : (n k : ℕ) (xs : List V) → take n xs ++ take k (drop n xs) ≡ take (n + k) xs
  take-add zero k xs = ap (λ n. take n xs) (omega arith)
  take-add (suc n) k [] = take-all k [] (omega arith) ∙ sym (take-all (suc n + k) [] (omega arith))
  take-add (suc n) k (x ∷ xs) =
      let shift : suc (n + k) ≡ suc n + k = omega arith in
      ap (λ t. x ∷ t) (take-add n k xs) ∙ ap (λ i. take i (x ∷ xs)) shift

  -- A page of a listing, where its bounds do not wrap, is what stands between them.
  pub page_slice-eq :
      (page size : ℕ) (xs : List V)
      → (first_page page - 1) * page_size_or size < int_limit
      → length xs + page_size_or size < int_limit
      → page_slice page size xs
        ≡ some (take (page_size_or size) (drop ((first_page page - 1) * page_size_or size) xs))
  unfolding page_slice
  page_slice-eq page size xs fits room =
      let first = (first_page page - 1) * page_size_or size in
      let small = wrap_int-small first fits in
      elim (Bool-cases (ltb first int_limit && ltb (length xs) first)) [
        | inl h ↦
            rw (page_slice, small, h)
              (ap some (
                sym (
                  take_none (page_size_or size) (drop first xs)
                    (drop-all first xs (ground arith)))))
        | inr h ↦
            rw (page_slice, small, h)
              (slice_of-cut xs first (page_size_or size) first (inl (ground arith, refl)) room)
      ]

-- Pages of at least one resource, from the `q`-th on, after all the earlier ones.
collect_pages-all :
    (listing : ℕ → Listed DiscoveredResource) (xs : List DiscoveredResource) (size : ℕ)
    → 1 ≤ size
    → ((q : ℕ)
        → q * size ≤ length xs
        → listing (q + 1) ≡ some (take size (drop (q * size) xs), length xs))
    → (fuel q : ℕ) (all : List DiscoveredResource) → all ≡ take (q * size) xs
    → q * size ≤ length xs
    → length xs < fuel + q * size
    → collect_pages listing fuel (q + 1) all ≡ some xs
unfolding collect_pages
collect_pages-all listing xs size one pages zero q all e b l = absurd (omega arith)
collect_pages-all listing xs size one pages (suc fuel) q all e b l =
    let next : (q + 1) * size ≡ q * size + size = omega arith in
    let listed = pages q b in
    let page = take size (drop (q * size) xs) in
    let more : all ++ page ≡ take ((q + 1) * size) xs =
      ap (λ t. t ++ page) e ∙ take-add (q * size) size xs ∙ ap (λ n. take n xs) (sym next) in
    let count = length-take size (drop (q * size) xs) in
    let rest = length-drop (q * size) xs in
    let now_all = ap length more in
    let so_far = length-take ((q + 1) * size) xs in
    elim (Bool-cases (length page == 0 || leb (length xs) (length (all ++ page)))) [
      | inl h ↦
          rw (collect_pages, listed, h)
            (ap some (more ∙ take-all ((q + 1) * size) xs (ground arith)))
      | inr h ↦
          rw (collect_pages, listed, h)
            (collect_pages-all listing xs size one pages fuel (q + 1) (all ++ page) more
              (ground arith) (omega arith))
    ]

module _ (sort : (V : Type 0) → (V → ℕ) → List V → List V) (lower : String → String)
    (account_id : ℕ) where
  -- The page asked for does not change what passes the filters.
  filtered_resources-page :
      (page : ℕ) (m : Table DiscoveredResource)
      → filtered_resources sort lower account_id (active_page page 1000) m
        ≡ filtered_resources sort lower account_id (active_page 1 1000) m
  unfolding filtered_resources
  filtered_resources-page page [] = refl
  filtered_resources-page page ((id, r) ∷ m) = rw (filtered_resources-page page m)

  active_listing-page :
      (s : MemoryDiscoveryStore) (q : ℕ)
      → (let found =
            sort DiscoveredResource
              (λ r. r.discovered_at)
              (filtered_resources sort lower account_id (active_page 1 1000) s.resources) in
          length found + 1000 < int_limit
          → q * 1000 ≤ length found
          → active_listing sort lower s account_id (q + 1)
            ≡ some (take 1000 (drop (q * 1000) found), length found))
  unfolding active_listing list_discovered_resources
  active_listing-page s q room reached =
      let same = filtered_resources-page (q + 1) s.resources in
      let first : (first_page (q + 1) - 1) * 1000 ≡ q * 1000 = ground arith in
      let latest = sort DiscoveredResource (λ r. r.discovered_at) in
      let found =
        latest (filtered_resources sort lower account_id (active_page 1 1000) s.resources) in
      ap (λ rs. with_total (length (latest rs)) (page_slice (q + 1) 1000 (latest rs))) same
      ∙ ap (with_total (length found)) (
          page_slice-eq (q + 1) 1000 found (ground arith) room
          ∙ ap (λ n. some (take 1000 (drop n found))) first)

-- `listActiveResources` returns, and what it returns is the whole sorted listing of the account's
-- active resources, for every number of pages, when the listing has the same order at each of them
-- and has fewer than 2 ^ 63 - 1000 resources.
pub list_active_resources-all :
    (sort : (V : Type 0) → (V → ℕ) → List V → List V) (lower : String → String) (account_id : ℕ)
    (s : MemoryDiscoveryStore)
    → length (
          sort DiscoveredResource
            (λ r. r.discovered_at)
            (filtered_resources sort lower account_id (active_page 1 1000) s.resources))
        + 1000
      < int_limit
    → list_active_resources sort lower account_id s
      ≡ some (
          sort DiscoveredResource
            (λ r. r.discovered_at)
            (filtered_resources sort lower account_id (active_page 1 1000) s.resources))
unfolding list_active_resources
list_active_resources-all sort lower account_id s room =
    let found =
      sort DiscoveredResource (λ r. r.discovered_at)
        (filtered_resources sort lower account_id (active_page 1 1000) s.resources) in
    let listing = active_listing sort lower s account_id in
    let page = active_listing-page sort lower account_id s in
    ap (λ t. collect_pages listing (suc (total_of t)) 1 []) (page 0 room (omega arith))
    ∙ collect_pages-all listing found 1000 (omega arith) (λ q. page q room) (suc (length found)) 0
        [] refl (omega arith) (omega arith)
