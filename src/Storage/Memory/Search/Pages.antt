-- ===== src/Storage/Memory/Search/Pages.antt =====
-- The pages of `Search` of internal/storage/store.go.
use cloudpam.Base.{
  ℕ, ◌+◌, ◌-◌, ◌*◌, ◌≤◌, ◌<◌, ◌≡◌, refl, arith, some, List, length, length-take, take, drop,
}
use cloudpam.Base.Int64.{int_limit, wrap_int, cut_int, cut_int-starts, slice_of-cut}
use cloudpam.Storage.Memory.Search.{
  SearchResultItem, SearchResponse, page_of, page_size_of, paginate,
}

-- Where neither the offset of the page asked for, (page - 1) * page size, nor the number of items
-- found and 200 more reaches 2 ^ 63, `Search` does not panic in the pagination, and its response
-- holds, of all that is found, the items of the page: those after the earlier pages of the same
-- size, at most as many as the size, which lies between 1 and 200; the total counts everything
-- found.
pub paginate-page :
    (items : List SearchResultItem) (page size : ℕ)
    → (page_of page - 1) * page_size_of size < int_limit
    → length items + 200 < int_limit
    → (r : SearchResponse) × (paginate items page size ≡ some r)
      × (r.items ≡ take (page_size_of size) (drop ((page_of page - 1) * page_size_of size) items))
      × (length r.items ≤ page_size_of size)
      × (1 ≤ page_size_of size)
      × (page_size_of size ≤ 200)
      × (r.total ≡ length items)
unfolding paginate
paginate-page items page size fits room =
    let first = (page_of page - 1) * page_size_of size in
    let start = cut_int (length items) (wrap_int first) in
    let slice =
      slice_of-cut items first (page_size_of size) start (cut_int-starts (length items) first fits)
        (ground arith) in
    (
      record {
        items = take (page_size_of size) (drop first items);
        total = length items;
        page = page_of page;
        page_size = page_size_of size;
      },
      rw (paginate, slice) refl,
      refl,
      omega (arith, length-take (page_size_of size) (drop first items)),
      ground arith,
      ground arith,
      refl,
    )
