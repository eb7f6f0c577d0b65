-- ===== src/Tests/Search.antt =====
-- The pages of a search, at three items, also where the offset of a page wraps.
use cloudpam.Base.{ℕ, ◌≤◌, ◌≡◌, List, [], ◌∷◌, Option, none, some, refl, arith, length}
use cloudpam.Base.Int64.{wrap_int, cut_int, slice_of}
use cloudpam.Storage.Memory.Search.{SearchResultItem, SearchResponse, paginate, page_size_of}
use cloudpam.Storage.Memory.Search.Pages.{paginate-page}

abbrev hit : ℕ → SearchResultItem
hit id = record {
  type = "pool";
  id = id;
  name = "p";
  cidr = "10.0.0.0/8";
  description = "";
  status = "active";
  pool_type = "subnet";
  account_key = "";
  provider = "";
  parent_id = none;
  account_id = none;
}

abbrev hits : List SearchResultItem
hits = hit 1 ∷ hit 2 ∷ hit 3 ∷ []

abbrev items_of : Option SearchResponse → Option (List SearchResultItem)
items_of none = none
items_of (some r) = some r.items

paginate-page_example :
    (r : SearchResponse) × (paginate hits 2 2 ≡ some r)
    × (r.items ≡ hit 3 ∷ [])
    × (length r.items ≤ 2)
    × (1 ≤ page_size_of 2)
    × (page_size_of 2 ≤ 200)
    × (r.total ≡ 3)
paginate-page_example = paginate-page hits 2 2 (omega arith) (omega arith)

-- The largest page: the offset wraps to -256, and the slice is out of range.
last_page_panics : paginate hits 0x7fff_ffff_ffff_ffff 128 ≡ none
unfolding paginate slice_of cut_int wrap_int
last_page_panics = refl

-- Page 2 ^ 57 + 1 of 128: the offset wraps to 0, and the first page is returned.
wrapped_page-items : items_of (paginate hits 0x200_0000_0000_0001 128) ≡ some hits
unfolding paginate slice_of cut_int wrap_int
wrapped_page-items = refl
