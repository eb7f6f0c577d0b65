-- ===== src/Storage/Memory/Search.antt =====
-- `Search` of internal/storage/store.go, with the records of internal/domain/search.go.
pub mod Pages
use text.Mathlib.Text.{starts_with}
use cloudpam.Base.{
  ℕ, ◌+◌, ◌-◌, ◌*◌, String, Bool, true, false, not, ◌&&◌, ◌||◌, Option, none, some, List, [], ◌∷◌,
  ◌++◌, length, take, drop, ltb, str_eq, if◌then◌else◌,
}
use cloudpam.Base.Int64.{wrap_int, cut_int, slice_of}
use cloudpam.Base.Table.{Table}
use cloudpam.Net.Ip.{Prefix}
use cloudpam.Net.Cidr.{Netip, Parsed, ParseError, parse_cidr_or_ip, prefix_contains}
use cloudpam.Domain.{Pool, Account}
use cloudpam.Storage.Memory.{MemoryStore, is_none}

-- The page and its size are ints, here below 2 ^ 63; one below 1 is 0.
pub record SearchRequest : Type 0 where
  pub query : String
  pub cidr_contains : String
  pub cidr_within : String
  pub types : List String
  pub page : ℕ
  pub page_size : ℕ

pub record SearchResultItem : Type 0 where
  pub type : String
  pub id : ℕ
  pub name : String
  pub cidr : String
  pub description : String
  pub status : String
  pub pool_type : String
  pub account_key : String
  pub provider : String
  pub parent_id : Option ℕ
  pub account_id : Option ℕ

pub record SearchResponse : Type 0 where
  pub items : List SearchResultItem
  pub total : ℕ
  pub page : ℕ
  pub page_size : ℕ

-- strings.Contains
unfoldable pub text_contains : String → String → Bool
text_contains String.[] query = str_eq query ""
text_contains (String.◌∷◌ c s) query = starts_with (String.◌∷◌ c s) query || text_contains s query

abbrev pub pool_item : Pool → SearchResultItem
pool_item p = record {
  type = "pool";
  id = p.id;
  name = p.name;
  cidr = p.cidr;
  description = p.description;
  status = p.status;
  pool_type = p.type;
  account_key = "";
  provider = "";
  parent_id = p.parent_id;
  account_id = p.account_id;
}

abbrev pub account_item : Account → SearchResultItem
account_item a = record {
  type = "account";
  id = a.id;
  name = a.name;
  cidr = "";
  description = a.description;
  status = "";
  pool_type = "";
  account_key = a.key;
  provider = a.provider;
  parent_id = none;
  account_id = none;
}

-- Whether a kind of record is searched: without types, every kind is.
unfoldable pub has_type : String → List String → Bool
has_type kind [] = false
has_type kind (t ∷ ts) = str_eq t kind || has_type kind ts

abbrev pub searched : String → List String → Bool
searched kind [] = true
searched kind (t ∷ ts) = has_type kind (t ∷ ts)

-- The pagination: the slice `items[start:end]`, after the defaults and the bounds. The bounds are
-- computed on ints and wrap; `none` is the panic on a slice out of range.
abbrev pub page_of : ℕ → ℕ
page_of page = if ltb page 1 then 1 else page

abbrev pub page_size_of : ℕ → ℕ
page_size_of size =
    let asked = if ltb size 1 then 50 else size in if ltb 200 asked then 200 else asked

unfoldable pub paginate : List SearchResultItem → ℕ → ℕ → Option SearchResponse
paginate items page size =
    let total = length items in
    let start = cut_int total (wrap_int ((page_of page - 1) * page_size_of size)) in
    let end = cut_int total (wrap_int (start + page_size_of size)) in
    elim (slice_of items start end) [
      | none ↦ none
      | some slice ↦ some (record {
        items = slice;
        total = total;
        page = page_of page;
        page_size = page_size_of size;
      })
    ]

-- A CIDR filter: absent, or a prefix.
pub data Filter : Type 0 where
  bad_filter : ParseError → Filter
  filter : Option Prefix → Filter

abbrev pub parsed_filter : Parsed → Filter
parsed_filter (Parsed.err e) = bad_filter e
parsed_filter (Parsed.ok p) = filter (some p)

abbrev pub read_filter : Netip → String → Filter
read_filter netip text =
    if str_eq text "" then filter none else parsed_filter (parse_cidr_or_ip netip text)

abbrev pub test_contains : Option Prefix → Option Prefix → Bool
test_contains none pool = true
test_contains (some p) none = false
test_contains (some p) (some pool) = prefix_contains pool p

abbrev pub test_within : Option Prefix → Option Prefix → Bool
test_within none pool = true
test_within (some p) none = false
test_within (some p) (some pool) = prefix_contains p pool

-- `netip` parses prefixes, `lower` is strings.ToLower.
module _ (netip : Netip) (lower : String → String) where
  -- matchPool
  unfoldable pub match_pool : Pool → String → Option Prefix → Option Prefix → Bool
  unfolding text_contains
  match_pool p query contains within =
      test_contains contains (netip.parse_prefix p.cidr)
      && (test_within within (netip.parse_prefix p.cidr)
          && (str_eq query ""
              || (text_contains (lower p.name) query
                  || (text_contains (lower p.cidr) query
                      || (text_contains (lower p.description) query
                          || (text_contains (lower p.type) query
                              || text_contains (lower p.status) query))))))

  -- matchAccount
  unfoldable pub match_account : Account → String → Bool
  unfolding text_contains
  match_account a query =
      text_contains (lower a.name) query
      || (text_contains (lower a.key) query
          || (text_contains (lower a.description) query || text_contains (lower a.provider) query))

  unfoldable pub pool_items :
      String → Option Prefix → Option Prefix → Table Pool → List SearchResultItem
  unfolding match_pool
  pool_items query contains within [] = []
  pool_items query contains within ((id, p) ∷ rest) =
      let items = pool_items query contains within rest in
      if is_none p.deleted_at && match_pool p query contains within
      then pool_item p ∷ items
      else items

  unfoldable pub account_items : String → Table Account → List SearchResultItem
  unfolding match_account
  account_items query [] = []
  account_items query ((id, a) ∷ rest) =
      let items = account_items query rest in
      if is_none a.deleted_at && (str_eq query "" || match_account a query)
      then account_item a ∷ items
      else items

  -- What is found, before the pagination.
  unfoldable pub found_items :
      SearchRequest → Option Prefix → Option Prefix → MemoryStore → List SearchResultItem
  unfolding pool_items account_items
  found_items req contains within m =
      let query = lower req.query in
      (if searched "pool" req.types then pool_items query contains within m.pools else [])
      ++ (if searched "account" req.types && (is_none contains && is_none within)
          then account_items query m.accounts
          else [])

  pub data SearchResult : Type 0 where
    bad_contains : ParseError → SearchResult
    bad_within : ParseError → SearchResult
    found : SearchResponse → SearchResult
    panicked : SearchResult

  abbrev pub paged : Option SearchResponse → SearchResult
  paged none = panicked
  paged (some response) = found response

  -- Search
  unfoldable pub search : SearchRequest → MemoryStore → SearchResult
  unfolding paginate found_items
  search req m = elim (read_filter netip req.cidr_contains) [
    | bad_filter e ↦ bad_contains e
    | filter contains ↦ elim (read_filter netip req.cidr_within) [
      | bad_filter e ↦ bad_within e
      | filter within ↦ paged (paginate (found_items req contains within m) req.page req.page_size)
    ]
  ]
