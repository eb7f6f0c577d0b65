-- ===== src/Storage/Memory/Accounts.antt =====
-- The operations on accounts of internal/storage/store.go.
use cloudpam.Base.{
  ℕ, ◌+◌, String, ◌||◌, ◌&&◌, Option, none, some, List, [], ◌∷◌, str_eq, if◌then◌else◌,
}
use cloudpam.Base.Table.{Table, lookup, put}
use cloudpam.Domain.{Account, CreateAccount}
use cloudpam.Storage.Memory.{MemoryStore, Result, ok, err, err_validation, err_not_found, is_none}

-- ListAccounts
unfoldable pub live_accounts : Table Account → List Account
live_accounts [] = []
live_accounts ((id, a) ∷ rest) =
    let live = live_accounts rest in if is_none a.deleted_at then a ∷ live else live

abbrev pub list_accounts : MemoryStore → List Account
list_accounts m = live_accounts m.accounts

-- `append([]string(nil), regions...)`: a slice without entries becomes nil.
abbrev pub append_nil : Option (List String) → Option (List String)
append_nil none = none
append_nil (some []) = none
append_nil (some (r ∷ rs)) = some (r ∷ rs)

-- The account that CreateAccount stores.
abbrev pub new_account : ℕ → ℕ → CreateAccount → Account
new_account id now input = record {
  id = id;
  key = input.key;
  name = input.name;
  provider = input.provider;
  external_id = input.external_id;
  description = input.description;
  platform = input.platform;
  tier = input.tier;
  environment = input.environment;
  regions = append_nil input.regions;
  created_at = now;
  updated_at = now;
  deleted_at = none;
}

-- CreateAccount
unfoldable pub create_account : ℕ → CreateAccount → MemoryStore → Result Account × MemoryStore
create_account now input m =
    if str_eq input.key "" || str_eq input.name ""
    then (err err_validation, m)
    else (let a = new_account m.next_account now input in
        (
          ok a,
          record m {
            accounts = put m.next_account a m.accounts;
            next_account = m.next_account + 1;
          },
        ))

-- `update.Regions != nil`
abbrev pub new_regions : Option (List String) → Option (List String) → Option (List String)
new_regions none old = old
new_regions (some rs) old = append_nil (some rs)

-- What UpdateAccount writes; of `update`, only these fields are read.
abbrev pub updated_account : ℕ → Account → Account → Account
updated_account now update a = record a {
  name = if str_eq update.name "" then a.name else update.name;
  provider = update.provider;
  external_id = update.external_id;
  description = update.description;
  platform = update.platform;
  tier = update.tier;
  environment = update.environment;
  regions = new_regions update.regions a.regions;
  updated_at = now;
}

-- UpdateAccount
unfoldable pub update_account : ℕ → ℕ → Account → MemoryStore → Option Account × MemoryStore
update_account now id update m = elim (lookup id m.accounts) [
  | none ↦ (none, m)
  | some a ↦
      let a' = updated_account now update a in
      (some a', record m { accounts = put id a' m.accounts })
]

-- GetAccountByKey
unfoldable pub find_by_key : String → Table Account → Result Account
find_by_key key [] = err err_not_found
find_by_key key ((id, a) ∷ rest) =
    if str_eq a.key key && is_none a.deleted_at then ok a else find_by_key key rest

abbrev pub get_account_by_key : String → MemoryStore → Result Account
get_account_by_key key m = find_by_key key m.accounts
