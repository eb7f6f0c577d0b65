-- ===== src/Discovery/Current.antt =====
-- After `Detect` of internal/discovery/drift.go, the open items of a checked account are those of
-- the run.
use cloudpam.Base.{
  ℕ, ◌+◌, ◌<◌, ◌≡◌, ◌⊎◌, refl, ap, subst, inl, inr, Bool-cases, String, Bool, false, Option, some,
  none, List, [], ◌∷◌, ◌++◌, length, All, Any, str_eq,
}
use cloudpam.Base.Int64.{int_limit}
use cloudpam.Base.Dict.{Dict, set, drop_where}
use cloudpam.Net.Cidr.{Netip}
use cloudpam.Domain.{Pool, Account}
use cloudpam.Domain.Discovery.{DiscoveredResource}
use cloudpam.Domain.Drift.{DriftItem, RunDriftDetectionResponse}
use cloudpam.Storage.Memory.{MemoryStore, list_pools}
use cloudpam.Storage.Memory.Accounts.{list_accounts}
use cloudpam.Storage.Discovery.{MemoryDiscoveryStore}
use cloudpam.Storage.Discovery.Lists.{filtered_resources}
use cloudpam.Storage.Drift.{DriftStore, is_open_of, delete_open_for_account}
use cloudpam.Discovery.{Run, active_page, target_accounts, pools_of}
use cloudpam.Discovery.Passes.{resource_drift, pool_drift, add_item, check_resources, check_pools}
use cloudpam.Discovery.Detect.{
  list_active_resources, check_account, detect_account, detect_accounts, response, detect,
}
use cloudpam.Discovery.Paging.{list_active_resources-all}

-- The item is one of the list.
abbrev pub Among : List DriftItem → DriftItem → Type 0
Among items item = Any (λ x. x ≡ item) items

-- An entry of the store that is not an open item of the account, or is one of the items.
abbrev pub Accounted : ℕ → List DriftItem → String × DriftItem → Type 0
Accounted account_id items entry = (is_open_of account_id entry.1 ≡ false) ⊎ Among items entry.1

Among-left : (xs ys : List DriftItem) (item : DriftItem) → Among xs item → Among (xs ++ ys) item
Among-left [] ys item m = absurd m
Among-left (x ∷ xs) ys item (inl e) = inl e
Among-left (x ∷ xs) ys item (inr m) = inr (Among-left xs ys item m)

Among-last : (xs : List DriftItem) (item : DriftItem) → Among (xs ++ (item ∷ [])) item
Among-last [] item = inl refl
Among-last (x ∷ xs) item = inr (Among-last xs item)

All-map {ℓ} :
    {A : Type ℓ} (P Q : A → Type 0) (xs : List A) → ((x : A) → P x → Q x) → All P xs → All Q xs
All-map P Q [] f a = tt
All-map P Q (x ∷ xs) f (p, a) = (f x p, All-map P Q xs f a)

All-set :
    (P : String × DriftItem → Type 0) (k : String) (v : DriftItem) (d : Dict DriftItem)
    → ((j : String) → P (j, v))
    → All P d
    → All P (set d k v)
unfolding set
All-set P k v [] p a = (p k, tt)
All-set P k v ((j, w) ∷ d) p (q, a) = elim (Bool-cases (str_eq j k)) [
  | inl e ↦ rw e (p j, a)
  | inr e ↦ rw e (q, All-set P k v d p a)
]

All-drop_where :
    (P : String × DriftItem → Type 0) (t : DriftItem → Bool) (d : Dict DriftItem)
    → All P d
    → All P (drop_where t d)
unfolding drop_where
All-drop_where P t [] a = tt
All-drop_where P t ((j, w) ∷ d) (q, a) = elim (Bool-cases (t w)) [
  | inl e ↦ rw e (All-drop_where P t d a)
  | inr e ↦ rw e (q, All-drop_where P t d a)
]

-- The state of a run whose store has every open item of the account from this run
abbrev pub IsCurrent : ℕ → Run → Type 0
IsCurrent account_id run = All (Accounted account_id run.items) run.drifts

drop_where-none :
    (account_id : ℕ) (items : List DriftItem) (d : Dict DriftItem)
    → All (Accounted account_id items) (drop_where (is_open_of account_id) d)
unfolding drop_where
drop_where-none account_id items [] = tt
drop_where-none account_id items ((j, w) ∷ d) = elim (Bool-cases (is_open_of account_id w)) [
  | inl e ↦ rw e (drop_where-none account_id items d)
  | inr e ↦ rw e (inl e, drop_where-none account_id items d)
]

module _ (netip : Netip) (quote : String → String) (ids : ℕ → String) (now : ℕ) where
  add_item-IsCurrent :
      (account_id : ℕ) (o : Option DriftItem) (run : Run)
      → IsCurrent account_id run
      → IsCurrent account_id (add_item netip quote ids now o run)
  unfolding add_item
  add_item-IsCurrent account_id none run h = h
  add_item-IsCurrent account_id (some item) run h =
      All-set (Accounted account_id (run.items ++ (item ∷ []))) item.id item run.drifts
        (λ j. inr (Among-last run.items item))
        (All-map (Accounted account_id run.items) (Accounted account_id (run.items ++ (item ∷ [])))
          run.drifts
          (λ entry a. elim a [
            | inl e ↦ inl e
            | inr m ↦ inr (Among-left run.items (item ∷ []) entry.1 m)
          ])
          h)

  check_resources-IsCurrent :
      (m : MemoryStore) (checked account_id : ℕ) (resources : List DiscoveredResource) (run : Run)
      → IsCurrent account_id run
      → IsCurrent account_id (check_resources netip quote ids now m checked resources run)
  unfolding check_resources
  check_resources-IsCurrent m checked account_id [] run h = h
  check_resources-IsCurrent m checked account_id (res ∷ resources) run h =
      check_resources-IsCurrent m checked account_id resources _ (
        add_item-IsCurrent account_id
          (resource_drift netip quote ids now m (ids run.drawn) checked res) run h)

  check_pools-IsCurrent :
      (resources : List DiscoveredResource) (checked account_id : ℕ) (pools : List Pool) (run : Run)
      → IsCurrent account_id run
      → IsCurrent account_id (check_pools netip quote ids now resources checked pools run)
  unfolding check_pools
  check_pools-IsCurrent resources checked account_id [] run h = h
  check_pools-IsCurrent resources checked account_id (p ∷ pools) run h =
      check_pools-IsCurrent resources checked account_id pools _ (
        add_item-IsCurrent account_id
          (pool_drift netip quote ids now resources (ids run.drawn) checked p) run h)

module _ (sort : (V : Type 0) → (V → ℕ) → List V → List V) (lower : String → String) (netip : Netip)
    (quote : String → String) (ids : ℕ → String) (now : ℕ) where
  check_account-IsCurrent :
      (m : MemoryStore) (pools : List Pool) (checked other : ℕ)
      (resources : List DiscoveredResource) (run : Run)
      → IsCurrent other run
      → IsCurrent other (check_account sort lower netip quote ids now m pools checked resources run)
  unfolding check_account
  check_account-IsCurrent m pools checked other resources run h =
      check_pools-IsCurrent netip quote ids now resources checked other (pools_of checked pools) _
        (check_resources-IsCurrent netip quote ids now m checked other resources _ h)

module _ (sort : (V : Type 0) → (V → ℕ) → List V → List V) (lower : String → String) (netip : Netip)
    (quote : String → String) (ids : ℕ → String) (now : ℕ) (s : MemoryDiscoveryStore)
    (room : (account_id : ℕ)
      → length (
            sort DiscoveredResource
              (λ r. r.discovered_at)
              (filtered_resources sort lower account_id (active_page 1 1000) s.resources))
          + 1000
        < int_limit) where
  list_active_resources-some :
      (account_id : ℕ)
      → (found : List DiscoveredResource) × (list_active_resources sort lower account_id s
          ≡ some found)
  list_active_resources-some account_id =
      (_, list_active_resources-all sort lower account_id s (room account_id))

  -- The check of one account returns; it makes that account current and leaves the others so.
  detect_account-IsCurrent :
      (m : MemoryStore) (pools : List Pool) (checked : ℕ) (run : Run)
      → (next : Run) × (detect_account sort lower netip quote ids now m s pools checked run
          ≡ some next)
        × IsCurrent checked next
        × ((other : ℕ) → IsCurrent other run → IsCurrent other next)
  unfolding detect_account delete_open_for_account
  detect_account-IsCurrent m pools checked run =
      let (found, all) = list_active_resources-some checked in
      let cleared = record run { drifts = drop_where (is_open_of checked) run.drifts } in
      (
        check_account sort lower netip quote ids now m pools checked found cleared,
        rw (detect_account, all) refl,
        check_account-IsCurrent sort lower netip quote ids now m pools checked checked found cleared
            (drop_where-none checked run.items run.drifts),
        λ other h.
            check_account-IsCurrent sort lower netip quote ids now m pools checked other found
              cleared
              (All-drop_where (Accounted other run.items) (is_open_of checked) run.drifts h),
      )

  detect_accounts-IsCurrent :
      (m : MemoryStore) (pools : List Pool) (accounts : List Account) (run : Run)
      → (last : Run) × (detect_accounts sort lower netip quote ids now m s pools accounts run
          ≡ some last)
        × ((a : Account) → Any (λ x. x ≡ a) accounts → IsCurrent a.id last)
        × ((other : ℕ) → IsCurrent other run → IsCurrent other last)
  unfolding detect_accounts
  detect_accounts-IsCurrent m pools [] run = (run, refl, λ a e. absurd e, λ other h. h)
  detect_accounts-IsCurrent m pools (b ∷ accounts) run =
      let (next, e, this, kept) = detect_account-IsCurrent m pools b.id run in
      let (last, f, others, kept') = detect_accounts-IsCurrent m pools accounts next in
      (
        last,
        rw (detect_accounts, e) f,
        λ a among. elim among [
          | inl same ↦ kept' a.id (subst (λ x. IsCurrent x next) (ap (λ x. x.id) same) this)
          | inr later ↦ others a later
        ],
        λ other h. kept' other (kept other h),
      )

  -- When no account lists 2 ^ 63 - 1000 active resources or more, a run of the detection returns,
  -- and afterwards each entry of the drift store is no open item of a checked account, or it is one
  -- of the items that the run reports: an open item of an earlier run is gone.
  pub detect-current :
      (account_ids : List ℕ) (m : MemoryStore) (drifts : DriftStore) (a : Account)
      → Any (λ x. x ≡ a) (target_accounts account_ids (list_accounts m))
      → (reply : RunDriftDetectionResponse) × (after : DriftStore) × (detect sort lower netip quote
            ids now account_ids m s drifts
          ≡ some (reply, after))
        × All (Accounted a.id reply.items) after
  unfolding detect
  detect-current account_ids m drifts a among =
      let targets = target_accounts account_ids (list_accounts m) in
      let (last, e, current, kept) =
        detect_accounts-IsCurrent m (list_pools m) targets
          (record { drifts = drifts; items = []; drawn = 0; resources = 0 }) in
      (
        response sort lower netip quote ids now (length targets) (length (list_pools m)) last,
        last.drifts,
        rw (detect, e) refl,
        current a among,
      )
