-- ===== src/Storage/Discovery/Claim.antt =====
-- `ClaimPendingAgentSync` of internal/storage/discovery_memory.go takes the oldest job.
pub mod Jobs
use cloudpam.Base.{
  ℕ, ◌≤◌, ◌≡◌, ◌⊎◌, refl, sym, ap, ◌∙◌, arith, inl, inr, Bool-cases, Option-cases, true, false,
  ◌&&◌, Option, some, none, [], ◌∷◌, ◌==◌, if◌then◌else◌,
}
use cloudpam.Base.Table.{Table, lookup, put, lookup-put, IsTable, Fresh-lookup}
use cloudpam.Domain.Discovery.{SyncJob}
use cloudpam.Storage.Discovery.{
  MemoryDiscoveryStore, get_sync_job, is_claimable, is_earlier, select_job, running_job,
  claim_pending_agent_sync,
}

-- The selection of one step of the loop
abbrev pub selected_after : ℕ → SyncJob → Option SyncJob → Option SyncJob
selected_after a j selected = if is_claimable a j && is_earlier j selected then some j else selected

is_earlier-false :
    (j : SyncJob) (selected : Option SyncJob)
    → is_earlier j selected ≡ false
    → (x : SyncJob) × (selected ≡ some x) × (x.created_at ≤ j.created_at)
is_earlier-false j none e = absurd (ground arith)
is_earlier-false j (some x) e = (x, refl, ground arith)

module _ (a : ℕ) where
  -- What is selected is a claimable entry, or was selected before.
  pub select_job-from :
      (m : Table SyncJob) (selected : Option SyncJob) (job : SyncJob)
      → IsTable m
      → select_job a m selected ≡ some job
      → (selected ≡ some job) ⊎ ((k : ℕ) × (lookup k m ≡ some job) × (is_claimable a job ≡ true))
  unfolding select_job lookup
  select_job-from [] selected job t e = inl e
  select_job-from ((i, j) ∷ m) selected job t e =
      elim (select_job-from m (selected_after a j selected) job t.1 e) [
        | inr (k, l, c) ↦ inr (k, ground (arith, Fresh-lookup (λ i x. true) k m), c)
        | inl f ↦ elim (Bool-cases (is_claimable a j && is_earlier j selected)) [
          | inl h ↦
              let this : j ≡ job = ground arith in
              inr (i, ground arith, ap (is_claimable a) (sym this) ∙ ground arith)
          | inr h ↦ inl (ground arith)
        ]
      ]

  -- Something stays selected, and nothing later takes its place.
  select_job-keeps :
      (m : Table SyncJob) (x : SyncJob)
      → (job : SyncJob) × (select_job a m (some x) ≡ some job) × (job.created_at ≤ x.created_at)
  unfolding select_job
  select_job-keeps [] x = (x, refl, omega arith)
  select_job-keeps ((i, j) ∷ m) x = elim (Bool-cases (is_claimable a j && is_earlier j (some x))) [
    | inl h ↦ let (job, e, l) = select_job-keeps m j in (job, rw h e, ground arith)
    | inr h ↦ let (job, e, l) = select_job-keeps m x in (job, rw h e, l)
  ]

  pub select_job-oldest :
      (m : Table SyncJob) (selected : Option SyncJob) (k : ℕ) (other : SyncJob)
      → lookup k m ≡ some other
      → is_claimable a other ≡ true
      → (job : SyncJob) × (select_job a m selected ≡ some job) × (job.created_at ≤ other.created_at)
  unfolding select_job lookup
  select_job-oldest [] selected k other l c = absurd (ground arith)
  select_job-oldest ((i, j) ∷ m) selected k other l c = elim (Bool-cases (i == k)) [
    | inr n ↦ select_job-oldest m (selected_after a j selected) k other (ground arith) c
    | inl s ↦
        let this : j ≡ other = ground arith in
        let mine = ap (is_claimable a) this ∙ c in
        let same = ap (λ y. y.created_at) this in
        elim (Bool-cases (is_earlier j selected)) [
          | inl h ↦ let (job, e, b) = select_job-keeps m j in (job, rw (mine, h) e, omega arith)
          | inr h ↦
              let (x, f, b) = is_earlier-false j selected h in
              let (job, e, d) = select_job-keeps m x in (job, rw (mine, h, f) e, omega arith)
        ]
  ]
