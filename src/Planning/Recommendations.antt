-- ===== src/Planning/Recommendations.antt =====
-- internal/planning/recommendations.go: applying and dismissing a recommendation, and the priority
-- of one. The stores are the in-memory ones; `now` is the clock.
pub mod Settled
use Prim.Native.String.{◌++◌ as concat}
use cloudpam.Base.{ℕ, String, Option, none, some, not, leb, str_eq, if◌then◌else◌}
use cloudpam.Domain.{Pool, CreatePool}
use cloudpam.Domain.Recommendation.{
  Recommendation, ApplyRecommendationRequest, recommendation_type_allocation,
  recommendation_type_compliance, recommendation_status_pending, recommendation_status_applied,
  recommendation_status_dismissed,
}
use cloudpam.Storage.Memory.{
  MemoryStore, StoreError, err_not_found, err_conflict, Result, ok, err, create_pool,
}
use cloudpam.Storage.Recommendations.{
  RecommendationStore, get_recommendation, update_recommendation_status,
}

-- The two stores that the service writes
pub record Stores : Type 0 where
  pub recs : RecommendationStore
  pub main : MemoryStore

-- The pool that an allocation asks for
abbrev pub pool_input : Recommendation → ApplyRecommendationRequest → CreatePool
pool_input rec req = record {
  name = if str_eq req.name "" then concat "Allocation " rec.suggested_cidr else req.name;
  cidr = rec.suggested_cidr;
  parent_id = some rec.pool_id;
  account_id = req.account_id;
  type = "";
  status = "";
  source = "manual";
  description = "";
  tags = none;
}

-- The update of the status, and what Apply or Dismiss returns after it
unfoldable pub settle :
    ℕ
    → String
    → String
    → String
    → Option ℕ
    → Recommendation
    → Stores
    → Result Recommendation × Stores
settle now id status reason pool reply s =
    let (failed, recs) = update_recommendation_status now id status reason pool s.recs in
    elim failed [ some e ↦ (err e, s) | none ↦ (ok reply, record s { recs = recs }) ]

abbrev pub applied_reply : Option ℕ → Recommendation → Recommendation
applied_reply pool rec = record rec {
  status = recommendation_status_applied;
  applied_pool_id = pool;
}

-- Apply, on a pending recommendation
unfoldable pub apply_pending :
    ℕ
    → String
    → ApplyRecommendationRequest
    → Recommendation
    → Stores
    → Result Recommendation × Stores
unfolding settle
apply_pending now id req rec s =
    if str_eq rec.type recommendation_type_allocation
    then (let (made, main) = create_pool now (pool_input rec req) s.main in
        elim made [
          | err e ↦ (err e, s)
          | ok p ↦
              settle now id recommendation_status_applied "" (some p.id)
                (applied_reply (some p.id) rec) (record s { main = main })
        ])
    else settle now id recommendation_status_applied "" none (applied_reply none rec) s

-- Apply
unfoldable pub apply :
    ℕ → String → ApplyRecommendationRequest → Stores → Result Recommendation × Stores
unfolding apply_pending
apply now id req s = elim (get_recommendation id s.recs) [
  | none ↦ (err err_not_found, s)
  | some rec ↦
      if not (str_eq rec.status recommendation_status_pending)
      then (err err_conflict, s)
      else apply_pending now id req rec s
]

-- Dismiss
unfoldable pub dismiss : ℕ → String → String → Stores → Result Recommendation × Stores
unfolding settle
dismiss now id reason s = elim (get_recommendation id s.recs) [
  | none ↦ (err err_not_found, s)
  | some rec ↦
      if not (str_eq rec.status recommendation_status_pending)
      then (err err_conflict, s)
      else settle now id recommendation_status_dismissed reason none
          (record rec { status = recommendation_status_dismissed; dismiss_reason = reason }) s
]

-- priorityFromScore
unfoldable pub priority_from_score : ℕ → String
priority_from_score score =
    if leb 70 score then "high" else if leb 40 score then "medium" else "low"

-- The rule, priority, score and title of a recommendation for a violation, by complianceRecommendation
pub record RuleAdvice : Type 0 where
  pub priority : String
  pub score : ℕ
  pub title : String

unfoldable pub rule_advice : String → RuleAdvice
rule_advice rule =
    if str_eq rule "OVERLAP-001"
    then record { priority = "high"; score = 90; title = "Resolve CIDR overlap" }
    else if str_eq rule "RFC1918-001"
    then record { priority = "medium"; score = 60; title = "Move to RFC1918 space" }
    else if str_eq rule "EMPTY-001"
    then record { priority = "low"; score = 30; title = "Add allocations or reclassify" }
    else if str_eq rule "NAME-001"
    then record { priority = "low"; score = 20; title = "Add pool name" }
    else if str_eq rule "NAME-002"
    then record { priority = "low"; score = 20; title = "Add pool description" }
    else record { priority = "medium"; score = 50; title = concat "Fix compliance issue: " rule }
