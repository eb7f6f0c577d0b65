-- ===== src/Domain/Recommendation.antt =====
-- internal/domain/recommendations.go: recommendations and their status.
use cloudpam.Base.{ℕ, String, Option}
use cloudpam.Domain.{Tags}

-- RecommendationTypeAllocation, RecommendationTypeCompliance
abbrev pub recommendation_type_allocation : String
recommendation_type_allocation = "allocation"

abbrev pub recommendation_type_compliance : String
recommendation_type_compliance = "compliance"

-- RecommendationStatusPending, RecommendationStatusApplied, RecommendationStatusDismissed
abbrev pub recommendation_status_pending : String
recommendation_status_pending = "pending"

abbrev pub recommendation_status_applied : String
recommendation_status_applied = "applied"

abbrev pub recommendation_status_dismissed : String
recommendation_status_dismissed = "dismissed"

pub record Recommendation : Type 0 where
  pub id : String
  pub pool_id : ℕ
  pub type : String
  pub status : String
  pub priority : String
  pub title : String
  pub description : String
  pub suggested_cidr : String
  pub rule_id : String
  pub score : ℕ
  pub metadata : Option Tags
  pub dismiss_reason : String
  pub applied_pool_id : Option ℕ
  pub created_at : ℕ
  pub updated_at : ℕ

-- A page or a page size below 1 is 0 here.
pub record RecommendationFilters : Type 0 where
  pub pool_id : ℕ
  pub type : String
  pub status : String
  pub priority : String
  pub page : ℕ
  pub page_size : ℕ

pub record ApplyRecommendationRequest : Type 0 where
  pub name : String
  pub account_id : Option ℕ
