-- ===== src/Tests/Advice.antt =====
-- The theorems on recommendations and on the validation of CIDRs, at concrete inputs.
use cloudpam.Base.{ℕ, ◌≡◌, ◌≤◌, ◌↔◌, refl, true, [], ◌∷◌, some, none, String}
use cloudpam.Domain.Recommendation.{Recommendation, ApplyRecommendationRequest}
use cloudpam.Net.Ip.{Prefix}
use cloudpam.Net.Ip.Block.{first, In}
use cloudpam.Net.Cidr.{Netip}
use cloudpam.Storage.Memory.{new_memory_store, ok, err, err_conflict, create_pool}
use cloudpam.Storage.Memory.Search.{text_contains}
use cloudpam.Storage.Recommendations.{get_recommendation, recommendation_with_status}
use cloudpam.Planning.Recommendations.{Stores, applied_reply, pool_input, apply, dismiss}
use cloudpam.Planning.Recommendations.Settled.{apply-once}
use cloudpam.Validation.{reserved_ipv4_ranges, validate_cidr}
use cloudpam.Validation.Cidrs.{InSome, validate_cidr_iff}
use cloudpam.Base.Dict.{find}

abbrev advice : Recommendation
advice = record {
  id = "r1";
  pool_id = 1;
  type = "allocation";
  status = "pending";
  priority = "high";
  title = "Allocate 10.0.1.0/24";
  description = "";
  suggested_cidr = "10.0.1.0/24";
  rule_id = "";
  score = 80;
  metadata = none;
  dismiss_reason = "";
  applied_pool_id = none;
  created_at = 1;
  updated_at = 1;
}

abbrev one_advice : Stores
one_advice = record { recs = ("r1", advice) ∷ []; main = new_memory_store }

abbrev unnamed : ApplyRecommendationRequest
unnamed = record { name = ""; account_id = none }

advice_stored : get_recommendation "r1" one_advice.recs ≡ some advice
unfolding find
advice_stored = refl

apply-once_example :
    (let after = (apply 5 "r1" unnamed one_advice).1 in
      ((apply 5 "r1" unnamed one_advice).0 ≡ ok (applied_reply (some 1) advice))
      × (after.main ≡ (create_pool 5 (pool_input advice unnamed) new_memory_store).1)
      × (get_recommendation "r1" after.recs
          ≡ some (recommendation_with_status 5 "applied" "" (some 1) advice))
      × (apply 6 "r1" unnamed after ≡ (err err_conflict, after))
      × (dismiss 6 "r1" "no" after ≡ (err err_conflict, after)))
apply-once_example =
    apply-once 5 6 "r1" "no" unnamed unnamed advice one_advice advice_stored refl refl

-- A netip that reads one text
abbrev ten_netip : Netip
ten_netip = record { parse_prefix = λ s. some (Prefix.v4 0x0a00_0000 16); parse_addr = λ s. none }

abbrev untrimmed : String → String
untrimmed s = s

has_slash : text_contains "10.0.0.0/16" "/" ≡ true
unfolding text_contains
has_slash = refl

validate_cidr_iff_example : (validate_cidr ten_netip untrimmed "10.0.0.0/16" ≡ none) ↔ (
    (0x0a00_0000 ≡ first 0x0a00_0000 16)
    × (8 ≤ 16)
    × (16 ≤ 30)
    × ((z : ℕ) → In (Prefix.v4 0x0a00_0000 16) z → ¬ (InSome reserved_ipv4_ranges z)))
validate_cidr_iff_example =
    validate_cidr_iff ten_netip untrimmed "10.0.0.0/16" 0x0a00_0000 16 refl has_slash refl
