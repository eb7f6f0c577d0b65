-- ===== src/Planning/Recommendations/Settled.antt =====
-- A recommendation of internal/planning/recommendations.go is applied or dismissed once.
use Prim.Native.String.{◌++◌ as concat}
use Prim.Native.String.append
use Prim.Native.String.compare
use text.Mathlib.Text.{is_eq}
use cloudpam.Base.{
  ℕ, ◌≡◌, refl, ap, ◌∙◌, inl, inr, Bool-cases, eq_iff, String, false, Option, some, none, str_eq,
  if◌then◌else◌,
}
use cloudpam.Base.Dict.{set, find-set}
use cloudpam.Domain.Recommendation.{
  Recommendation, ApplyRecommendationRequest, recommendation_type_allocation,
  recommendation_status_pending, recommendation_status_applied,
}
use cloudpam.Storage.Memory.{MemoryStore, err_conflict, ok, err, create_pool, new_pool}
use cloudpam.Storage.Recommendations.{
  RecommendationStore, get_recommendation, update_recommendation_status, recommendation_with_status,
}
use cloudpam.Planning.Recommendations.{
  Stores, pool_input, settle, applied_reply, apply_pending, apply, dismiss,
}

named : (x : String) → str_eq (concat "Allocation " x) "" ≡ false
named x =
    ap (λ t. str_eq t "") (append.cons "A" "llocation " x)
    ∙ ap is_eq (compare.cons-nil "A" (concat "llocation " x))

settle-found :
    (now : ℕ) (id status reason : String) (pool : Option ℕ) (reply rec : Recommendation)
    (s : Stores)
    → get_recommendation id s.recs ≡ some rec
    → settle now id status reason pool reply s ≡ (
      ok reply,
      record s { recs = set s.recs id (recommendation_with_status now status reason pool rec) },
    )
unfolding settle update_recommendation_status
settle-found now id status reason pool reply rec s e =
    rw (settle, update_recommendation_status, e, update_recommendation_status, e) refl

-- A recommendation that is not pending is neither applied nor dismissed.
apply-settled :
    (now : ℕ) (id : String) (req : ApplyRecommendationRequest) (rec : Recommendation) (s : Stores)
    → get_recommendation id s.recs ≡ some rec
    → str_eq rec.status recommendation_status_pending ≡ false
    → apply now id req s ≡ (err err_conflict, s)
unfolding apply
apply-settled now id req rec s e f = rw (apply, e, f) refl

dismiss-settled :
    (now : ℕ) (id reason : String) (rec : Recommendation) (s : Stores)
    → get_recommendation id s.recs ≡ some rec
    → str_eq rec.status recommendation_status_pending ≡ false
    → dismiss now id reason s ≡ (err err_conflict, s)
unfolding dismiss
dismiss-settled now id reason rec s e f = rw (dismiss, e, f) refl

find-set_same :
    (id : String) (new : Recommendation) (recs : RecommendationStore)
    → get_recommendation id (set recs id new) ≡ some new
find-set_same id new recs = find-set recs id id new ∙ rw ((eq_iff id id).1 refl) refl

-- With the pending recommendation under the id, and a CIDR where it is to be allocated
module _ (now : ℕ) (id : String) (req : ApplyRecommendationRequest) (rec : Recommendation)
    (s : Stores) (here : get_recommendation id s.recs ≡ some rec)
    (pending : rec.status ≡ recommendation_status_pending) where
  -- The pool that is made, if one is
  abbrev pub made_pool : Option ℕ
  made_pool = if str_eq rec.type recommendation_type_allocation then some s.main.next else none

  abbrev pub main_after : MemoryStore
  main_after =
      if str_eq rec.type recommendation_type_allocation
      then (create_pool now (pool_input rec req) s.main).1
      else s.main

  pool_input-named : str_eq (pool_input rec req).name "" ≡ false
  pool_input-named = elim (Bool-cases (str_eq req.name "")) [
    | inl e ↦ rw e (named rec.suggested_cidr)
    | inr e ↦ rw e e
  ]

  apply-pending :
      str_eq rec.suggested_cidr "" ≡ false
      → apply now id req s ≡ (
        ok (applied_reply made_pool rec),
        record {
          recs =
              set s.recs id
                (recommendation_with_status now recommendation_status_applied "" made_pool rec);
          main = main_after;
        },
      )
  unfolding apply apply_pending create_pool
  apply-pending cidr =
      let waiting = (eq_iff rec.status recommendation_status_pending).1 pending in
      elim (Bool-cases (str_eq rec.type recommendation_type_allocation)) [
        | inr e ↦
            rw (apply, here, waiting, apply_pending, e)
              (settle-found now id recommendation_status_applied "" none (applied_reply none rec)
                rec s here)
        | inl e ↦
            let made : create_pool now (pool_input rec req) s.main ≡ (
              ok (new_pool s.main.next now (pool_input rec req)),
              (create_pool now (pool_input rec req) s.main).1,
            ) =
              rw (create_pool, pool_input-named, cidr) refl in
            rw (apply, here, waiting, apply_pending, e, made)
              (settle-found now id recommendation_status_applied "" (some s.main.next)
                (applied_reply (some s.main.next) rec) rec
                (record s { main = (create_pool now (pool_input rec req) s.main).1 }) here)
      ]

-- Applying a pending recommendation that has a CIDR succeeds. An allocation creates one pool, under
-- the recommendation's pool and with its CIDR, and points the recommendation to it; any other type
-- creates none. The recommendation is stored as applied, and in the stores as they then are neither
-- applying nor dismissing it changes anything: both answer with a conflict.
pub apply-once :
    (now later : ℕ) (id reason : String) (req again : ApplyRecommendationRequest)
    (rec : Recommendation) (s : Stores)
    → (here : get_recommendation id s.recs ≡ some rec)
    → (pending : rec.status ≡ recommendation_status_pending) → str_eq rec.suggested_cidr "" ≡ false
    → (let pool = made_pool now id req rec s here pending in
        let after = (apply now id req s).1 in
        ((apply now id req s).0 ≡ ok (applied_reply pool rec))
        × (after.main ≡ main_after now id req rec s here pending)
        × (get_recommendation id after.recs
            ≡ some (recommendation_with_status now recommendation_status_applied "" pool rec))
        × (apply later id again after ≡ (err err_conflict, after))
        × (dismiss later id reason after ≡ (err err_conflict, after)))
apply-once now later id reason req again rec s here pending cidr =
    let pool = made_pool now id req rec s here pending in
    let done = apply-pending now id req rec s here pending cidr in
    let settled = recommendation_with_status now recommendation_status_applied "" pool rec in
    let stored = ap (λ r. get_recommendation id r.1.recs) done ∙ find-set_same id settled s.recs in
    (
      ap (λ r. r.0) done,
      ap (λ r. r.1.main) done,
      stored,
      apply-settled later id again settled _ stored refl,
      dismiss-settled later id reason settled _ stored refl,
    )
