-- ===== src/Base/Slices.antt =====
-- Slices of a list whose bounds are cut at its end, as the pages of the stores are.
use Prim.Native.Nat.{ℕ, zero, suc, ◌+◌, ◌-◌, ◌≤◌, ◌<◌}
use mathlib.Core.Path.{◌≡◌, refl, sym, ap, ◌∙◌}
use mathlib.Core.Logic.{◌⊎◌, inl, inr}
use mathlib.Core.List.{List, [], ◌∷◌}
use native.Mathlib.Omega.{arith}
use cloudpam.Base.Tests.{ltb, if◌then◌else◌}
use cloudpam.Base.Lists.{length, take, drop, length-drop}

module _ {ℓ} {A : Type ℓ} where
  pub take-all : (n : ℕ) (xs : List A) → length xs ≤ n → take n xs ≡ xs
  take-all zero [] l = refl
  take-all (suc n) [] l = refl
  take-all zero (x ∷ xs) l = absurd (omega arith)
  take-all (suc n) (x ∷ xs) l = ap (λ t. x ∷ t) (take-all n xs (omega arith))

  pub drop-all : (n : ℕ) (xs : List A) → length xs ≤ n → drop n xs ≡ []
  drop-all zero [] l = refl
  drop-all (suc n) [] l = refl
  drop-all zero (x ∷ xs) l = absurd (omega arith)
  drop-all (suc n) (x ∷ xs) l = drop-all n xs (omega arith)

  pub take_none : (n : ℕ) (xs : List A) → xs ≡ [] → take n xs ≡ []
  take_none n [] e = take-all n [] (omega arith)
  take_none n (x ∷ xs) e = absurd (cc)

  -- A slice whose bounds are cut at the end of the list.
  pub cut_slice :
      (xs : List A) (first size start stop : ℕ)
      → ((first ≤ length xs) × (start ≡ first)) ⊎ ((length xs < first) × (start ≡ length xs))
      → ((length xs ≤ start + size) × (stop ≡ length xs))
        ⊎ ((start + size < length xs) × (stop ≡ start + size))
      → take (stop - start) (drop start xs) ≡ take size (drop first xs)
  cut_slice xs first size start stop (inr (l, e)) bounds =
      take_none (stop - start) (drop start xs) (drop-all start xs (omega arith))
      ∙ sym (take_none size (drop first xs) (drop-all first xs (omega arith)))
  cut_slice xs first size start stop (inl (l, e)) (inl (b, f)) =
      take-all (stop - start) (drop start xs) (omega (arith, length-drop start xs))
      ∙ ap (λ n. drop n xs) e
      ∙ sym (take-all size (drop first xs) (omega (arith, length-drop first xs)))
  cut_slice xs first size start stop (inl (l, e)) (inr (b, f)) =
      let n : stop - start ≡ size = omega arith in
      ap (λ k. take k (drop start xs)) n ∙ ap (λ k. take size (drop k xs)) e

pub start_cases :
    (total first : ℕ)
    → (let start = if ltb total first then total else first in
        ((first ≤ total) × (start ≡ first)) ⊎ ((total < first) × (start ≡ total)))
start_cases total first = ground arith

pub stop_cases :
    (total start size : ℕ)
    → (let stop = if ltb total (start + size) then total else start + size in
        ((total ≤ start + size) × (stop ≡ total))
        ⊎ ((start + size < total) × (stop ≡ start + size)))
stop_cases total start size = ground arith
