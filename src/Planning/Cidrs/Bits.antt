-- ===== src/Planning/Cidrs/Bits.antt =====
-- What `trailing_zeros` and `bit_length` compute, in powers of two.
use cloudpam.Base.{
  ℕ, zero, suc, ◌-◌, ◌*◌, ◌/◌, ◌%◌, ◌^◌, ◌≤◌, ◌<◌, ◌≡◌, ◌≢◌, refl, ◌⊎◌, inl, inr, le_or_lt,
  Bool-cases, ◌==◌, ==_iff, arith, pow_step,
}
use cloudpam.Planning.Cidrs.{trailing_zeros, bit_length}

doubled : (x q k : ℕ) → x % 2 ≡ 0 → x / 2 ≡ q * 2 ^ k → x ≡ q * 2 ^ suc k
doubled x q k e p = rw pow_step (omega (arith, p))

pub trailing_zeros-le : (width x : ℕ) → trailing_zeros width x ≤ width
unfolding trailing_zeros
trailing_zeros-le zero x = omega arith
trailing_zeros-le (suc width) x = ground (arith, trailing_zeros-le width (x / 2))

-- What is left of a positive number after its trailing zeros is odd.
pub trailing_zeros-odd :
    (width x : ℕ)
    → x ≢ 0
    → x < 2 ^ width
    → (q : ℕ) × (x ≡ q * 2 ^ trailing_zeros width x) × (q % 2 ≡ 1)
unfolding trailing_zeros
trailing_zeros-odd zero x n l = absurd (omega arith)
trailing_zeros-odd (suc width) x n l = elim (Bool-cases (x % 2 == 0)) [
  | inl e ↦
      let z = (==_iff _ _).0 e in
      let (q, p, o) =
        trailing_zeros-odd width (x / 2) (omega arith) (omega (arith, pow_step width)) in
      (q, rw e (doubled x q (trailing_zeros width (x / 2)) z p), o)
  | inr e ↦ (x, rw e (omega arith), ground arith)
]

abbrev pub Measures : ℕ → ℕ → ℕ → Type 0
Measures n width x = (0 < n) × (2 ^ (n - 1) ≤ x) × (x < 2 ^ n) × (n ≤ width)

Measures-suc :
    (n width x : ℕ)
    → 0 < x
    → (x / 2 ≡ 0) × (n ≡ 0) ⊎ Measures n width (x / 2)
    → Measures (suc n) (suc width) x
Measures-suc n width x p (inl z) = rw z.1 (omega arith)
Measures-suc zero width x p (inr m) = absurd (omega arith)
Measures-suc (suc n) width x p (inr m) =
    let e : suc (suc n) - 1 ≡ suc n = omega arith in
    let f : suc n - 1 ≡ n = omega arith in
    let lower = rw f at m.1 in rw e (omega (arith, pow_step n, pow_step (suc n), m.2, lower))

bit_length-zero : (width : ℕ) → bit_length width 0 ≡ 0
unfolding bit_length
bit_length-zero zero = refl
bit_length-zero (suc width) = refl

-- The length of a positive number.
pub bit_length_bounds :
    (width x : ℕ) → 0 < x → x < 2 ^ width → Measures (bit_length width x) width x
unfolding bit_length
bit_length_bounds zero x p l = absurd (omega arith)
bit_length_bounds (suc width) x p l = elim (Bool-cases (x == 0)) [
  | inl e ↦ absurd (omega (arith, (==_iff _ _).0 e))
  | inr e ↦ rw e (
      Measures-suc (bit_length width (x / 2)) width x p (elim (le_or_lt 1 (x / 2)) [
        | inl q ↦ inr (bit_length_bounds width (x / 2) q (omega (arith, pow_step width)))
        | inr q ↦ let z : x / 2 ≡ 0 = omega arith in inl (z, rw z (bit_length-zero width))
      ]))
]
