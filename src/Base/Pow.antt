-- ===== src/Base/Pow.antt =====
-- Powers of two at a variable exponent, which the arithmetic tactics take for unknowns.
use Prim.Native.Nat.{ℕ, zero, suc, ◌+◌, ◌-◌, ◌*◌, ◌/◌, ◌^◌, ◌≤◌, ◌<◌}
use mathlib.Core.Path.{◌≡◌, ap, ◌∙◌}
use native.Mathlib.Nat.{pow-suc, suc-add, mul_assoc, pow-le-pow_right, div-eq_of_lt-le, suc-mul}
use native.Mathlib.Omega.{arith}

pub pow_step : (n : ℕ) → 2 ^ suc n ≡ 2 * 2 ^ n
pow_step n = omega (arith, pow-suc 2 n)

pub pow_pos : (n : ℕ) → 0 < 2 ^ n
pow_pos zero = omega arith
pow_pos (suc n) = omega (arith, pow_step n, pow_pos n)

pub pow_add : (m n : ℕ) → 2 ^ (m + n) ≡ 2 ^ m * 2 ^ n
pow_add zero n = rw (let e : 0 + n ≡ n = omega arith in e) (omega arith)
pow_add (suc m) n = rw (suc-add, pow_step (m + n), pow_step m, pow_add m n, mul_assoc)

pub pow_mono : {m n : ℕ} → m ≤ n → 2 ^ m ≤ 2 ^ n
pow_mono h = pow-le-pow_right (omega arith) h

-- A smaller power divides a larger one.
pub pow_split : (m n : ℕ) → m ≤ n → 2 ^ n ≡ 2 ^ (n - m) * 2 ^ m
pow_split m n h =
    ap (λ (k : ℕ). 2 ^ k) (let e : n ≡ (n - m) + m = omega arith in e) ∙ pow_add (n - m) m

-- The quotient is known from its bounds.
pub div_unique : (a m q : ℕ) → q * m ≤ a → a < q * m + m → a / m ≡ q
div_unique a m q h k = div-eq_of_lt-le m h (omega (arith, suc-mul q m))
