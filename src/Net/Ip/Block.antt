-- ===== src/Net/Ip/Block.antt =====
-- The set of addresses of an IPv4 prefix, as an interval, and the arithmetic of such blocks.
use native.Mathlib.Nat.{div-mul-le_self, lt-div-mul-add, div-div-eq-div-mul, mul_comm}
use cloudpam.Base.{
  ℕ, ◌+◌, ◌-◌, ◌*◌, ◌/◌, ◌^◌, ◌≤◌, ◌<◌, ◌≡◌, ◌∙◌, ◌↔◌, arith, pow_pos, pow_split, div_unique, true,
  ==_iff,
}
use cloudpam.Net.Ip.{Addr, Prefix, block, contains}

-- The first and the last address of the block of `a` at prefix length `b`.
abbrev pub first : ℕ → ℕ → ℕ
first a b = a / block b * block b

abbrev pub last : ℕ → ℕ → ℕ
last a b = first a b + block b - 1

-- The addresses of a prefix; an IPv6 prefix has no IPv4 address.
abbrev pub In : Prefix → ℕ → Type 0
In (Prefix.v4 a b) x = (first a b ≤ x) × (x ≤ last a b)
In _ x = ⊥

pub block_pos : (b : ℕ) → 0 < block b
block_pos b = pow_pos (32 - b)

pub same_block : (x a m : ℕ) → 0 < m → (x / m ≡ a / m) ↔ ((a / m * m ≤ x) × (x < a / m * m + m))
same_block x a m h = (
  λ e. rw (← e) (div-mul-le_self x m, lt-div-mul-add {a = x} {b = m} h),
  λ p. div_unique x m (a / m) p.0 p.1,
)

pub In-iff : (a b x : ℕ) → In (Prefix.v4 a b) x ↔ (x / block b ≡ a / block b)
In-iff a b x =
    let s = same_block x a (block b) (block_pos b) in
    (
      λ p. s.1 (p.0, omega (arith, p.1, block_pos b)),
      λ e. let p = s.0 e in (p.0, omega (arith, p.1)),
    )

-- A containment test of netip is membership in the interval.
pub contains-In : (a b x : ℕ) → (contains (Prefix.v4 a b) (Addr.v4 x) ≡ true) ↔ In (Prefix.v4 a b) x
unfolding contains
contains-In a b x =
    (λ e. (In-iff a b x).1 ((==_iff _ _).0 e), λ p. (==_iff _ _).1 ((In-iff a b x).0 p))

pub first-In : (a b : ℕ) → In (Prefix.v4 a b) (first a b)
first-In a b = (omega arith, omega (arith, block_pos b))

pub last-In : (a b : ℕ) → In (Prefix.v4 a b) (last a b)
last-In a b = (omega (arith, block_pos b), omega arith)

pub block_split : (b c : ℕ) → b ≤ c → block b ≡ block c * 2 ^ ((32 - b) - (32 - c))
block_split b c h = pow_split (32 - c) (32 - b) (omega arith) ∙ mul_comm _ _

-- Addresses that share a smaller block share the larger.
pub coarser : (x y b c : ℕ) → b ≤ c → x / block c ≡ y / block c → x / block b ≡ y / block b
coarser x y b c h e =
    let k = 2 ^ (32 - b - (32 - c)) in
    rw
      (block_split b c h, ← div-div-eq-div-mul x (block c) k, ← div-div-eq-div-mul y (block c) k, e)
