-- ===== src/Net/Cidr/LastAddr.antt =====
-- `lastAddr` of internal/cidr/cidr.go, which sets the host bits one by one in a `[4]byte`.
use Prim.Native.Nat.{bit_or}
use native.Mathlib.Nat.{mul-mod_left, div-mul-le_self}
use cloudpam.Base.{
  ℕ, false, Bool-cases, zero, suc, ◌+◌, ◌-◌, ◌*◌, ◌/◌, ◌%◌, ◌^◌, ◌≤◌, ◌<◌, ◌≡◌, refl, ap, ◌∙◌,
  arith, Bool, true, ◌&&◌, ◌==◌, le_or_lt, inl, inr, if◌then◌else◌, pow_pos, pow_split, pow_step,
  div_unique,
}
use cloudpam.Net.Ip.{Addr, Prefix, block}
use cloudpam.Net.Ip.Block.{first, last}

-- The [4]byte of `As4`, in network byte order.
pub record Bytes : Type 0 where
  pub b0 : ℕ
  pub b1 : ℕ
  pub b2 : ℕ
  pub b3 : ℕ

abbrev pub as_bytes : ℕ → Bytes
as_bytes a = record {
  b0 = a / 2 ^ 24 % 256;
  b1 = a / 2 ^ 16 % 256;
  b2 = a / 2 ^ 8 % 256;
  b3 = a % 256;
}

abbrev pub from_bytes : Bytes → ℕ
from_bytes a = a.b0 * 2 ^ 24 + a.b1 * 2 ^ 16 + a.b2 * 2 ^ 8 + a.b3

-- a4[3 - i/8] |= 1 << (i % 8)
pub set_host_bit : ℕ → Bytes → Bytes
set_host_bit i a =
    let byte_idx = 3 - i / 8 in
    let bit = 2 ^ (i % 8) in
    if byte_idx == 0
    then record a { b0 = bit_or a.b0 bit }
    else if byte_idx == 1
    then record a { b1 = bit_or a.b1 bit }
    else if byte_idx == 2
    then record a { b2 = bit_or a.b2 bit }
    else record a { b3 = bit_or a.b3 bit }

-- The loop over `i`, with the rounds that are left.
pub set_host_bits : ℕ → ℕ → Bytes → Bytes
set_host_bits zero i a = a
set_host_bits (suc rounds) i a = set_host_bits rounds (suc i) (set_host_bit i a)

-- The address of an IPv4 prefix; its only caller has tested that it is one.
pub last_addr : Prefix → Addr
last_addr (Prefix.v4 a b) =
    Addr.v4 (from_bytes (set_host_bits (32 - b) 0 (as_bytes (a / block b * block b))))
last_addr _ = Addr.invalid

abbrev IsBytes : Bytes → Type 0
IsBytes a = (a.b0 < 256) × (a.b1 < 256) × (a.b2 < 256) × (a.b3 < 256)

holds_under : (ℕ → Bool) → ℕ → Bool
holds_under test zero = true
holds_under test (suc k) = if test k then holds_under test k else false

module _ (test : ℕ → Bool) (y : ℕ) where
  -- A test over a table of `k` cases answers for each of them.
  table_case : (k : ℕ) → y < k → holds_under test k ≡ true → test y ≡ true
  unfolding holds_under
  table_case zero l t = absurd (omega arith)
  table_case (suc k) l t = elim (Bool-cases (test k)) [
    | inl e ↦ ground (arith, table_case k)
    | inr e ↦ absurd (ground arith)
  ]

-- Setting a clear bit of a byte adds its value: by a table of all bytes and bits.
clear_bit : ℕ → ℕ → Bool
clear_bit k x = if x / k % 2 == 0 then bit_or x k == x + k else true

clear_bits : ℕ → Bool
unfolding clear_bit
clear_bits x =
    clear_bit 1 x
    && clear_bit 2 x
    && clear_bit 4 x
    && clear_bit 8 x
    && clear_bit 16 x
    && clear_bit 32 x
    && clear_bit 64 x
    && clear_bit 128 x

clear_bits_table : holds_under clear_bits 256 ≡ true
unfolding holds_under clear_bits
clear_bits_table = refl

-- The eight facts for one byte.
abbrev Adds : ℕ → ℕ → Type 0
Adds k x = x / k % 2 ≡ 0 → bit_or x k ≡ x + k

adds :
    (x : ℕ)
    → x < 256
    → Adds 1 x × Adds 2 x × Adds 4 x × Adds 8 x × Adds 16 x × Adds 32 x × Adds 64 x × Adds 128 x
unfolding clear_bits
adds x h =
    let t = table_case clear_bits x 256 h clear_bits_table in
    (
      λ e. ground arith,
      λ e. ground arith,
      λ e. ground arith,
      λ e. ground arith,
      λ e. ground arith,
      λ e. ground arith,
      λ e. ground arith,
      λ e. ground arith,
    )

abbrev StepsTo : ℕ → Bytes → Type 0
StepsTo i a =
    from_bytes a / 2 ^ i % 2 ≡ 0
    → (from_bytes (set_host_bit i a) ≡ from_bytes a + 2 ^ i) × IsBytes (set_host_bit i a)

-- `P` at the `n` numbers from `i` on.
abbrev AllFrom : ℕ → ℕ → (ℕ → Type 0) → Type 0
AllFrom i zero P = Unit
AllFrom i (suc n) P = P i × AllFrom (i + 1) n P

AllFrom-at : (i n : ℕ) (P : ℕ → Type 0) → AllFrom i n P → (k : ℕ) → i ≤ k → k < i + n → P k
AllFrom-at i zero P h k lo hi = absurd (omega arith)
AllFrom-at i (suc n) P h k lo hi = elim (le_or_lt k i) [
  | inl e ↦ rw (let q : k ≡ i = omega arith in q) h.0
  | inr l ↦ AllFrom-at (i + 1) n P h.1 k (omega arith) (omega arith)
]

module _ (a : Bytes) (h : IsBytes a) where
  abbrev To : ℕ → Type 0
  To i = StepsTo i a

  steps_b3 : AllFrom 0 8 To
  unfolding set_host_bit
  steps_b3 = let t = adds a.b3 h.3 in omega arith

  steps_b2 : AllFrom 8 8 To
  unfolding set_host_bit
  steps_b2 = let t = adds a.b2 h.2 in omega arith

  steps_b1 : AllFrom 16 8 To
  unfolding set_host_bit
  steps_b1 = let t = adds a.b1 h.1 in omega arith

  steps_b0 : AllFrom 24 8 To
  unfolding set_host_bit
  steps_b0 = let t = adds a.b0 h.0 in omega arith

  -- Setting a clear bit of the address adds its value.
  set_host_bit-add : (i : ℕ) → i < 32 → StepsTo i a
  set_host_bit-add i l = elim (le_or_lt 8 i) [
    | inr p ↦ AllFrom-at 0 8 To steps_b3 i (omega arith) (omega arith)
    | inl p ↦ elim (le_or_lt 16 i) [
      | inr q ↦ AllFrom-at 8 8 To steps_b2 i (omega arith) (omega arith)
      | inl q ↦ elim (le_or_lt 24 i) [
        | inr r ↦ AllFrom-at 16 8 To steps_b1 i (omega arith) (omega arith)
        | inl r ↦ AllFrom-at 24 8 To steps_b0 i (omega arith) (omega arith)
      ]
    ]
  ]

-- Below a multiple of 2 ^ (i + 1), the number with the low i bits set has bit i clear.
bit_clear : (q i n : ℕ) → i < n → (q * 2 ^ n + 2 ^ i - 1) / 2 ^ i % 2 ≡ 0
bit_clear q i n l =
    let p : q * 2 ^ n ≡ q * 2 ^ (n - suc i) * 2 * 2 ^ i =
      rw (pow_split (suc i) n l, pow_step i) (omega arith) in
    let e : (q * 2 ^ n + 2 ^ i - 1) / 2 ^ i ≡ q * 2 ^ (n - suc i) * 2 =
      div_unique _ (2 ^ i) (q * 2 ^ (n - suc i) * 2) (omega (arith, pow_pos i))
        (omega (arith, pow_pos i)) in
    rw e (mul-mod_left _ _)

-- The loop adds the values of all the host bits.
set_host_bits-add :
    (rounds i n q : ℕ) (a : Bytes)
    → IsBytes a
    → n ≤ 32
    → rounds + i ≡ n
    → from_bytes a ≡ q * 2 ^ n + 2 ^ i - 1
    → from_bytes (set_host_bits rounds i a) ≡ q * 2 ^ n + 2 ^ n - 1
unfolding set_host_bits
set_host_bits-add zero i n q a v l s e =
    let p : i ≡ n = omega arith in e ∙ ap (λ (t : ℕ). q * 2 ^ n + 2 ^ t - 1) p
set_host_bits-add (suc rounds) i n q a v l s e =
    let t = set_host_bit-add a v i (omega arith) (rw e (bit_clear q i n (omega arith))) in
    set_host_bits-add rounds (suc i) n q (set_host_bit i a) t.1 l (omega arith)
      (omega (arith, t.0, e, pow_step i, pow_pos i))

-- The loop computes the last address of the block.
pub last_addr-eq-last :
    (a b : ℕ) → a < 2 ^ 32 → b ≤ 32 → last_addr (Prefix.v4 a b) ≡ Addr.v4 (last a b)
unfolding last_addr
last_addr-eq-last a b h k =
    let f = first a b in
    ap Addr.v4 (
      set_host_bits-add (32 - b) 0 (32 - b) (a / block b) (as_bytes f) (omega arith) (omega arith)
        (omega arith) (omega (arith, div-mul-le_self a (block b))))
