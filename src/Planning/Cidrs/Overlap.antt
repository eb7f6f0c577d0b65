-- ===== src/Planning/Cidrs/Overlap.antt =====
-- `prefixToInterval`, `prefixesOverlap` and `isRFC1918` against the address sets of the prefixes.
use native.Mathlib.Nat.{mul-div_left, div-mul-le_self, div-lt_iff_lt-mul}
use cloudpam.Base.{
  ℕ, ◌+◌, ◌-◌, ◌*◌, ◌/◌, ◌%◌, ◌^◌, ◌≤◌, ◌<◌, ◌≡◌, ◌↔◌, refl, ap, ◌∙◌, inl, inr, arith, true, false,
  Bool-cases, Bool, ◌&&◌, leb, pow_split, le_or_lt, some, List, [], ◌∷◌, Any, All,
}
use cloudpam.Net.Ip.{Prefix, block, masked, IsPrefix}
use cloudpam.Net.Ip.Block.{first, last, In, block_pos, first-In, last-In}
use cloudpam.Planning.Ranges.{Interval, u32_mod, prefix_to_interval}
use cloudpam.Planning.Cidrs.{
  intervals_meet, prefixes_overlap, rfc1918_blocks, interval_within_any, is_rfc1918,
}

-- Masking twice is masking once.
pub first_idem : (a b : ℕ) → first (first a b) b ≡ first a b
first_idem a b = ap (λ (q : ℕ). q * block b) (mul-div_left (a / block b) (block_pos b))

-- The block of an IPv4 address ends within the address space.
pub first_fits : (a b : ℕ) → a < u32_mod → b ≤ 32 → first a b + block b ≤ u32_mod
first_fits a b h k =
    let m = block b in
    let n = 2 ^ (32 - (32 - b)) in
    let e : u32_mod ≡ n * m = pow_split (32 - b) 32 (omega arith) in
    let q : a / m < n = (div-lt_iff_lt-mul {k = m} {x = a} {y = n} (block_pos b)).1 (rw (← e) h) in
    rw e (grind arith)

abbrev pub span : ℕ → ℕ → Interval
span a b = record { start = first a b; end = last a b }

-- For an IPv4 prefix `prefixToInterval` is the interval of its addresses: the shift by 32 and the
-- subtraction wrap as they should at /0.
pub prefix_to_interval-span :
    (a b : ℕ) → a < u32_mod → b ≤ 32 → prefix_to_interval (Prefix.v4 a b) ≡ some (span a b)
unfolding prefix_to_interval
prefix_to_interval-span a b h k =
    let start = first_idem a b in
    let fits = first_fits a b h k in
    let pos = block_pos b in
    let e : (first a b + block b % u32_mod + u32_mod - 1) % u32_mod ≡ last a b =
      elim (le_or_lt u32_mod (block b)) [ inl l ↦ omega arith | inr l ↦ omega arith ] in
    rw e (ground arith)

pub masked-span :
    (a b : ℕ) → a < u32_mod → b ≤ 32 → prefix_to_interval (masked (Prefix.v4 a b)) ≡ some (span a b)
masked-span a b h k =
    prefix_to_interval-span (first a b) b (omega (arith, div-mul-le_self a (block b))) k
    ∙ rw first_idem

module _ (a b x y : ℕ) (p : IsPrefix (Prefix.v4 a b)) (q : IsPrefix (Prefix.v4 x y)) where
  pub prefixes_overlap-meet :
      prefixes_overlap (Prefix.v4 a b) (Prefix.v4 x y) ≡ some (intervals_meet (span a b) (span x y))
  unfolding prefixes_overlap
  prefixes_overlap-meet = ground (arith, masked-span a b p.0 p.1, masked-span x y q.0 q.1)

  -- For IPv4 prefixes `prefixesOverlap` does not panic, and holds exactly when some address belongs
  -- to both.
  pub prefixes_overlap-iff_common :
      (r : Bool) × (prefixes_overlap (Prefix.v4 a b) (Prefix.v4 x y) ≡ some r)
      × ((r ≡ true) ↔ ((z : ℕ) × In (Prefix.v4 a b) z × In (Prefix.v4 x y) z))
  unfolding intervals_meet
  prefixes_overlap-iff_common = (
    intervals_meet (span a b) (span x y),
    prefixes_overlap-meet,
    (
      λ e. elim (le_or_lt (first a b) (first x y)) [
        | inl l ↦ (first x y, (l, ground arith), first-In x y)
        | inr l ↦ (first a b, first-In a b, (omega arith, ground arith))
      ],
      λ (z, i, j). ground arith,
    ),
  )

-- Every address of the first prefix is one of the second.
abbrev pub Inside : Prefix → Prefix → Type 0
Inside p r = (x : ℕ) → In p x → In r x

within_iff :
    (a b x y : ℕ)
    → (leb (first x y) (first a b) && leb (last a b) (last x y)) ≡ true
      ↔ Inside (Prefix.v4 a b) (Prefix.v4 x y)
within_iff a b x y = (
  λ e z i. ground arith,
  λ s. let l = s (first a b) (first-In a b) in let m = s (last a b) (last-In a b) in ground arith,
)

abbrev IsPrefix4 : Prefix → Type 0
IsPrefix4 (Prefix.v4 a b) = (a < u32_mod) × (b ≤ 32)
IsPrefix4 _ = ⊥

within-Any :
    (a b : ℕ) (rs : List Prefix)
    → All IsPrefix4 rs
    → (r : Bool) × (interval_within_any (span a b) rs ≡ some r)
      × ((r ≡ true) ↔ Any (Inside (Prefix.v4 a b)) rs)
unfolding interval_within_any
within-Any a b [] w = (false, refl, (λ e. cc, λ h. absurd h))
within-Any a b (Prefix.invalid ∷ rs) w = elim w.0 [ ]
within-Any a b (Prefix.v6 x y ∷ rs) w = elim w.0 [ ]
within-Any a b (Prefix.v4 x y ∷ rs) w =
    let i = within_iff a b x y in
    let t = prefix_to_interval-span x y w.0.0 w.0.1 in
    let (r, e, ih) = within-Any a b rs w.1 in
    elim (Bool-cases (leb (first x y) (first a b) && leb (last a b) (last x y))) [
      | inl h ↦ (true, rw (interval_within_any, t, h), (λ _. inl (i.0 h), λ _. refl))
      | inr h ↦ (
        r,
        rw (interval_within_any, t, h) e,
        (
          λ q. inr (ih.0 q),
          λ s. elim s [ inl u ↦ absurd (ground (arith, i.1 u)) | inr u ↦ ih.1 u ],
        ),
      )
    ]

-- For an IPv4 prefix `isRFC1918` does not panic, and holds exactly when all the prefix's addresses
-- belong to one of 10.0.0.0/8, 172.16.0.0/12 and 192.168.0.0/16.
pub is_rfc1918-iff_Inside :
    (a b : ℕ)
    → IsPrefix (Prefix.v4 a b)
    → (r : Bool) × (is_rfc1918 (Prefix.v4 a b) ≡ some r)
      × ((r ≡ true) ↔ Any (Inside (Prefix.v4 a b)) rfc1918_blocks)
unfolding is_rfc1918
is_rfc1918-iff_Inside a b p =
    let (r, e, i) = within-Any a b rfc1918_blocks (omega arith) in
    (r, ground (arith, masked-span a b p.0 p.1), i)
