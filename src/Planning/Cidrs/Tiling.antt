-- ===== src/Planning/Cidrs/Tiling.antt =====
-- `rangeToCIDRs` tiles its range with aligned blocks, each as large as it can be.
use native.Mathlib.Nat.{div-add-mod', mul-mod_left, mul_assoc, add-mul-mod_self_right, mod-eq_of_lt}
use mathlib.Core.Option
use cloudpam.Base.{
  ℕ, zero, suc, ◌+◌, ◌-◌, ◌*◌, ◌/◌, ◌%◌, ◌^◌, ◌≤◌, ◌<◌, ◌≡◌, ◌≢◌, ◌⊎◌, refl, ap, inl, inr,
  Bool-cases, false, ◌==◌, ==_iff, leb, ltb, leb→le, if◌then◌else◌, arith, pow_step, pow_pos,
  pow_mono, pow_split, le_or_lt, Option, some, none, List, [], ◌∷◌,
}
use cloudpam.Net.Ip.{Prefix, block}
use cloudpam.Planning.Ranges.{u32_mod}
use cloudpam.Planning.Cidrs.{trailing_zeros32, bit_length, fit_bits, range_loop, range_to_cidrs}
use cloudpam.Planning.Cidrs.Bits.{trailing_zeros-le, trailing_zeros-odd, bit_length_bounds}

-- The block of 2 ^ k addresses at `s` is aligned, ends before `limit`, and no block twice as large
-- is and does.
pub record Fits (k s limit : ℕ) : Type 0 where
  pub small : k ≤ 32
  pub aligned : s % 2 ^ k ≡ 0
  pub inside : s + 2 ^ k ≤ limit
  pub largest : (k ≡ 32) ⊎ ((s % 2 ^ suc k ≢ 0) ⊎ (limit < s + 2 ^ suc k))

divides : (s q j k : ℕ) → k ≤ j → s ≡ q * 2 ^ j → s % 2 ^ k ≡ 0
divides s q j k l e = rw (e, pow_split k j l, ← mul_assoc) (mul-mod_left _ _)

odd_half : (q : ℕ) → q % 2 ≡ 1 → q ≡ 1 + q / 2 * 2
odd_half q o = omega arith

half_lt : (p : ℕ) → 0 < p → p < 2 * p
half_lt p h = omega arith

odd_multiple : (s q k : ℕ) → q % 2 ≡ 1 → s ≡ q * 2 ^ k → s % 2 ^ suc k ≢ 0
odd_multiple s q k o e =
    let p = 2 ^ k in
    let f : s ≡ p + q / 2 * (2 * p) = omega (arith, e, ap (λ (t : ℕ). t * p) (odd_half q o)) in
    rw
      (
        pow_step k,
        f,
        add-mul-mod_self_right p (q / 2) (2 * p),
        mod-eq_of_lt (half_lt p (pow_pos k)),
      )
      (λ z. omega (arith, pow_pos k, z))

-- The exponent from the alignment `j` and the length `n` of the remaining count.
Fits-min :
    (s limit j n : ℕ)
    → s < limit
    → j ≤ 32
    → s % 2 ^ j ≡ 0
    → (j ≡ 32) ⊎ (s % 2 ^ suc j ≢ 0)
    → 2 ^ n ≤ limit - s
    → limit - s < 2 ^ suc n
    → Fits (if ltb j n then j else n) s limit
Fits-min s limit j n l a d m lower upper = elim (Bool-cases (ltb j n)) [
  | inl e ↦ rw e (record {
    small = a;
    aligned = d;
    inside = omega (arith, pow_mono {m = j} {n = n} (ground arith));
    largest = elim m [ inl p ↦ inl p | inr p ↦ inr (inl p) ];
  })
  | inr e ↦ rw e (record {
    small = ground arith;
    aligned = divides s (s / 2 ^ j) j n (ground arith) (omega (arith, div-add-mod' s (2 ^ j)));
    inside = omega arith;
    largest = inr (inr (omega arith));
  })
]

-- The alignment of `s`, as `rangeToCIDRs` computes it.
alignment :
    (s : ℕ)
    → s < u32_mod
    → let j = if s == 0 then 32 else trailing_zeros32 s in
      (j ≤ 32) × (s % 2 ^ j ≡ 0) × ((j ≡ 32) ⊎ (s % 2 ^ suc j ≢ 0))
alignment s h = elim (Bool-cases (s == 0)) [
  | inl e ↦ rw e (let z : s ≡ 0 = (==_iff s 0).0 e in rw z (omega arith, refl, inl refl))
  | inr e ↦
      let (q, p, o) = trailing_zeros-odd 32 s (λ z. ground arith) h in
      rw e (
        trailing_zeros-le 32 s,
        divides s q (trailing_zeros32 s) (trailing_zeros32 s) (omega arith) p,
        inr (odd_multiple s q (trailing_zeros32 s) o p),
      )
]

pub fit_bits-Fits : (s e : ℕ) → s ≤ e → e < u32_mod → Fits (fit_bits s e) s (e + 1)
unfolding fit_bits
fit_bits-Fits s e l h =
    let a = alignment s (omega arith) in
    let r : e - s + 1 ≡ e + 1 - s = omega arith in
    let m = bit_length_bounds 64 (e - s + 1) (omega arith) (omega arith) in
    let n = bit_length 64 (e - s + 1) in
    let f : 63 - (64 - n) ≡ n - 1 = omega (arith, m) in
    let g : suc (n - 1) ≡ n = omega (arith, m) in
    rw f (Fits-min s (e + 1) _ (n - 1) (omega arith) a.0 a.1 a.2 (rw (← r) m.1) (rw (g, ← r) m.2))

-- The prefixes are blocks that follow one another from `s` up to `limit`, each of them aligned and
-- as large as it can be.
abbrev pub Tiles : ℕ → ℕ → List Prefix → Type 0
Tiles s limit [] = s ≡ limit
Tiles s limit (Prefix.v4 a b ∷ ps) =
    (a ≡ s) × (b ≤ 32) × Fits (32 - b) s limit × Tiles (s + block b) limit ps
Tiles s limit (_ ∷ ps) = ⊥

abbrev Returns : ℕ → ℕ → Option (List Prefix) → Type 0
Returns s limit none = ⊥
Returns s limit (some ps) = Tiles s limit ps

not_zero : (n : ℕ) → n ≢ 0 → (n == 0) ≡ false
not_zero n h = ground arith

-- The next start, with both wrap-arounds: 0 exactly when the address space is used up.
next_start :
    (s p e : ℕ)
    → 0 < p
    → s + p ≤ e + 1
    → e < u32_mod
    → ((s + p % u32_mod) % u32_mod ≡ 0) × (s + p ≡ u32_mod)
      ⊎ ((s + p % u32_mod) % u32_mod ≡ s + p) × (s + p < u32_mod)
next_start s p e z l h = elim (le_or_lt u32_mod (s + p)) [
  | inl m ↦ inl (omega arith, omega arith)
  | inr m ↦ inr (omega arith, omega arith)
]

Tiles-cons :
    (s k limit : ℕ) (ps : List Prefix)
    → Fits k s limit
    → Tiles (s + 2 ^ k) limit ps
    → Tiles s limit (Prefix.v4 s (32 - k) ∷ ps)
Tiles-cons s k limit ps f t =
    let small = f.small in
    let e : 32 - (32 - k) ≡ k = omega arith in (refl, omega arith, rw e f, rw e t)

Returns-map :
    (s k limit : ℕ) (r : Option (List Prefix))
    → Fits k s limit
    → Returns (s + 2 ^ k) limit r
    → Returns s limit (Option.map (λ ps. Prefix.v4 s (32 - k) ∷ ps) r)
Returns-map s k limit none f h = h
Returns-map s k limit (some ps) f h = Tiles-cons s k limit ps f h

range_loop-Returns :
    (fuel s e : ℕ)
    → s ≤ e + 1
    → e < u32_mod
    → e + 1 - s < fuel
    → Returns s (e + 1) (range_loop fuel s e)
unfolding range_loop
range_loop-Returns zero s e l h f = absurd (omega arith)
range_loop-Returns (suc fuel) s e l h f = elim (Bool-cases (leb s e)) [
  | inr past ↦ rw past (ground arith)
  | inl more ↦
      let k = fit_bits s e in
      let fits = fit_bits-Fits s e (leb→le s e more) h in
      let next = (s + 2 ^ k % u32_mod) % u32_mod in
      let pos = pow_pos k in
      elim (next_start s (2 ^ k) e pos fits.inside h) [
        | inl done ↦
            let end : s + 2 ^ k ≡ e + 1 = omega (arith, fits.inside, done.1) in
            rw (more, (==_iff next 0).1 done.0) (Tiles-cons s k (e + 1) [] fits end)
        | inr goes ↦
            rw (more, not_zero next (omega (arith, goes.0, pos)), goes.0)
              (Returns-map s k (e + 1) (range_loop fuel (s + 2 ^ k) e) fits (
                range_loop-Returns fuel (s + 2 ^ k) e fits.inside h
                  (omega (arith, pos, fits.inside))))
      ]
]

Returns-some :
    (s limit : ℕ) (r : Option (List Prefix))
    → Returns s limit r
    → (ps : List Prefix) × (r ≡ some ps) × Tiles s limit ps
Returns-some s limit none h = absurd h
Returns-some s limit (some ps) h = (ps, refl, h)

-- For a range of IPv4 addresses `rangeToCIDRs` ends and returns blocks that follow one another from
-- its first to its last address, each of them aligned, and so large that no aligned block twice as
-- large starts there and fits.
pub range_to_cidrs-Tiles :
    (s e : ℕ)
    → s ≤ e
    → e < u32_mod
    → (ps : List Prefix) × (range_to_cidrs s e ≡ some ps) × Tiles s (e + 1) ps
unfolding range_to_cidrs
range_to_cidrs-Tiles s e l h =
    Returns-some s (e + 1) _
      (range_loop-Returns (suc (suc (e - s))) s e (omega arith) h (omega arith))
