-- ===== src/Planning/Cidrs/Cover.antt =====
-- What a tiling by `rangeToCIDRs` says of addresses and of their number.
use native.Mathlib.Nat.{div-add-mod', mod-eq_of_lt}
use cloudpam.Base.{
  ℕ, ◌+◌, ◌-◌, ◌%◌, ◌^◌, ◌≤◌, ◌<◌, ◌≡◌, ◌↔◌, inl, inr, arith, pow_mono, le_or_lt, some, List, [],
  ◌∷◌, Any,
}
use cloudpam.Net.Ip.{Prefix, block}
use cloudpam.Net.Ip.Block.{first, In, block_pos}
use cloudpam.Planning.Ranges.{u32_mod}
use cloudpam.Planning.Cidrs.{range_to_cidrs, prefix_address_count}
use cloudpam.Planning.Cidrs.Tiling.{Tiles, range_to_cidrs-Tiles}

aligned_first : (a b : ℕ) → a % block b ≡ 0 → first a b ≡ a
aligned_first a b h = omega (arith, div-add-mod' a (block b))

-- The addresses of a tiling are those of its range.
Tiles-In :
    (s limit x : ℕ) (ps : List Prefix)
    → Tiles s limit ps
    → Any (λ p. In p x) ps ↔ ((s ≤ x) × (x < limit))
Tiles-In s limit x [] t = (λ h. absurd h, λ h. omega arith)
Tiles-In s limit x (Prefix.invalid ∷ ps) t = elim t [ ]
Tiles-In s limit x (Prefix.v6 a b ∷ ps) t = elim t [ ]
Tiles-In s limit x (Prefix.v4 a b ∷ ps) (e, k, f, t) =
    let g = aligned_first a b (rw e f.aligned) in
    let i = f.inside in
    let ih = Tiles-In (s + block b) limit x ps t in
    (
      λ h. elim h [
        | inl p ↦ omega (arith, g, e, i, p, block_pos b)
        | inr q ↦ omega (arith, ih.0 q)
      ],
      λ p. elim (le_or_lt (s + block b) x) [
        | inl q ↦ inr (ih.1 (q, p.1))
        | inr q ↦ inl (omega (arith, g, e, p, q))
      ],
    )

pub sum_counts : List Prefix → ℕ
sum_counts [] = 0
sum_counts (p ∷ ps) = prefix_address_count p + sum_counts ps

count_lem : (b : ℕ) → 2 ^ (32 - b) % 2 ^ 64 ≡ block b
count_lem b = mod-eq_of_lt (omega (arith, pow_mono {m = 32 - b} {n = 32} (omega arith)))

Tiles-sum_counts : (s limit : ℕ) (ps : List Prefix) → Tiles s limit ps → s + sum_counts ps ≡ limit
unfolding sum_counts prefix_address_count
Tiles-sum_counts s limit [] t = omega (arith, t)
Tiles-sum_counts s limit (Prefix.invalid ∷ ps) t = elim t [ ]
Tiles-sum_counts s limit (Prefix.v6 a b ∷ ps) t = elim t [ ]
Tiles-sum_counts s limit (Prefix.v4 a b ∷ ps) (e, k, f, t) =
    omega (arith, count_lem b, Tiles-sum_counts (s + block b) limit ps t)

-- For a range of IPv4 addresses `rangeToCIDRs` ends, an address lies in one of the blocks that it
-- returns exactly when it lies in the range, and their address counts add up to the range's size.
pub range_to_cidrs-cover :
    (s e : ℕ)
    → s ≤ e
    → e < u32_mod
    → (ps : List Prefix) × (range_to_cidrs s e ≡ some ps)
      × ((x : ℕ) → Any (λ p. In p x) ps ↔ ((s ≤ x) × (x ≤ e)))
      × (sum_counts ps ≡ e - s + 1)
range_to_cidrs-cover s e l h =
    let (ps, r, t) = range_to_cidrs-Tiles s e l h in
    (
      ps,
      r,
      λ x.
          let c = Tiles-In s (e + 1) x ps t in
          (λ i. let p = c.0 i in (p.0, omega (arith, p.1)), λ p. c.1 (p.0, omega (arith, p.1))),
      omega (arith, Tiles-sum_counts s (e + 1) ps t),
    )
