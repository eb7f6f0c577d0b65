-- ===== src/Api/Cidr/Pages.antt =====
-- The expansion of a prefix into blocks: what a page holds, and that the blocks tile the prefix.
use Prim.Native.Nat.{min}
use native.Mathlib.Nat.{mod-eq_of_lt, suc-mul, mul_comm, mul_assoc, mul-le-mul_right}
use cloudpam.Base.{
  ℕ, zero, suc, ◌+◌, ◌-◌, ◌*◌, ◌/◌, ◌%◌, ◌^◌, ◌≤◌, ◌<◌, ◌≡◌, ◌↔◌, ◌⊎◌, refl, sym, ap, subst, ap₂,
  ◌∙◌, inl, inr, arith, ltb, if◌then◌else◌, le_or_lt, some, List, [], ◌∷◌, length, take, drop, Any,
  div_unique,
}
use cloudpam.Net.Ip.{Prefix, block, IsPrefix}
use cloudpam.Net.Ip.Block.{first, In, block_pos, block_split}
use cloudpam.Planning.Cidrs.Overlap.{first_fits}
use cloudpam.Api.Cidr.{
  ok, u32_mod, max_subnet_expansion, blocks_from, page_bounds, compute_subnets_window,
  usable_hosts_ipv4, Window,
}

-- Block `i` of size 2 ^ (32 - n) above `base`, without the wrap-around of uint32.
abbrev nth_block : ℕ → ℕ → ℕ → Prefix
nth_block base n i = Prefix.v4 (base + i * block n) n

abbrev nth_blocks : ℕ → ℕ → ℕ → ℕ → List Prefix
nth_blocks base n zero i = []
nth_blocks base n (suc rounds) i = nth_block base n i ∷ nth_blocks base n rounds (suc i)

no_wrap :
    (base i m : ℕ)
    → 0 < m
    → base + i * m + m ≤ u32_mod
    → (base + i % u32_mod * (m % u32_mod) % u32_mod) % u32_mod ≡ base + i * m
no_wrap base zero m p l = omega arith
no_wrap base (suc i) m p l =
    let f : suc i ≤ suc i * m = grind arith in
    let g : m ≤ suc i * m = grind arith in
    rw
      (
        mod-eq_of_lt {n = suc i} {m = u32_mod} (omega arith),
        mod-eq_of_lt {n = m} {m = u32_mod} (omega arith),
        mod-eq_of_lt {n = suc i * m} {m = u32_mod} (omega arith),
      )
      (mod-eq_of_lt (omega arith))

blocks_from-nth :
    (base n rounds i : ℕ)
    → base + (i + rounds) * block n ≤ u32_mod
    → blocks_from base n rounds i ≡ nth_blocks base n rounds i
unfolding blocks_from
blocks_from-nth base n zero i l = refl
blocks_from-nth base n (suc rounds) i l =
    let m = block n in
    let f : base + i * m + m ≤ u32_mod = grind arith in
    ap₂ (λ (a : ℕ) (ps : List Prefix). Prefix.v4 a n ∷ ps) (no_wrap base i m (block_pos n) f)
      (blocks_from-nth base n rounds (suc i)
        (let e : suc i + rounds ≡ i + suc rounds = omega arith in rw e l))

-- A list of blocks with other bounds that are equal numbers.
nth_blocks-cong :
    (base n : ℕ) {r r' i i' : ℕ} → r ≡ r' → i ≡ i' → nth_blocks base n r i ≡ nth_blocks base n r' i'
nth_blocks-cong base n p q = ap₂ (λ (r i : ℕ). nth_blocks base n r i) p q

nth_blocks-take :
    (base n rounds i k : ℕ)
    → take k (nth_blocks base n rounds i) ≡ nth_blocks base n (min k rounds) i
nth_blocks-take base n rounds i zero =
    nth_blocks-cong base n {r = 0} {i = i} (omega arith) (omega arith)
nth_blocks-take base n zero i (suc k) =
    nth_blocks-cong base n {r = 0} {i = i} (omega arith) (omega arith)
nth_blocks-take base n (suc rounds) i (suc k) =
    ap (λ t. nth_block base n i ∷ t) (nth_blocks-take base n rounds (suc i) k)
    ∙ nth_blocks-cong base n {r = suc (min k rounds)} {i = i} (omega arith) (omega arith)

nth_blocks-none : (base n r i : ℕ) → r ≡ 0 → nth_blocks base n r i ≡ []
nth_blocks-none base n zero i e = refl
nth_blocks-none base n (suc r) i e = absurd (omega arith)

nth_blocks-drop :
    (base n rounds i k : ℕ)
    → drop k (nth_blocks base n rounds i) ≡ nth_blocks base n (rounds - k) (i + k)
nth_blocks-drop base n rounds i zero = nth_blocks-cong base n (omega arith) (omega arith)
nth_blocks-drop base n zero i (suc k) =
    sym (nth_blocks-none base n (0 - suc k) (i + suc k) (omega arith))
nth_blocks-drop base n (suc rounds) i (suc k) =
    nth_blocks-drop base n rounds (suc i) k ∙ nth_blocks-cong base n (omega arith) (omega arith)

first_multiple : (q i n : ℕ) → first (q * block n + i * block n) n ≡ q * block n + i * block n
first_multiple q i n =
    let m = block n in
    let e : (q * m + i * m) / m ≡ q + i =
      div_unique (q * m + i * m) m (q + i) (omega arith) (omega (arith, block_pos n)) in
    rw e (omega arith)

-- The blocks from `i` on hold the addresses from their first one on.
nth_blocks-In :
    (q n rounds i x : ℕ)
    → Any (λ p. In p x) (nth_blocks (q * block n) n rounds i)
      ↔ ((q * block n + i * block n ≤ x) × (x < q * block n + (i + rounds) * block n))
nth_blocks-In q n zero i x = (
  λ h. absurd h,
  λ h. omega (arith, ap (λ (t : ℕ). t * block n) (let e : i + 0 ≡ i = omega arith in e)),
)
nth_blocks-In q n (suc rounds) i x =
    let m = block n in
    let ih = nth_blocks-In q n rounds (suc i) x in
    let f = first_multiple q i n in
    let pos = block_pos n in
    let s : suc i * m ≡ i * m + m = suc-mul i m in
    let e : (suc i + rounds) * m ≡ (i + suc rounds) * m = ap (λ (t : ℕ). t * m) (omega arith) in
    let g : suc i * m ≤ (suc i + rounds) * m = grind arith in
    (
      λ h. elim h [
        | inl p ↦ (omega (arith, f, p), omega (arith, f, p, pos))
        | inr r ↦ let t = ih.0 r in (omega (arith, t), omega (arith, t))
      ],
      λ h. elim (le_or_lt (q * m + suc i * m) x) [
        | inl l ↦ inr (ih.1 (l, omega arith))
        | inr l ↦ inl (omega (arith, f), omega (arith, f))
      ],
    )

nth_blocks-page :
    (base n count r start offset size : ℕ)
    → r ≡ min size (count - offset)
    → (start ≡ offset) ⊎ (count - offset ≡ 0)
    → nth_blocks base n r start ≡ take size (drop offset (nth_blocks base n count 0))
nth_blocks-page base n count r start offset size e p =
    rw
      (
        nth_blocks-drop base n count 0 offset,
        nth_blocks-take base n (count - offset) (0 + offset) size,
      )
      (elim p [
        | inl s ↦ nth_blocks-cong base n e (omega arith)
        | inr z ↦
            nth_blocks-none base n r start (omega arith)
            ∙ sym (nth_blocks-none base n (min size (count - offset)) (0 + offset) (omega arith))
      ])

length-nth_blocks : (base n r i : ℕ) → length (nth_blocks base n r i) ≡ r
length-nth_blocks base n zero i = refl
length-nth_blocks base n (suc r) i = ap suc (length-nth_blocks base n r (suc i))

page_bounds_lem :
    (count offset limit : ℕ)
    → 0 < limit
    → (start : ℕ) × (stop : ℕ) × (page_bounds count offset limit ≡ some (start, stop))
      × (stop - start ≡ min (min limit max_subnet_expansion) (count - offset))
      × ((start ≡ offset) ⊎ (count - offset ≡ 0))
      × (start + (stop - start) ≤ count)
unfolding page_bounds
page_bounds_lem count offset limit h =
    let start = if ltb count offset then count else offset in
    let size = if ltb max_subnet_expansion limit then max_subnet_expansion else limit in
    let stop = if ltb count (start + size) then count else start + size in
    (start, stop, ground arith, ground arith, ground arith, ground arith)

module _ (a b n : ℕ) where
  -- All the blocks of the prefix.
  abbrev pub all_blocks : List Prefix
  all_blocks = nth_blocks (first a b) n (2 ^ (n - b)) 0

  -- A page of positive size.
  abbrev pub page : ℕ → ℕ → Window
  page offset limit = record {
    blocks = take (min limit max_subnet_expansion) (drop offset all_blocks);
    hosts = usable_hosts_ipv4 n;
    total = 2 ^ (n - b);
  }

module _ (a b n : ℕ) (p : IsPrefix (Prefix.v4 a b)) (l : b ≤ n) (k : n ≤ 32) where
  block_count : block b ≡ 2 ^ (n - b) * block n
  block_count =
      block_split b n l
      ∙ rw (let e : 32 - b - (32 - n) ≡ n - b = omega arith in e) (mul_comm (block n) (2 ^ (n - b)))

  base_multiple : first a b ≡ a / block b * 2 ^ (n - b) * block n
  base_multiple =
      ap (λ (t : ℕ). a / block b * t) block_count
      ∙ sym (mul_assoc (a / block b) (2 ^ (n - b)) (block n))

  all_blocks-In : (x : ℕ) → Any (λ q. In q x) (all_blocks a b n) ↔ In (Prefix.v4 a b) x
  all_blocks-In x =
      let q = a / block b * 2 ^ (n - b) in
      let c = 2 ^ (n - b) in
      let t = nth_blocks-In q n c 0 x in
      let e : (all_blocks a b n) ≡ nth_blocks (q * block n) n c 0 =
        ap (λ (s : ℕ). nth_blocks s n c 0) base_multiple in
      let f : (0 + c) * block n ≡ block b =
        ap (λ (s : ℕ). s * block n) (omega arith) ∙ sym block_count in
      let pos = block_pos b in
      (
        λ h.
            let (u, v) = t.0 (subst (λ ps. Any (λ q. In q x) ps) e h) in
            (omega (arith, base_multiple, u), omega (arith, base_multiple, v, f, pos)),
        λ h.
            subst (λ ps. Any (λ q. In q x) ps) (sym e)
              (t.1 (omega (arith, base_multiple, h), omega (arith, base_multiple, h, f, pos))),
      )

  all_blocks-from :
      (r i : ℕ) → i + r ≤ 2 ^ (n - b) → blocks_from (first a b) n r i ≡ nth_blocks (first a b) n r i
  all_blocks-from r i h =
      let f = first_fits a b p.0 p.1 in
      let g : (i + r) * block n ≤ 2 ^ (n - b) * block n = mul-le-mul_right (block n) h in
      blocks_from-nth (first a b) n r i (omega (arith, block_count))

  -- For an IPv4 prefix, a length from its own up to 32 and a positive limit, the blocks of that length hold exactly the
  -- prefix's addresses; a page holds those from `offset` on, at most `limit` and at most
  -- MaxSubnetExpansion of them, and the total is the number of all.
  pub compute_subnets_window-page :
      (offset limit : ℕ)
      → 0 < limit
      → (compute_subnets_window (Prefix.v4 a b) n offset limit ≡ ok (page a b n offset limit))
        × (length (all_blocks a b n) ≡ (page a b n offset limit).total)
        × ((x : ℕ) → Any (λ q. In q x) (all_blocks a b n) ↔ In (Prefix.v4 a b) x)
  unfolding compute_subnets_window
  compute_subnets_window-page offset limit h =
      let c = 2 ^ (n - b) in
      let (start, stop, e, size, place, fits) = page_bounds_lem c offset limit h in
      let blocks : blocks_from (first a b) n (stop - start) start
          ≡ (page a b n offset limit).blocks =
        all_blocks-from (stop - start) start fits
        ∙ nth_blocks-page (first a b) n c (stop - start) start offset _ size place in
      (ground (arith, e, blocks), length-nth_blocks (first a b) n c 0, all_blocks-In)
