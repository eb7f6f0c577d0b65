-- ===== src/Validation/Cidrs.antt =====
-- What `ValidateCIDR` of internal/validation/validation.go accepts.
use cloudpam.Base.{
  ℕ, ◌≤◌, ◌≡◌, ◌↔◌, refl, sym, ◌∙◌, arith, inl, inr, Bool-cases, ==_iff, le_or_lt, String, true,
  false, some, none, List, [], ◌∷◌, Any, ◌==◌, str_eq,
}
use cloudpam.Net.Ip.{Prefix, prefix_addr, contains}
use cloudpam.Net.Ip.Block.{first, In, In-iff, contains-In}
use cloudpam.Net.Cidr.{Netip}
use cloudpam.Storage.Memory.Search.{text_contains}
use cloudpam.Net.Cidr.Contains.{In-coarser}
use cloudpam.Validation.{
  reserved_ipv4_ranges, prefix_overlaps, overlaps_any, default_cidr_options, validate_prefix,
  validate_cidr_with_options, validate_cidr,
}

self-In : (a b : ℕ) → In (Prefix.v4 a b) a
self-In a b = (In-iff a b a).1 refl

-- Two IPv4 prefixes pass the test exactly when they share an address.
prefix_overlaps-common :
    (a b x y : ℕ)
    → (prefix_overlaps (Prefix.v4 a b) (Prefix.v4 x y) ≡ true)
      ↔ ((z : ℕ) × In (Prefix.v4 a b) z × In (Prefix.v4 x y) z)
prefix_overlaps-common a b x y = (
  λ e. elim (Bool-cases (contains (Prefix.v4 a b) (prefix_addr (Prefix.v4 x y)))) [
    | inl h ↦ (x, (contains-In a b x).0 h, self-In x y)
    | inr h ↦ (a, self-In a b, (contains-In x y a).0 (sym (rw h refl) ∙ e))
  ],
  λ (z, i, j). elim (le_or_lt b y) [
    | inl l ↦ rw ((contains-In a b x).1 (In-coarser a b x y z x l j (self-In x y) i)) refl
    | inr l ↦
        let h = (contains-In x y a).1 (In-coarser x y a b z a (omega arith) i (self-In a b) j) in
        ground arith
  ],
)

abbrev pub InSome : List Prefix → ℕ → Type 0
InSome rs z = Any (λ r. In r z) rs

overlaps_any-false :
    (a b : ℕ) (rs : List Prefix)
    → (overlaps_any (Prefix.v4 a b) rs ≡ false) ↔ ((z : ℕ) → In (Prefix.v4 a b) z → ¬ (InSome rs z))
unfolding overlaps_any contains
overlaps_any-false a b [] = (λ e z i n. n, λ f. refl)
overlaps_any-false a b (Prefix.invalid ∷ rs) =
    let ih = overlaps_any-false a b rs in
    (
      λ e z i n. elim n [ inl m ↦ absurd m | inr m ↦ ih.0 e z i m ],
      λ f. ih.1 (λ z i m. f z i (inr m)),
    )
overlaps_any-false a b (Prefix.v6 x y ∷ rs) =
    let ih = overlaps_any-false a b rs in
    (
      λ e z i n. elim n [ inl m ↦ absurd m | inr m ↦ ih.0 e z i m ],
      λ f. ih.1 (λ z i m. f z i (inr m)),
    )
overlaps_any-false a b (Prefix.v4 x y ∷ rs) =
    let c = prefix_overlaps-common a b x y in
    let ih = overlaps_any-false a b rs in
    (
      λ e z i n. elim n [
        | inl j ↦ let h = c.1 (z, i, j) in ground arith
        | inr m ↦ ih.0 (ground arith) z i m
      ],
      λ f. elim (Bool-cases (prefix_overlaps (Prefix.v4 a b) (Prefix.v4 x y))) [
        | inl h ↦ let (z, i, j) = c.0 h in absurd (f z i (inl j))
        | inr h ↦ rw h (ih.1 (λ z i m. f z i (inr m)))
      ],
    )

-- The four conditions that the default options set for a prefix
validate_prefix-none :
    (a b : ℕ)
    → (validate_prefix default_cidr_options (Prefix.v4 a b) ≡ none) ↔ (
        ((a == first a b) ≡ true)
        × (8 ≤ b)
        × (b ≤ 30)
        × (overlaps_any (Prefix.v4 a b) reserved_ipv4_ranges ≡ false))
unfolding validate_prefix
validate_prefix-none a b = ground arith

-- `ValidateCIDR` accepts a text that is not blank, has a slash, and in which `ParsePrefix` reads an
-- IPv4 prefix, exactly when the prefix starts at its network address, is between 8 and 30 bits long, and none of its addresses lies in
-- a reserved range.
pub validate_cidr_iff :
    (netip : Netip) (trim : String → String) (text : String) (a b : ℕ)
    → str_eq (trim text) "" ≡ false
    → text_contains (trim text) "/" ≡ true
    → netip.parse_prefix (trim text) ≡ some (Prefix.v4 a b)
    → (validate_cidr netip trim text ≡ none) ↔ (
        (a ≡ first a b)
        × (8 ≤ b)
        × (b ≤ 30)
        × ((z : ℕ) → In (Prefix.v4 a b) z → ¬ (InSome reserved_ipv4_ranges z)))
unfolding validate_cidr validate_cidr_with_options validate_prefix
validate_cidr_iff netip trim text a b full slash parsed =
    let reserved = overlaps_any-false a b reserved_ipv4_ranges in
    let canonical = ==_iff a (first a b) in
    let checked = validate_prefix-none a b in
    let opened : validate_cidr netip trim text
        ≡ validate_prefix default_cidr_options (Prefix.v4 a b) =
      rw (validate_cidr, validate_cidr_with_options, full, slash, parsed) refl in
    (
      λ e. let (c, l, u, f) = checked.0 (sym opened ∙ e) in (canonical.0 c, l, u, reserved.0 f),
      λ (c, l, u, free). opened ∙ checked.1 (canonical.1 c, l, u, reserved.1 free),
    )
