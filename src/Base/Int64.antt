-- ===== src/Base/Int64.antt =====
-- Go's int, of 64 bits, for the bounds of slices: a value is its residue modulo 2 ^ 64, and is
-- negative from 2 ^ 63 on. The pages of the stores' listings are cut with it.
use Prim.Native.Nat.{ℕ, ◌+◌, ◌-◌, ◌≤◌, ◌<◌, ◌%◌}
use mathlib.Core.Path.{◌≡◌, refl, ap, ◌∙◌}
use mathlib.Core.Logic.{◌⊎◌}
use mathlib.Core.Bool.{Bool, ◌||◌, ◌&&◌, false}
use mathlib.Core.Option.{Option, none, some}
use mathlib.Core.List.{List}
use native.Mathlib.Omega.{arith}
use cloudpam.Base.Tests.{ltb, leb, if◌then◌else◌}
use cloudpam.Base.Lists.{length, take, drop}
use cloudpam.Base.Slices.{cut_slice}

abbrev pub int_mod : ℕ
int_mod = 0x1_0000_0000_0000_0000

abbrev pub int_limit : ℕ
int_limit = 0x8000_0000_0000_0000

-- A sum or a product of ints as the machine leaves it
unfoldable pub wrap_int : ℕ → ℕ
wrap_int n = n % int_mod

abbrev pub is_negative : ℕ → Bool
is_negative n = leb int_limit n

-- `if n > total { n = total }` on an int `n` and a length `total`
unfoldable pub cut_int : ℕ → ℕ → ℕ
cut_int total n = if ltb n int_limit && ltb total n then total else n

pub wrap_int-small : (n : ℕ) → n < int_limit → wrap_int n ≡ n
unfolding wrap_int
wrap_int-small n fits = omega arith

pub cut_int-cases :
    (total n : ℕ)
    → n < int_limit
    → ((total ≤ n) × (cut_int total n ≡ total)) ⊎ ((n < total) × (cut_int total n ≡ n))
unfolding cut_int
cut_int-cases total n fits = ground arith

-- Where a slice starts, `first` being an offset that does not wrap
pub cut_int-starts :
    (total first : ℕ)
    → first < int_limit
    → ((first ≤ total) × (cut_int total (wrap_int first) ≡ first))
      ⊎ ((total < first) × (cut_int total (wrap_int first) ≡ total))
unfolding cut_int
cut_int-starts total first fits = ground (arith, wrap_int-small first fits)

module _ {ℓ} {A : Type ℓ} where
  -- `xs[start:end]` on ints; `none` is the panic on bounds out of range. Go's bound of `end` is the
  -- capacity; a caller that cuts `end` at the length does not reach what lies between the two.
  unfoldable pub slice_of : List A → ℕ → ℕ → Option (List A)
  slice_of xs start end =
      if is_negative start || (is_negative end || (ltb end start || ltb (length xs) end))
      then none
      else some (take (end - start) (drop start xs))

  slice_of-some :
      (xs : List A) (start stop : ℕ)
      → start ≤ stop
      → stop ≤ length xs
      → length xs < int_limit
      → slice_of xs start stop ≡ some (take (stop - start) (drop start xs))
  unfolding slice_of
  slice_of-some xs start stop a b l =
      let inside : (is_negative start
            || (is_negative stop || (ltb stop start || ltb (length xs) stop)))
          ≡ false =
        ground arith in
      rw inside refl

  -- Where the sum does not wrap, the slice between the bounds cut at the end of the list is the one
  -- from `first` on, of at most `size` elements.
  pub slice_of-cut :
      (xs : List A) (first size start : ℕ)
      → ((first ≤ length xs) × (start ≡ first)) ⊎ ((length xs < first) × (start ≡ length xs))
      → length xs + size < int_limit
      → slice_of xs start (cut_int (length xs) (wrap_int (start + size)))
        ≡ some (take size (drop first xs))
  slice_of-cut xs first size start begins room =
      let sum = wrap_int-small (start + size) (omega arith) in
      let ends = cut_int-cases (length xs) (start + size) (omega arith) in
      let stop = cut_int (length xs) (start + size) in
      ap (λ n. slice_of xs start (cut_int (length xs) n)) sum
      ∙ slice_of-some xs start stop (omega arith) (omega arith) (omega arith)
      ∙ ap some (cut_slice xs first size start stop begins ends)
