-- ===== src/Base/Entries.antt =====
-- Iterations over the entries of a table: the first that passes a test, and a change of each.
use Prim.Native.Nat.{ℕ}
use mathlib.Core.Path.{◌≡◌, refl, sym, ◌∙◌}
use mathlib.Core.Logic.{inl, inr}
use mathlib.Core.Bool.{Bool, true, false}
use mathlib.Core.Option.{Option, none, some}
use mathlib.Core.List.{[], ◌∷◌}
use native.Mathlib.Omega.{arith}
use cloudpam.Base.Tests.{◌==◌, Bool-cases, if◌then◌else◌}
use cloudpam.Base.Table.{Table, lookup, IsTable, Fresh, Fresh-lookup}

-- Apart from a Go map's order, an iteration that returns at the first entry that passes.
unfoldable pub first_entry {ℓ} : {V : Type ℓ} → (V → Bool) → Table V → Option (ℕ × V)
first_entry p [] = none
first_entry p ((j, v) ∷ m) = if p v then some (j, v) else first_entry p m

-- An iteration that writes each entry at its own key.
unfoldable pub map_values {ℓ} : {V : Type ℓ} → (V → V) → Table V → Table V
map_values f [] = []
map_values f ((j, v) ∷ m) = (j, f v) ∷ map_values f m

abbrev pub applied {ℓ} : {V : Type ℓ} → (V → V) → Option V → Option V
applied f none = none
applied f (some v) = some (f v)

module _ {ℓ} {V : Type ℓ} where
  pub lookup-map_values :
      (f : V → V) (k : ℕ) (m : Table V) → lookup k (map_values f m) ≡ applied f (lookup k m)
  unfolding lookup map_values
  lookup-map_values f k [] = refl
  lookup-map_values f k ((j, v) ∷ m) = elim (Bool-cases (j == k)) [
    | inl e ↦ rw e refl
    | inr e ↦ rw e (lookup-map_values f k m)
  ]

  Fresh-map_values : (f : V → V) (k : ℕ) (m : Table V) → Fresh k m → Fresh k (map_values f m)
  unfolding map_values
  Fresh-map_values f k [] t = t
  Fresh-map_values f k ((j, v) ∷ m) t = (t.0, Fresh-map_values f k m t.1)

  pub IsTable-map_values : (f : V → V) (m : Table V) → IsTable m → IsTable (map_values f m)
  unfolding map_values
  IsTable-map_values f [] t = t
  IsTable-map_values f ((j, v) ∷ m) t = (Fresh-map_values f j m t.0, IsTable-map_values f m t.1)

module _ {ℓ} {V : Type ℓ} (p : V → Bool) where
  pub first_entry-found :
      (m : Table V) (k : ℕ) (v : V)
      → IsTable m
      → first_entry p m ≡ some (k, v)
      → (lookup k m ≡ some v) × (p v ≡ true)
  unfolding first_entry lookup
  first_entry-found [] k v t e = absurd (ground arith)
  first_entry-found ((j, w) ∷ m) k v t e = elim (Bool-cases (p w)) [
    | inl h ↦ ground arith
    | inr h ↦
        let (l, q) = first_entry-found m k v t.1 (ground arith) in
        (ground (arith, Fresh-lookup (λ i x. true) k m), q)
  ]

  pub first_entry-none :
      (m : Table V) (k : ℕ) (v : V) → first_entry p m ≡ none → lookup k m ≡ some v → p v ≡ false
  unfolding first_entry lookup
  first_entry-none [] k v e l = absurd (ground arith)
  first_entry-none ((j, w) ∷ m) k v e l = elim (Bool-cases (p w)) [
    | inl h ↦ absurd (ground arith)
    | inr h ↦ elim (Bool-cases (j == k)) [
      | inl s ↦ ground arith
      | inr s ↦ first_entry-none m k v (ground arith) (ground arith)
    ]
  ]

-- What stands at a key after a change of each entry.
applied-some {ℓ} :
    {V : Type ℓ} (f : V → V) (o : Option V) (v : V)
    → applied f o ≡ some v
    → (w : V) × (o ≡ some w) × (f w ≡ v)
applied-some f none v e = absurd (cc)
applied-some f (some w) v e = (w, refl, ground arith)

pub map_values-was {ℓ} :
    {V : Type ℓ} (f : V → V) (i : ℕ) (v : V) (m : Table V)
    → lookup i (map_values f m) ≡ some v
    → (w : V) × (lookup i m ≡ some w) × (f w ≡ v)
map_values-was f i v m l = applied-some f (lookup i m) v (sym (lookup-map_values f i m) ∙ l)
