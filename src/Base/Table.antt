-- ===== src/Base/Table.antt =====
-- Maps from ids as association lists. Go leaves the order of an iteration over a map open; here it
-- is the order of the entries.
use Prim.Native.Nat.{ℕ}
use mathlib.Core.Path.{◌≡◌, refl, subst}
use mathlib.Core.Logic.{◌≢◌, inl, inr}
use mathlib.Core.Bool.{Bool, true, false, ◌||◌}
use mathlib.Core.Option.{Option, none, some}
use mathlib.Core.List.{List, [], ◌∷◌}
use native.Mathlib.Omega.{arith}
use cloudpam.Base.Tests.{◌==◌, Bool-cases, ==_iff, if◌then◌else◌}

abbrev pub Table {ℓ} : Type ℓ → Type ℓ
Table V = List (ℕ × V)

module _ {ℓ} {V : Type ℓ} where
  unfoldable pub lookup : ℕ → Table V → Option V
  lookup k [] = none
  lookup k ((j, v) ∷ m) = if j == k then some v else lookup k m

  unfoldable pub put : ℕ → V → Table V → Table V
  put k v [] = (k, v) ∷ []
  put k v ((j, w) ∷ m) = if j == k then (k, v) ∷ m else (j, w) ∷ put k v m

  unfoldable pub remove : ℕ → Table V → Table V
  remove k [] = []
  remove k ((j, w) ∷ m) = let rest = remove k m in if j == k then rest else (j, w) ∷ rest

  pub lookup-put :
      (k j : ℕ) (v : V) (m : Table V)
      → lookup j (put k v m) ≡ (if k == j then some v else lookup j m)
  unfolding lookup put
  lookup-put k j v [] = refl
  lookup-put k j v ((i, w) ∷ m) = ground (arith, lookup-put k j v m)

  pub lookup-remove :
      (k j : ℕ) (m : Table V) → lookup j (remove k m) ≡ (if k == j then none else lookup j m)
  unfolding lookup remove
  lookup-remove k j [] = ground arith
  lookup-remove k j ((i, w) ∷ m) = ground (arith, lookup-remove k j m)

  -- No key stands twice.
  abbrev pub Fresh : ℕ → Table V → Type 0
  Fresh k [] = Unit
  Fresh k ((j, w) ∷ m) = (j ≢ k) × Fresh k m

  abbrev pub IsTable : Table V → Type 0
  IsTable [] = Unit
  IsTable ((j, w) ∷ m) = Fresh j m × IsTable m

  Fresh-put : (k j : ℕ) (v : V) (m : Table V) → k ≢ j → Fresh j m → Fresh j (put k v m)
  unfolding put
  Fresh-put k j v [] n f = (n, tt)
  Fresh-put k j v ((i, w) ∷ m) n f = ground (arith, Fresh-put k j v m)

  pub IsTable-put : (k : ℕ) (v : V) (m : Table V) → IsTable m → IsTable (put k v m)
  unfolding put
  IsTable-put k v [] t = (tt, tt)
  IsTable-put k v ((i, w) ∷ m) t = elim (Bool-cases (i == k)) [
    | inl e ↦ rw e (subst (λ a. Fresh a m) ((==_iff i k).0 e) t.0, t.1)
    | inr e ↦ rw e (Fresh-put k i v m (ground arith) t.0, IsTable-put k v m t.1)
  ]

module _ {ℓ} {V : Type ℓ} where
  Fresh-remove : (k j : ℕ) (m : Table V) → Fresh j m → Fresh j (remove k m)
  unfolding remove
  Fresh-remove k j [] f = f
  Fresh-remove k j ((i, w) ∷ m) f = elim (Bool-cases (i == k)) [
    | inl e ↦ rw e (Fresh-remove k j m f.1)
    | inr e ↦ rw e (f.0, Fresh-remove k j m f.1)
  ]

  pub IsTable-remove : (k : ℕ) (m : Table V) → IsTable m → IsTable (remove k m)
  unfolding remove
  IsTable-remove k [] t = t
  IsTable-remove k ((i, w) ∷ m) t = elim (Bool-cases (i == k)) [
    | inl e ↦ rw e (IsTable-remove k m t.1)
    | inr e ↦ rw e (Fresh-remove k i m t.0, IsTable-remove k m t.1)
  ]

-- A test on some entry, as an iteration over the map makes it.
unfoldable pub some_entry {ℓ} : {V : Type ℓ} → (ℕ → V → Bool) → Table V → Bool
some_entry p [] = false
some_entry p ((j, v) ∷ m) = p j v || some_entry p m

module _ {ℓ} {V : Type ℓ} (p : ℕ → V → Bool) where
  pub Fresh-lookup : (k : ℕ) (m : Table V) → Fresh k m → lookup k m ≡ none
  unfolding lookup
  Fresh-lookup k [] f = refl
  Fresh-lookup k ((j, w) ∷ m) f = ground (arith, Fresh-lookup k m f.1)

  -- The iteration finds an entry that passes the test exactly when some key leads to one.
  pub some_entry-found :
      (m : Table V)
      → IsTable m
      → some_entry p m ≡ true
      → (k : ℕ) × (v : V) × (lookup k m ≡ some v) × (p k v ≡ true)
  unfolding some_entry lookup
  some_entry-found [] t e = absurd (ground arith)
  some_entry-found ((j, w) ∷ m) t e = elim (Bool-cases (p j w)) [
    | inl h ↦ (j, w, ground arith, h)
    | inr h ↦
        let (k, v, l, q) = some_entry-found m t.1 (ground arith) in
        (k, v, ground (arith, Fresh-lookup k m), q)
  ]

  pub some_entry-lookup :
      (m : Table V) (k : ℕ) (v : V) → lookup k m ≡ some v → p k v ≡ true → some_entry p m ≡ true
  unfolding some_entry lookup
  some_entry-lookup [] k v l h = cc
  some_entry-lookup ((j, w) ∷ m) k v l h = elim (Bool-cases (j == k)) [
    | inl e ↦ ground arith
    | inr e ↦ ground (arith, some_entry-lookup m k v (ground arith) h)
  ]
