-- ===== src/Base/Dict.antt =====
-- Maps from texts as association lists.
use Prim.Native.String.{String}
use mathlib.Core.Path.{◌≡◌, refl, sym, ap, ◌∙◌}
use mathlib.Core.Logic.{inl, inr}
use mathlib.Core.Bool.{Bool, false}
use mathlib.Core.Option.{Option, none, some}
use mathlib.Core.List.{List, [], ◌∷◌}
use native.Mathlib.Omega.{arith}
use text.Mathlib.Text.{◌==◌ as str_eq}
use text.Mathlib.TextEquality.{eq_iff}
use cloudpam.Base.Lists.{All}
use cloudpam.Base.Tests.{Bool-cases, if◌then◌else◌}

abbrev pub Dict {ℓ} : Type ℓ → Type ℓ
Dict V = List (String × V)

module _ {ℓ} {V : Type ℓ} where
  unfoldable pub find : Dict V → String → Option V
  find [] k = none
  find ((j, v) ∷ d) k = if str_eq j k then some v else find d k

  unfoldable pub set : Dict V → String → V → Dict V
  set [] k v = (k, v) ∷ []
  set ((j, w) ∷ d) k v = if str_eq j k then (j, v) ∷ d else (j, w) ∷ set d k v

  unfoldable pub delete : Dict V → String → Dict V
  delete [] k = []
  delete ((j, w) ∷ d) k = let rest = delete d k in if str_eq j k then rest else (j, w) ∷ rest

  pub find-set :
      (d : Dict V) (k j : String) (v : V)
      → find (set d k v) j ≡ (if str_eq k j then some v else find d j)
  unfolding find set
  find-set [] k j v = refl
  find-set ((i, w) ∷ d) k j v = ground (arith, find-set d k j v, eq_iff i k, eq_iff i j, eq_iff k j)

  pub find-delete :
      (d : Dict V) (k j : String) → find (delete d k) j ≡ (if str_eq k j then none else find d j)
  unfolding find delete
  find-delete [] k j = ground arith
  find-delete ((i, w) ∷ d) k j =
      ground (arith, find-delete d k j, eq_iff i k, eq_iff i j, eq_iff k j)

-- A deletion of the entries that pass a test, as an iteration over the map makes it.
unfoldable pub drop_where {ℓ} : {V : Type ℓ} → (V → Bool) → Dict V → Dict V
drop_where p [] = []
drop_where p ((j, v) ∷ d) = let rest = drop_where p d in if p v then rest else (j, v) ∷ rest

abbrev pub kept {ℓ} : {V : Type ℓ} → (V → Bool) → Option V → Option V
kept p none = none
kept p (some v) = if p v then none else some v

module _ {ℓ} {V : Type ℓ} where
  -- No key stands twice.
  abbrev pub Absent : String → Dict V → Type 0
  Absent k [] = Unit
  Absent k ((j, w) ∷ d) = (str_eq j k ≡ false) × Absent k d

  abbrev pub IsDict : Dict V → Type 0
  IsDict [] = Unit
  IsDict ((j, w) ∷ d) = Absent j d × IsDict d

  Absent-set :
      (k j : String) (v : V) (d : Dict V) → str_eq k j ≡ false → Absent j d → Absent j (set d k v)
  unfolding set
  Absent-set k j v [] n f = (n, tt)
  Absent-set k j v ((i, w) ∷ d) n f = elim (Bool-cases (str_eq i k)) [
    | inl e ↦ rw e f
    | inr e ↦ rw e (f.0, Absent-set k j v d n f.1)
  ]

  pub IsDict-set : (k : String) (v : V) (d : Dict V) → IsDict d → IsDict (set d k v)
  unfolding set
  IsDict-set k v [] t = (tt, tt)
  IsDict-set k v ((i, w) ∷ d) t = elim (Bool-cases (str_eq i k)) [
    | inl e ↦ rw e t
    | inr e ↦
        let other : str_eq k i ≡ false = ground (arith, eq_iff i k, eq_iff k i) in
        rw e (Absent-set k i v d other t.0, IsDict-set k v d t.1)
  ]

  Absent-drop_where :
      (p : V → Bool) (k : String) (d : Dict V) → Absent k d → Absent k (drop_where p d)
  unfolding drop_where
  Absent-drop_where p k [] f = f
  Absent-drop_where p k ((i, w) ∷ d) f = elim (Bool-cases (p w)) [
    | inl e ↦ rw e (Absent-drop_where p k d f.1)
    | inr e ↦ rw e (f.0, Absent-drop_where p k d f.1)
  ]

  pub IsDict-drop_where : (p : V → Bool) (d : Dict V) → IsDict d → IsDict (drop_where p d)
  unfolding drop_where
  IsDict-drop_where p [] t = t
  IsDict-drop_where p ((i, w) ∷ d) t = elim (Bool-cases (p w)) [
    | inl e ↦ rw e (IsDict-drop_where p d t.1)
    | inr e ↦ rw e (Absent-drop_where p i d t.0, IsDict-drop_where p d t.1)
  ]

  Absent-find : (k : String) (d : Dict V) → Absent k d → find d k ≡ none
  unfolding find
  Absent-find k [] f = refl
  Absent-find k ((i, w) ∷ d) f = rw (f.0) (Absent-find k d f.1)

  pub find-drop_where :
      (p : V → Bool) (k : String) (d : Dict V)
      → IsDict d
      → find (drop_where p d) k ≡ kept p (find d k)
  unfolding find drop_where
  find-drop_where p k [] t = refl
  find-drop_where p k ((i, w) ∷ d) t = elim (Bool-cases (str_eq i k)) [
    | inl e ↦
        let rest =
          find-drop_where p k d t.1
          ∙ ap (kept p) (ap (find d) (sym ((eq_iff i k).0 e)) ∙ Absent-find i d t.0) in
        elim (Bool-cases (p w)) [ inl h ↦ rw (e, h) rest | inr h ↦ rw (e, h, e) refl ]
    | inr e ↦ elim (Bool-cases (p w)) [
      | inl h ↦ rw (h, e) (find-drop_where p k d t.1)
      | inr h ↦ rw (h, e) (find-drop_where p k d t.1)
    ]
  ]

module _ {ℓ} {V : Type ℓ} where
  Absent-delete : (k j : String) (d : Dict V) → Absent j d → Absent j (delete d k)
  unfolding delete
  Absent-delete k j [] f = f
  Absent-delete k j ((i, w) ∷ d) f = elim (Bool-cases (str_eq i k)) [
    | inl e ↦ rw e (Absent-delete k j d f.1)
    | inr e ↦ rw e (f.0, Absent-delete k j d f.1)
  ]

  pub IsDict-delete : (k : String) (d : Dict V) → IsDict d → IsDict (delete d k)
  unfolding delete
  IsDict-delete k [] t = t
  IsDict-delete k ((i, w) ∷ d) t = elim (Bool-cases (str_eq i k)) [
    | inl e ↦ rw e (IsDict-delete k d t.1)
    | inr e ↦ rw e (Absent-delete k i d t.0, IsDict-delete k d t.1)
  ]

  skip-find :
      (k : String) (v : V) (d e : Dict V)
      → Absent k e
      → All (λ (x : String × V). find d x.0 ≡ some x.1) e
      → All (λ (x : String × V). find ((k, v) ∷ d) x.0 ≡ some x.1) e
  unfolding find
  skip-find k v d [] a f = tt
  skip-find k v d ((i, w) ∷ e) a (f, rest) =
      let other : str_eq k i ≡ false = ground (arith, eq_iff i k, eq_iff k i) in
      (rw other f, skip-find k v d e a.1 rest)

  -- Where no key stands twice, each entry is found at its key.
  pub IsDict-find : (d : Dict V) → IsDict d → All (λ (x : String × V). find d x.0 ≡ some x.1) d
  unfolding find
  IsDict-find [] t = tt
  IsDict-find ((i, w) ∷ d) t =
      (rw ((eq_iff i i).1 refl) refl, skip-find i w d d t.0 (IsDict-find d t.1))
