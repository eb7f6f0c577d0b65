-- ===== src/Storage/Memory/Cascade/Closure.antt =====
-- The collected set: it is found, and it holds exactly the descendants of the seeds.
use cloudpam.Base.{
  ℕ, zero, suc, ◌+◌, ◌≤◌, ◌<◌, ◌≡◌, ◌↔◌, inl, inr, refl, arith, true, false, Bool-cases,
  Option-cases, sym, subst, ==_iff, none, some, List, [], ◌∷◌, length, ◌==◌, if◌then◌else◌,
}
use cloudpam.Base.Table.{Table, lookup, IsTable, Fresh}
use cloudpam.Domain.{Pool}
use cloudpam.Storage.Memory.Cascade.{mem, is_new, grow, close, rounds}

-- Each entry of the first table is what the second has for its key.
Listed : Table Pool → Table Pool → Type 0
Listed [] m = Unit
Listed ((k, v) ∷ t) m = (lookup k m ≡ some v) × Listed t m

Listed-cons : (k : ℕ) (v : Pool) (t m : Table Pool) → Fresh k t → Listed t m → Listed t ((k, v) ∷ m)
unfolding Listed lookup
Listed-cons k v [] m f l = tt
Listed-cons k v ((j, w) ∷ t) m f l = (ground arith, Listed-cons k v t m f.1 l.1)

Listed-refl : (t : Table Pool) → IsTable t → Listed t t
unfolding Listed lookup
Listed-refl [] h = tt
Listed-refl ((k, v) ∷ t) h = (ground arith, Listed-cons k v t t h.0 (Listed-refl t h.1))

-- `j` is a seed, or a live pool whose parent is a descendant.
pub data Descends (pools : Table Pool) (seeds : List ℕ) : ℕ → Type 0 where
  seed : {j : ℕ} → mem j seeds ≡ true → Descends pools seeds j
  child :
      {j : ℕ} (k : ℕ) (p : Pool)
      → lookup j pools ≡ some p
      → p.deleted_at ≡ none
      → p.parent_id ≡ some k
      → Descends pools seeds k
      → Descends pools seeds j

-- The entries of a table that are not in the set.
outside : Table Pool → List ℕ → ℕ
outside [] s = 0
outside ((pid, p) ∷ rest) s = (if mem pid s then 0 else 1) + outside rest s

outside-le-length : (t : Table Pool) (s : List ℕ) → outside t s ≤ length t
unfolding outside
outside-le-length [] s = omega arith
outside-le-length ((pid, p) ∷ rest) s = ground (arith, outside-le-length rest s)

-- A larger set has fewer entries outside.
Grows : List ℕ → List ℕ → Type 0
Grows s s' = (j : ℕ) → mem j s ≡ true → mem j s' ≡ true

outside_mono : (t : Table Pool) (s s' : List ℕ) → Grows s s' → outside t s' ≤ outside t s
unfolding outside Grows
outside_mono [] s s' g = omega arith
outside_mono ((pid, p) ∷ rest) s s' g = ground (arith, outside_mono rest s s' g, g pid)

grow-Grows : (t : Table Pool) (s : List ℕ) → Grows s (grow t s).0
unfolding Grows grow
grow-Grows [] s j h = h
grow-Grows ((pid, p) ∷ rest) s j h = elim (Bool-cases (is_new s pid p)) [
  | inl e ↦ rw e (grow-Grows rest (pid ∷ s) j (ground arith))
  | inr e ↦ rw e (grow-Grows rest s j h)
]

-- A round that progresses leaves fewer entries outside.
grow-progress :
    (t : Table Pool) (s : List ℕ) → (grow t s).1 ≡ true → outside t (grow t s).0 < outside t s
unfolding grow outside Grows
grow-progress [] s h = cc
grow-progress ((pid, p) ∷ rest) s h = elim (Bool-cases (is_new s pid p)) [
  | inl e ↦ rw e (
      let found = grow-Grows rest (pid ∷ s) pid (ground arith) in
      let fewer =
        outside_mono rest s (grow rest (pid ∷ s)).0
          (λ j m. grow-Grows rest (pid ∷ s) j (ground arith)) in
      ground arith)
  | inr e ↦
      let less = grow-progress rest s (ground arith) in
      let kept = grow-Grows rest s pid in rw e (ground arith)
]

close-some :
    (fuel : ℕ) (t : Table Pool) (s : List ℕ)
    → outside t s < fuel
    → (s' : List ℕ) × (close fuel t s ≡ some s')
unfolding close
close-some zero t s h = absurd (omega arith)
close-some (suc fuel) t s h = elim (Bool-cases (grow t s).1) [
  | inl e ↦ rw e (close-some fuel t (grow t s).0 (omega (arith, grow-progress t s e)))
  | inr e ↦ ((grow t s).0, rw e)
]

-- The entry that a round adds is a descendant.
added-Descends :
    (pools : Table Pool) (seeds s : List ℕ) (pid : ℕ) (p : Pool)
    → lookup pid pools ≡ some p
    → is_new s pid p ≡ true
    → ((j : ℕ) → mem j s ≡ true → Descends pools seeds j)
    → (j : ℕ) → mem j (pid ∷ s) ≡ true
    → Descends pools seeds j
unfolding mem
added-Descends pools seeds s pid p l e d j m = elim (Bool-cases (j == pid)) [
  | inr q ↦ d j (ground arith)
  | inl q ↦ elim (Option-cases p.parent_id) [
    | inl n ↦ absurd (ground arith)
    | inr (k, n) ↦
        subst (Descends pools seeds) (sym ((==_iff j pid).0 q))
          (child k p l (ground arith) n (d k (ground arith)))
  ]
]

-- A round adds only descendants.
grow-Descends :
    (pools t : Table Pool) (seeds s : List ℕ)
    → Listed t pools
    → ((j : ℕ) → mem j s ≡ true → Descends pools seeds j)
    → (j : ℕ) → mem j (grow t s).0 ≡ true
    → Descends pools seeds j
unfolding grow Listed
grow-Descends pools [] seeds s l d j m = d j m
grow-Descends pools ((pid, p) ∷ rest) seeds s l d j m = elim (Bool-cases (is_new s pid p)) [
  | inl e ↦
      grow-Descends pools rest seeds (pid ∷ s) l.1 (added-Descends pools seeds s pid p l.0 e d) j
        (ground arith)
  | inr e ↦ grow-Descends pools rest seeds s l.1 d j (ground arith)
]

-- A round that does not progress leaves the set, and has seen nothing to add.
grow-stable : (t : Table Pool) (s : List ℕ) → (grow t s).1 ≡ false → (grow t s).0 ≡ s
unfolding grow
grow-stable [] s h = refl
grow-stable ((pid, p) ∷ rest) s h = elim (Bool-cases (is_new s pid p)) [
  | inl e ↦ absurd (ground arith)
  | inr e ↦ rw e (grow-stable rest s (ground arith))
]

grow-seen :
    (t : Table Pool) (s : List ℕ) (k : ℕ) (p : Pool)
    → (grow t s).1 ≡ false
    → lookup k t ≡ some p
    → is_new s k p ≡ false
unfolding grow lookup
grow-seen [] s k p h l = cc
grow-seen ((pid, q) ∷ rest) s k p h l = elim (Bool-cases (is_new s pid q)) [
  | inl e ↦ absurd (ground arith)
  | inr e ↦ elim (Bool-cases (pid == k)) [
    | inl i ↦
        let same_id : pid ≡ k = (==_iff pid k).0 i in
        let same_pool : some q ≡ some p = ground arith in cc
    | inr i ↦ grow-seen rest s k p (ground arith) (ground arith)
  ]
]

-- What the rounds end with.
record IsClosed (pools : Table Pool) (seeds s : List ℕ) : Type 0 where
  keeps : Grows seeds s
  sound : (j : ℕ) → mem j s ≡ true → Descends pools seeds j
  seen : (k : ℕ) (p : Pool) → lookup k pools ≡ some p → is_new s k p ≡ false

close-IsClosed :
    (fuel : ℕ) (pools : Table Pool) (seeds s s' : List ℕ)
    → IsTable pools
    → Grows seeds s
    → ((j : ℕ) → mem j s ≡ true → Descends pools seeds j)
    → close fuel pools s ≡ some s'
    → IsClosed pools seeds s'
unfolding close Grows
close-IsClosed zero pools seeds s s' t g d h = cc
close-IsClosed (suc fuel) pools seeds s s' t g d h = elim (Bool-cases (grow pools s).1) [
  | inl e ↦
      close-IsClosed fuel pools seeds (grow pools s).0 s' t (λ j m. grow-Grows pools s j (g j m))
        (grow-Descends pools pools seeds s (Listed-refl pools t) d) (ground arith)
  | inr e ↦
      let same : s ≡ s' = cc (grow-stable pools s e) in
      subst (IsClosed pools seeds) same
        (record { keeps = g; sound = d; seen = λ k p l. grow-seen pools s k p e l })
]

IsClosed-complete :
    (pools : Table Pool) (seeds s : List ℕ) (j : ℕ)
    → IsClosed pools seeds s
    → Descends pools seeds j
    → mem j s ≡ true
unfolding Grows
IsClosed-complete pools seeds s j c (seed m) = c.keeps j m
IsClosed-complete pools seeds s j c (child k p l live up d) =
    let found = IsClosed-complete pools seeds s k c d in let test = c.seen j p l in ground arith

-- Over a table, the collection ends, and it holds exactly the descendants of the seeds.
pub close-Descends :
    (pools : Table Pool) (seeds : List ℕ)
    → IsTable pools
    → (s : List ℕ) × (close (rounds pools) pools seeds ≡ some s)
      × ((j : ℕ) → (mem j s ≡ true) ↔ Descends pools seeds j)
unfolding Grows
close-Descends pools seeds t =
    let (s, e) =
      close-some (rounds pools) pools seeds (omega (arith, outside-le-length pools seeds)) in
    let c = close-IsClosed (rounds pools) pools seeds seeds s t (λ j m. m) (λ j m. seed m) e in
    (s, e, λ j. (c.sound j, IsClosed-complete pools seeds s j c))
