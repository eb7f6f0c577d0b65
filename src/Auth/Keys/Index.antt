-- ===== src/Auth/Keys/Index.antt =====
-- The prefix index of internal/auth/store.go leads to exactly the stored keys, as long as each key
-- is created under an id of its own.
use cloudpam.Base.{
  ℕ, ◌≡◌, ◌↔◌, refl, sym, ap, ◌∙◌, subst, arith, inl, inr, Bool-cases, Option-cases, eq_iff, String,
  some, none, str_eq,
}
use cloudpam.Base.Dict.{find, find-set, find-delete}
use cloudpam.Auth.Identity.{ApiKey}
use cloudpam.Auth.Keys.{
  KeyStore, new_key_store, create, get_by_prefix, rewrite, revoke, revoked_key, update_last_used,
  used_key, delete_key,
}

-- A key is stored at its own id and indexed by its prefix, and the index has nothing else.
pub record IsIndexed (s : KeyStore) : Type 0 where
  pub own_id : (i : String) (k : ApiKey) → find s.keys i ≡ some k → k.id ≡ i
  pub index_of :
      (i : String) (k : ApiKey) → find s.keys i ≡ some k → find s.prefix_index k.prefix ≡ some i
  pub key_of :
      (p i : String)
      → find s.prefix_index p ≡ some i
      → (k : ApiKey) × (find s.keys i ≡ some k) × (k.prefix ≡ p)

create-IsIndexed :
    (key : ApiKey) (s : KeyStore)
    → find s.keys key.id ≡ none
    → IsIndexed s
    → IsIndexed (create (some key) s).1
unfolding create
create-IsIndexed key s n h = elim (Option-cases (find s.prefix_index key.prefix)) [
  | inr (old, m) ↦ rw (create, m) h
  | inl m ↦
      rw (create, m)
        (record {
          own_id = λ i k l.
              let at = find-set s.keys key.id i key in
              elim (Bool-cases (str_eq key.id i)) [
                | inl f ↦
                    let this : key ≡ k = ground arith in
                    sym (ap (λ y. y.id) this) ∙ (eq_iff key.id i).0 f
                | inr f ↦ h.own_id i k (ground arith)
              ];
          index_of = λ i k l.
              let at = find-set s.keys key.id i key in
              let there = find-set s.prefix_index key.prefix k.prefix key.id in
              elim (Bool-cases (str_eq key.id i)) [
                | inl f ↦
                    let this : key ≡ k = ground arith in
                    let same = (eq_iff key.prefix k.prefix).1 (ap (λ y. y.prefix) this) in
                    there ∙ rw same (ap some ((eq_iff key.id i).0 f))
                | inr f ↦
                    let old = h.index_of i k (ground arith) in
                    elim (Bool-cases (str_eq key.prefix k.prefix)) [
                      | inl g ↦
                          absurd (cc (ap (find s.prefix_index) ((eq_iff key.prefix k.prefix).0 g)))
                      | inr g ↦ there ∙ rw g old
                    ]
              ];
          key_of = λ p i l.
              let at = find-set s.keys key.id i key in
              let there = find-set s.prefix_index key.prefix p key.id in
              elim (Bool-cases (str_eq key.prefix p)) [
                | inl g ↦
                    let same : key.id ≡ i = ground arith in
                    (key, at ∙ rw ((eq_iff key.id i).1 same) refl, (eq_iff key.prefix p).0 g)
                | inr g ↦
                    let (k, found, owner) = h.key_of p i (ground arith) in
                    elim (Bool-cases (str_eq key.id i)) [
                      | inl f ↦ absurd (cc (ap (find s.keys) ((eq_iff key.id i).0 f)))
                      | inr f ↦ (k, at ∙ rw f found, owner)
                    ]
              ];
        })
]

-- A write through the stored pointer that leaves the id and the prefix.
rewrite-IsIndexed :
    (change : ApiKey → ApiKey) (id : String) (s : KeyStore)
    → ((k : ApiKey) → (change k).id ≡ k.id)
    → ((k : ApiKey) → (change k).prefix ≡ k.prefix)
    → IsIndexed s
    → IsIndexed (rewrite change id s).1
unfolding rewrite
rewrite-IsIndexed change id s same_id same_prefix h = elim (Option-cases (find s.keys id)) [
  | inl n ↦ rw (rewrite, n) h
  | inr (key, n) ↦
      rw (rewrite, n)
        (record {
          own_id = λ i k l.
              let at = find-set s.keys id i (change key) in
              elim (Bool-cases (str_eq id i)) [
                | inl f ↦
                    let this : change key ≡ k = ground arith in
                    sym (ap (λ y. y.id) this) ∙ same_id key ∙ h.own_id id key n ∙ (eq_iff id i).0 f
                | inr f ↦ h.own_id i k (ground arith)
              ];
          index_of = λ i k l.
              let at = find-set s.keys id i (change key) in
              elim (Bool-cases (str_eq id i)) [
                | inl f ↦
                    let this : change key ≡ k = ground arith in
                    let p : key.prefix ≡ k.prefix =
                      sym (same_prefix key) ∙ ap (λ y. y.prefix) this in
                    subst (λ q. find s.prefix_index q ≡ some i) p
                      (h.index_of i key (sym (ap (find s.keys) ((eq_iff id i).0 f)) ∙ n))
                | inr f ↦ h.index_of i k (ground arith)
              ];
          key_of = λ p i l.
              let at = find-set s.keys id i (change key) in
              let (k, found, owner) = h.key_of p i l in
              elim (Bool-cases (str_eq id i)) [
                | inl f ↦
                    let this : key ≡ k = cc (ap (find s.keys) ((eq_iff id i).0 f)) in
                    (change key, at ∙ rw f refl, same_prefix key ∙ ap (λ y. y.prefix) this ∙ owner)
                | inr f ↦ (k, at ∙ rw f found, owner)
              ];
        })
]

delete_key-IsIndexed : (id : String) (s : KeyStore) → IsIndexed s → IsIndexed (delete_key id s).1
unfolding delete_key
delete_key-IsIndexed id s h = elim (Option-cases (find s.keys id)) [
  | inl n ↦ rw (delete_key, n) h
  | inr (old, n) ↦
      rw (delete_key, n)
        (record {
          own_id = λ i k l. let at = find-delete s.keys id i in h.own_id i k (ground arith);
          index_of = λ i k l.
              let at = find-delete s.keys id i in
              let there = find-delete s.prefix_index old.prefix k.prefix in
              let was = h.index_of i k (ground arith) in
              elim (Bool-cases (str_eq old.prefix k.prefix)) [
                | inl o ↦
                    let mine = h.index_of id old n in
                    let same : id ≡ i =
                      cc (ap (find s.prefix_index) ((eq_iff old.prefix k.prefix).0 o)) in
                    let hit = (eq_iff id i).1 same in absurd (ground arith)
                | inr o ↦ there ∙ rw o was
              ];
          key_of = λ p i l.
              let at = find-delete s.keys id i in
              let there = find-delete s.prefix_index old.prefix p in
              elim (Bool-cases (str_eq old.prefix p)) [
                | inl o ↦ absurd (ground arith)
                | inr o ↦
                    let (k, found, owner) = h.key_of p i (ground arith) in
                    elim (Bool-cases (str_eq id i)) [
                      | inl f ↦
                          let this : old ≡ k = cc (ap (find s.keys) ((eq_iff id i).0 f)) in
                          absurd (cc ((eq_iff old.prefix p).1 (ap (λ y. y.prefix) this ∙ owner)))
                      | inr f ↦ (k, at ∙ rw f found, owner)
                    ]
              ];
        })
]

-- A key is created under an id that no key has.
pub data Step (s : KeyStore) : KeyStore → Type 0 where
  creates : (key : ApiKey) → find s.keys key.id ≡ none → Step s (create (some key) s).1
  revokes : (id : String) → Step s (revoke id s).1
  uses : (t : ℕ) (id : String) → Step s (update_last_used t id s).1
  deletes : (id : String) → Step s (delete_key id s).1

pub data Reachable : KeyStore → Type 0 where
  start : Reachable new_key_store
  then_step : (s t : KeyStore) → Reachable s → Step s t → Reachable t

new_key_store-IsIndexed : IsIndexed new_key_store
unfolding find
new_key_store-IsIndexed = record {
  own_id = λ i k l. absurd (ground arith);
  index_of = λ i k l. absurd (ground arith);
  key_of = λ p i l. absurd (ground arith);
}

Step-IsIndexed : (s t : KeyStore) → Step s t → IsIndexed s → IsIndexed t
unfolding revoke update_last_used
Step-IsIndexed s t (creates key n) h = create-IsIndexed key s n h
Step-IsIndexed s t (revokes id) h = rewrite-IsIndexed revoked_key id s (λ k. refl) (λ k. refl) h
Step-IsIndexed s t (uses now id) h = rewrite-IsIndexed (used_key now) id s (λ k. refl) (λ k. refl) h
Step-IsIndexed s t (deletes id) h = delete_key-IsIndexed id s h

Reachable-IsIndexed : (s : KeyStore) → Reachable s → IsIndexed s
Reachable-IsIndexed s start = new_key_store-IsIndexed
Reachable-IsIndexed s (then_step before _ r t) =
    Step-IsIndexed before s t (Reachable-IsIndexed before r)

-- A stored key with this prefix.
abbrev pub HasPrefix : String → KeyStore → ApiKey → Type 0
HasPrefix p s k = (i : String) × (find s.keys i ≡ some k) × (k.prefix ≡ p)

-- In every store that is reached from the empty one, where each key is created under an id that no
-- key has, `GetByPrefix` finds exactly the stored key with the prefix.
pub get_by_prefix_iff :
    (s : KeyStore) (p : String) (k : ApiKey)
    → Reachable s
    → (get_by_prefix p s ≡ some k) ↔ HasPrefix p s k
unfolding get_by_prefix
get_by_prefix_iff s p k r =
    let h = Reachable-IsIndexed s r in
    (
      λ e. elim (Option-cases (find s.prefix_index p)) [
        | inl n ↦ absurd (ground arith)
        | inr (i, n) ↦
            let (j, found, owner) = h.key_of p i n in
            let this : j ≡ k = ground arith in
            (i, found ∙ ap some this, sym (ap (λ y. y.prefix) this) ∙ owner)
      ],
      λ (i, found, owner).
          let n = subst (λ q. find s.prefix_index q ≡ some i) owner (h.index_of i k found) in
          rw (get_by_prefix, n) found,
    )
