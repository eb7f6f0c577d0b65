-- ===== src/Auth/Keys/Revoked.antt =====
-- A revoked key of internal/auth/store.go stays revoked.
use cloudpam.Base.{
  ℕ, ◌≡◌, refl, sym, ap, ◌∙◌, subst, arith, inl, inr, Bool-cases, Option-cases, eq_iff, String,
  true, false, some, str_eq,
}
use cloudpam.Base.Dict.{find, find-set, find-delete}
use cloudpam.Auth.Identity.{ApiKey, key_is_valid}
use cloudpam.Auth.Keys.{
  KeyStore, create, rewrite, revoke, revoked_key, update_last_used, used_key, delete_key, get_by_id,
}

-- The operations, with no creation under the id.
pub data Step (id : String) (s : KeyStore) : KeyStore → Type 0 where
  creates : (key : ApiKey) → str_eq key.id id ≡ false → Step id s (create (some key) s).1
  revokes : (j : String) → Step id s (revoke j s).1
  uses : (t : ℕ) (j : String) → Step id s (update_last_used t j s).1
  deletes : (j : String) → Step id s (delete_key j s).1

-- Stores reached from `s`.
pub data After (id : String) (s : KeyStore) : KeyStore → Type 0 where
  now : After id s s
  then_step : (t u : KeyStore) → After id s t → Step id t u → After id s u

-- Under this id there is no key, or a revoked one.
abbrev pub Off : String → KeyStore → Type 0
Off id s = (k : ApiKey) → find s.keys id ≡ some k → k.revoked ≡ true

rewrite-Off :
    (change : ApiKey → ApiKey) (id j : String) (s : KeyStore)
    → ((k : ApiKey) → k.revoked ≡ true → (change k).revoked ≡ true)
    → Off id s
    → Off id (rewrite change j s).1
unfolding rewrite
rewrite-Off change id j s keeps h = elim (Option-cases (find s.keys j)) [
  | inl n ↦ rw (rewrite, n) h
  | inr (key, n) ↦
      rw (rewrite, n)
        (λ k l.
          let at = find-set s.keys j id (change key) in
          elim (Bool-cases (str_eq j id)) [
            | inl f ↦
                let this : change key ≡ k = ground arith in
                subst (λ c. c.revoked ≡ true) this
                  (keeps key (h key (sym (ap (find s.keys) ((eq_iff j id).0 f)) ∙ n)))
            | inr f ↦ h k (ground arith)
          ])
]

create-Off :
    (key : ApiKey) (id : String) (s : KeyStore)
    → str_eq key.id id ≡ false
    → Off id s
    → Off id (create (some key) s).1
unfolding create
create-Off key id s d h = elim (Option-cases (find s.prefix_index key.prefix)) [
  | inr (old, n) ↦ rw (create, n) h
  | inl n ↦ rw (create, n) (λ k l. let at = find-set s.keys key.id id key in h k (ground arith))
]

delete_key-Off : (id j : String) (s : KeyStore) → Off id s → Off id (delete_key j s).1
unfolding delete_key
delete_key-Off id j s h = elim (Option-cases (find s.keys j)) [
  | inl n ↦ rw (delete_key, n) h
  | inr (key, n) ↦
      rw (delete_key, n) (λ k l. let at = find-delete s.keys j id in h k (ground arith))
]

Step-Off : (id : String) (s t : KeyStore) → Step id s t → Off id s → Off id t
unfolding revoke update_last_used
Step-Off id s t (creates key d) h = create-Off key id s d h
Step-Off id s t (revokes j) h = rewrite-Off revoked_key id j s (λ k e. refl) h
Step-Off id s t (uses time j) h = rewrite-Off (used_key time) id j s (λ k e. e) h
Step-Off id s t (deletes j) h = delete_key-Off id j s h

After-Off : (id : String) (s t : KeyStore) → After id s t → Off id s → Off id t
After-Off id s t now h = h
After-Off id s t (then_step u _ a step) h = Step-Off id u t step (After-Off id s u a h)

revoke-Off : (id : String) (s : KeyStore) → Off id (revoke id s).1
unfolding revoke rewrite
revoke-Off id s = elim (Option-cases (find s.keys id)) [
  | inl n ↦ rw (revoke, rewrite, n) (λ k l. absurd (ground arith))
  | inr (key, n) ↦
      rw (revoke, rewrite, n)
        (λ k l.
          let at = find-set s.keys id id (revoked_key key) in
          let same = (eq_iff id id).1 refl in
          let this : revoked_key key ≡ k = ground arith in sym (ap (λ c. c.revoked) this))
]

-- Once `Revoke` has run on an id, whatever operations follow, a key that is found under the id is
-- not valid at any time, as long as no key is created under the id again.
pub key_is_valid-revoke :
    (id : String) (s t : KeyStore) (k : ApiKey) (time : ℕ)
    → After id (revoke id s).1 t
    → get_by_id id t ≡ some k
    → key_is_valid time k ≡ false
key_is_valid-revoke id s t k time a l =
    let off = After-Off id (revoke id s).1 t a (revoke-Off id s) k l in ground arith
