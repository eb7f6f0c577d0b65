-- ===== src/Auth/Sessions/Steps.antt =====
-- Every operation of internal/auth/session.go keeps the index of the sessions exact.
use cloudpam.Base.{
  ℕ, ◌≡◌, refl, sym, ap, ◌∙◌, subst, arith, inl, inr, Bool-cases, Option-cases, eq_iff, String,
  false, ◌||◌, ◌↔◌, Option, some, none, [], ◌∷◌, All, str_eq, ltb, if◌then◌else◌,
}
use cloudpam.Base.Dict.{
  Dict, find, delete, find-delete, IsDict, Absent, IsDict-set, IsDict-delete, IsDict-find,
}
use cloudpam.Auth.Identity.{Session}
use cloudpam.Auth.Sessions.{
  SessionStore, Ids, index_remove, create, delete_session, delete_ids, delete_by_user, sweep,
  cleanup, new_session_store,
}
use cloudpam.Auth.Sessions.Index.{
  indexed, indexed-none, removed-IsIndexed, IsIndexed, create-IsIndexed, delete_session-IsIndexed,
}
use cloudpam.Auth.Sessions.Logout.{delete_by_user-kept, kept}

-- The index without one user
indexed-delete :
    (index : Dict Ids) (user u i : String)
    → indexed (delete index user) u i ≡ (if str_eq user u then none else indexed index u i)
unfolding indexed find
indexed-delete index user u i =
    let gone = find-delete index user u in
    elim (Bool-cases (str_eq user u)) [
      | inl e ↦ rw (indexed, gone, e) refl
      | inr e ↦ rw (indexed, gone, e) refl
    ]

delete_by_user-index :
    (user u i : String) (s : SessionStore)
    → str_eq user "" ≡ false
    → indexed (delete_by_user user s).user_index u i
      ≡ (if str_eq user u then none else indexed s.user_index u i)
unfolding delete_by_user
delete_by_user-index user u i s named = elim (Option-cases (find s.user_index user)) [
  | inl n ↦
      rw (delete_by_user, named, n)
        (elim (Bool-cases (str_eq user u)) [
          | inl e ↦ rw e (
              indexed-none s.user_index u i
                (ap (find s.user_index) (sym ((eq_iff user u).0 e)) ∙ n))
          | inr e ↦ rw e refl
        ])
  | inr (ids, n) ↦ rw (delete_by_user, named, n) (indexed-delete s.user_index user u i)
]

-- The sessions that are left are others'.
kept-some :
    (user : String) (o : Option Session) (x : Session)
    → kept user o ≡ some x
    → (o ≡ some x) × (str_eq x.user_id user ≡ false)
kept-some user none x e = absurd (cc)
kept-some user (some y) x e = elim (Bool-cases (str_eq y.user_id user)) [
  | inl h ↦ absurd (ground arith)
  | inr h ↦
      let same : y ≡ x = ground arith in
      (ap some same, ap (λ z. str_eq z.user_id user) (sym same) ∙ h)
]

delete_by_user-IsIndexed :
    (user : String) (s : SessionStore) → IsIndexed s → IsIndexed (delete_by_user user s)
unfolding delete_by_user
delete_by_user-IsIndexed user s h = elim (Bool-cases (str_eq user "")) [
  | inl e ↦ rw (delete_by_user, e) h
  | inr e ↦ record {
    own_id = λ i x l.
        let (was, other) =
          kept-some user (find s.sessions i) x (sym (delete_by_user-kept user s e h i) ∙ l) in
        h.own_id i x was;
    index_of = λ i x l.
        let (was, other) =
          kept-some user (find s.sessions i) x (sym (delete_by_user-kept user s e h i) ∙ l) in
        let there = delete_by_user-index user x.user_id i s e in
        let on = h.index_of i x was in ground (arith, eq_iff user x.user_id, eq_iff x.user_id user);
    session_of = λ u i l.
        let there = delete_by_user-index user u i s e in
        elim (Bool-cases (str_eq user u)) [
          | inl f ↦ absurd (ground arith)
          | inr f ↦
              let (x, found, owner) = h.session_of u i (sym (there ∙ rw f refl) ∙ l) in
              let other : str_eq x.user_id user ≡ false =
                ground (arith, eq_iff x.user_id user, eq_iff user u) in
              (x, delete_by_user-kept user s e h i ∙ rw (found, other) refl, owner)
        ];
  }
]

-- Each entry of the list is still stored.
abbrev pub Stored : Dict Session → SessionStore → Type 0
Stored rest s = All (λ (e : String × Session). find s.sessions e.0 ≡ some e.1) rest

delete-Stored :
    (id : String) (rest : Dict Session) (s : SessionStore) (index : Dict Ids)
    → Absent id rest
    → Stored rest s
    → Stored rest (record { sessions = delete s.sessions id; user_index = index })
delete-Stored id [] s index a st = tt
delete-Stored id ((i, x) ∷ rest) s index a (l, st) =
    let at = find-delete s.sessions id i in
    let other : str_eq id i ≡ false = ground (arith, eq_iff i id, eq_iff id i) in
    (at ∙ rw other l, delete-Stored id rest s index a.1 st)

-- The store and its index, and no id twice
pub record IsSound (s : SessionStore) : Type 0 where
  pub dict : IsDict s.sessions
  pub index : IsIndexed s

sweep-IsSound :
    (now : ℕ) (rest : Dict Session) (s : SessionStore)
    → IsDict rest
    → Stored rest s
    → IsSound s
    → IsSound (sweep now rest s).0
unfolding sweep
sweep-IsSound now [] s d st h = h
sweep-IsSound now ((id, x) ∷ rest) s d st h = elim (Bool-cases (ltb x.expires_at now)) [
  | inr e ↦ rw e (sweep-IsSound now rest s d.1 st.1 h)
  | inl e ↦ rw e (
      sweep-IsSound now rest _ d.1
        (delete-Stored id rest s (index_remove x.user_id id s.user_index) d.0 st.1)
        (record {
          dict = IsDict-delete id s.sessions h.dict;
          index = removed-IsIndexed id x s st.0 h.index;
        }))
]

delete_ids-IsDict :
    (ids : Ids) (sessions : Dict Session) → IsDict sessions → IsDict (delete_ids ids sessions)
unfolding delete_ids
delete_ids-IsDict [] sessions d = d
delete_ids-IsDict ((id, u) ∷ ids) sessions d =
    delete_ids-IsDict ids (delete sessions id) (IsDict-delete id sessions d)

delete_by_user-IsDict :
    (user : String) (s : SessionStore) → IsDict s.sessions → IsDict (delete_by_user user s).sessions
unfolding delete_by_user
delete_by_user-IsDict user s d = elim (Bool-cases (str_eq user "")) [
  | inl e ↦ rw (delete_by_user, e) d
  | inr e ↦ elim (Option-cases (find s.user_index user)) [
    | inl n ↦ rw (delete_by_user, e, n) d
    | inr (ids, n) ↦ rw (delete_by_user, e, n) (delete_ids-IsDict ids s.sessions d)
  ]
]

create-IsDict :
    (session : Option Session) (s : SessionStore)
    → IsDict s.sessions
    → IsDict (create session s).1.sessions
unfolding create
create-IsDict none s d = d
create-IsDict (some x) s d = elim (Bool-cases (str_eq x.id "" || str_eq x.user_id "")) [
  | inl e ↦ rw (create, e) d
  | inr e ↦ elim (Option-cases (find s.sessions x.id)) [
    | inr (old, n) ↦ rw (create, e, n) d
    | inl n ↦ rw (create, e, n) (IsDict-set x.id x s.sessions d)
  ]
]

delete_session-IsDict :
    (id : String) (s : SessionStore) → IsDict s.sessions → IsDict (delete_session id s).1.sessions
unfolding delete_session
delete_session-IsDict id s d = elim (Bool-cases (str_eq id "")) [
  | inl e ↦ rw (delete_session, e) d
  | inr e ↦ elim (Option-cases (find s.sessions id)) [
    | inl n ↦ rw (delete_session, e, n) d
    | inr (x, n) ↦ rw (delete_session, e, n) (IsDict-delete id s.sessions d)
  ]
]

pub data Step (s : SessionStore) : SessionStore → Type 0 where
  creates : (session : Option Session) → Step s (create session s).1
  deletes : (id : String) → Step s (delete_session id s).1
  logs_out : (user : String) → Step s (delete_by_user user s)
  cleans : (now : ℕ) → Step s (cleanup now s).0

pub data Reachable : SessionStore → Type 0 where
  start : Reachable new_session_store
  then_step : (s t : SessionStore) → Reachable s → Step s t → Reachable t

Step-IsSound : (s t : SessionStore) → Step s t → IsSound s → IsSound t
unfolding cleanup
Step-IsSound s t (creates x) h = record {
  dict = create-IsDict x s h.dict;
  index = create-IsIndexed x s h.index;
}
Step-IsSound s t (deletes id) h = record {
  dict = delete_session-IsDict id s h.dict;
  index = delete_session-IsIndexed id s h.index;
}
Step-IsSound s t (logs_out user) h = record {
  dict = delete_by_user-IsDict user s h.dict;
  index = delete_by_user-IsIndexed user s h.index;
}
Step-IsSound s t (cleans now) h =
    sweep-IsSound now s.sessions s h.dict (IsDict-find s.sessions h.dict) h

new-IsSound : IsSound new_session_store
unfolding find indexed
new-IsSound = record {
  dict = tt;
  index = record {
    own_id = λ i x l. absurd (ground arith);
    index_of = λ i x l. absurd (ground arith);
    session_of = λ u i l. absurd (ground arith);
  };
}

Reachable-IsSound : (s : SessionStore) → Reachable s → IsSound s
Reachable-IsSound s start = new-IsSound
Reachable-IsSound s (then_step before _ r t) = Step-IsSound before s t (Reachable-IsSound before r)

-- In every store that creations, deletions, logouts and cleanups reach from the empty one, the index
-- has an id under a user exactly when a session of that user is stored at the id.
pub indexed_iff :
    (s : SessionStore) (u i : String)
    → Reachable s
    → (indexed s.user_index u i ≡ some tt)
      ↔ ((x : Session) × (find s.sessions i ≡ some x) × (x.user_id ≡ u))
indexed_iff s u i r =
    let h = (Reachable-IsSound s r).index in
    (
      λ e. h.session_of u i e,
      λ (x, found, owner).
          subst (λ o. indexed s.user_index o i ≡ some tt) owner (h.index_of i x found),
    )
