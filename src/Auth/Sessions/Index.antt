-- ===== src/Auth/Sessions/Index.antt =====
-- The index of internal/auth/session.go leads to exactly the sessions that are stored.
use cloudpam.Base.{
  ◌≡◌, refl, sym, ap, ◌∙◌, arith, inl, inr, Bool-cases, Option-cases, eq_iff, String, true, ◌&&◌,
  ◌||◌, Option, some, none, [], ◌∷◌, str_eq, if◌then◌else◌,
}
use cloudpam.Base.Dict.{Dict, find, set, delete, find-set, find-delete}
use cloudpam.Auth.Identity.{Session}
use cloudpam.Auth.Sessions.{
  SessionStore, Ids, or_new, index_add, keep_ids, index_remove, create, delete_session,
}

-- The index has the id under the user.
unfoldable pub indexed : Dict Ids → String → String → Option (Unit {0})
indexed index user id = find (or_new (find index user)) id

indexed-index_add :
    (index : Dict Ids) (user id u i : String)
    → indexed (index_add user id index) u i
      ≡ (if str_eq user u && str_eq id i then some tt else indexed index u i)
unfolding indexed
indexed-index_add index user id u i =
    let outer = find-set index user u (set (or_new (find index user)) id tt) in
    let inner = find-set (or_new (find index user)) id i tt in
    elim (Bool-cases (str_eq user u)) [
      | inl e ↦ let same = (eq_iff user u).0 e in rw (indexed, outer, e, ← same) inner
      | inr e ↦ rw (indexed, outer, e) refl
    ]

or_new-keep_ids :
    (user u i : String) (ids : Ids) (index : Dict Ids)
    → indexed (keep_ids user ids index) u i
      ≡ (if str_eq user u then find ids i else indexed index u i)
unfolding indexed find
or_new-keep_ids user u i [] index =
    let gone = find-delete index user u in
    elim (Bool-cases (str_eq user u)) [
      | inl e ↦ rw (indexed, gone, e) refl
      | inr e ↦ rw (indexed, gone, e) refl
    ]
or_new-keep_ids user u i (k ∷ ids) index =
    let outer = find-set index user u (k ∷ ids) in
    elim (Bool-cases (str_eq user u)) [
      | inl e ↦ rw (indexed, outer, e) refl
      | inr e ↦ rw (indexed, outer, e) refl
    ]

pub indexed-none :
    (index : Dict Ids) (u i : String) → find index u ≡ none → indexed index u i ≡ none
unfolding indexed find
indexed-none index u i n = rw (indexed, n) refl

pub indexed-some :
    (index : Dict Ids) (u i : String) (ids : Ids)
    → find index u ≡ some ids
    → indexed index u i ≡ find ids i
unfolding indexed
indexed-some index u i ids n = rw (indexed, n) refl

pub indexed-index_remove :
    (index : Dict Ids) (user id u i : String)
    → indexed (index_remove user id index) u i
      ≡ (if str_eq user u && str_eq id i then none else indexed index u i)
unfolding index_remove
indexed-index_remove index user id u i =
    let at = λ (h : str_eq user u ≡ true). ap (find index) (sym ((eq_iff user u).0 h)) in
    elim (Option-cases (find index user)) [
      | inl n ↦
          rw (index_remove, n)
            (elim (Bool-cases (str_eq user u)) [
              | inl e ↦ let off = indexed-none index u i (at e ∙ n) in ground (arith, off)
              | inr e ↦ ground arith
            ])
      | inr (ids, n) ↦
          rw (index_remove, n)
            (let after = or_new-keep_ids user u i (delete ids id) index in
              let less = find-delete ids id i in
              elim (Bool-cases (str_eq user u)) [
                | inl e ↦
                    let on = indexed-some index u i ids (at e ∙ n) in
                    ground (arith, after, less, on)
                | inr e ↦ ground (arith, after)
              ])
    ]

-- Each user's ids are those of the stored sessions of the user, and each session is stored at its
-- own id.
pub record IsIndexed (s : SessionStore) : Type 0 where
  pub own_id : (i : String) (x : Session) → find s.sessions i ≡ some x → x.id ≡ i
  pub index_of :
      (i : String) (x : Session)
      → find s.sessions i ≡ some x
      → indexed s.user_index x.user_id i ≡ some tt
  pub session_of :
      (u i : String)
      → indexed s.user_index u i ≡ some tt
      → (x : Session) × (find s.sessions i ≡ some x) × (x.user_id ≡ u)

-- `Create` keeps the index exact.
pub create-IsIndexed :
    (session : Option Session) (s : SessionStore) → IsIndexed s → IsIndexed (create session s).1
unfolding create
create-IsIndexed none s h = h
create-IsIndexed (some session) s h =
    elim (Bool-cases (str_eq session.id "" || str_eq session.user_id "")) [
      | inl e ↦ rw (create, e) h
      | inr e ↦ elim (Option-cases (find s.sessions session.id)) [
        | inr (old, n) ↦ rw (create, e, n) h
        | inl n ↦
            rw (create, e, n)
              (record {
                own_id = λ i x l.
                    let at = find-set s.sessions session.id i session in
                    elim (Bool-cases (str_eq session.id i)) [
                      | inl f ↦
                          let same = (eq_iff session.id i).0 f in
                          let this : session ≡ x = ground arith in sym (ap (λ y. y.id) this) ∙ same
                      | inr f ↦ h.own_id i x (ground arith)
                    ];
                index_of = λ i x l.
                    let at = find-set s.sessions session.id i session in
                    let there =
                      indexed-index_add s.user_index session.user_id session.id x.user_id i in
                    elim (Bool-cases (str_eq session.id i)) [
                      | inl f ↦
                          let this : session ≡ x = ground arith in
                          let owner : session.user_id ≡ x.user_id = ap (λ y. y.user_id) this in
                          ground (arith, eq_iff session.user_id x.user_id)
                      | inr f ↦ let old = h.index_of i x (ground arith) in ground arith
                    ];
                session_of = λ u i l.
                    let at = find-set s.sessions session.id i session in
                    let there = indexed-index_add s.user_index session.user_id session.id u i in
                    elim (Bool-cases (str_eq session.id i)) [
                      | inl f ↦ elim (Bool-cases (str_eq session.user_id u)) [
                        | inl o ↦ (session, ground arith, (eq_iff session.user_id u).0 o)
                        | inr o ↦
                            let (x, found, owner) = h.session_of u i (ground arith) in
                            let same = (eq_iff session.id i).0 f in
                            absurd (cc (ap (find s.sessions) same))
                      ]
                      | inr f ↦
                          let (x, found, owner) = h.session_of u i (ground arith) in
                          (x, ground arith, owner)
                    ];
              })
      ]
    ]

-- The removal of a stored session from both maps keeps the index exact.
pub removed-IsIndexed :
    (id : String) (old : Session) (s : SessionStore)
    → find s.sessions id ≡ some old
    → IsIndexed s
    → IsIndexed (record {
      sessions = delete s.sessions id;
      user_index = index_remove old.user_id id s.user_index;
    })
removed-IsIndexed id old s n h = record {
  own_id = λ i x l. let at = find-delete s.sessions id i in h.own_id i x (ground arith);
  index_of = λ i x l.
      let at = find-delete s.sessions id i in
      let there = indexed-index_remove s.user_index old.user_id id x.user_id i in
      let was = h.index_of i x (ground arith) in ground arith;
  session_of = λ u i l.
      let at = find-delete s.sessions id i in
      let there = indexed-index_remove s.user_index old.user_id id u i in
      let (x, found, owner) = h.session_of u i (ground arith) in
      elim (Bool-cases (str_eq id i)) [
        | inl f ↦
            let same = (eq_iff id i).0 f in
            let this : old ≡ x = cc (ap (find s.sessions) same) in
            let o = (eq_iff old.user_id u).1 (ap (λ y. y.user_id) this ∙ owner) in
            absurd (ground arith)
        | inr f ↦ (x, ground arith, owner)
      ];
}

-- `Delete` keeps the index exact.
pub delete_session-IsIndexed :
    (id : String) (s : SessionStore) → IsIndexed s → IsIndexed (delete_session id s).1
unfolding delete_session
delete_session-IsIndexed id s h = elim (Bool-cases (str_eq id "")) [
  | inl e ↦ rw (delete_session, e) h
  | inr e ↦ elim (Option-cases (find s.sessions id)) [
    | inl n ↦ rw (delete_session, e, n) h
    | inr (old, n) ↦ rw (delete_session, e, n) (removed-IsIndexed id old s n h)
  ]
]
