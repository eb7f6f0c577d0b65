-- ===== src/Auth/Sessions/Logout.antt =====
-- `DeleteByUserID` of internal/auth/session.go removes the sessions of one user and no others.
use cloudpam.Base.{
  ◌≡◌, ◌⊎◌, refl, sym, ap, ◌∙◌, subst, inl, inr, Bool-cases, Option-cases, eq_iff, String, true,
  false, Option, some, none, [], ◌∷◌, str_eq, if◌then◌else◌,
}
use cloudpam.Base.Dict.{Dict, find, delete, find-delete}
use cloudpam.Auth.Identity.{Session}
use cloudpam.Auth.Sessions.{SessionStore, Ids, delete_ids, delete_by_user}
use cloudpam.Auth.Sessions.Index.{indexed, indexed-none, indexed-some, IsIndexed}

-- The sessions left by the deletion of those in a set.
abbrev left : Option (Unit {0}) → Option Session → Option Session
left none found = found
left (some _) found = none

find-delete_ids :
    (ids : Ids) (sessions : Dict Session) (i : String)
    → find (delete_ids ids sessions) i ≡ left (find ids i) (find sessions i)
unfolding delete_ids find
find-delete_ids [] sessions i = refl
find-delete_ids ((id, _) ∷ ids) sessions i =
    let rest = find-delete_ids ids (delete sessions id) i in
    let one = find-delete sessions id i in
    elim (Bool-cases (str_eq id i)) [
      | inl e ↦ elim (Option-cases (find ids i)) [
        | inl n ↦ rw e (rest ∙ rw n (one ∙ rw e refl))
        | inr (u, n) ↦ rw e (rest ∙ rw n refl)
      ]
      | inr e ↦ rw e (rest ∙ ap (left (find ids i)) (one ∙ rw e refl))
    ]

-- A session of another user.
abbrev pub kept : String → Option Session → Option Session
kept user none = none
kept user (some x) = if str_eq x.user_id user then none else some x

-- The index of a user has exactly the ids of the user's sessions.
owner-cases :
    (user i : String) (s : SessionStore) (x : Session)
    → IsIndexed s
    → find s.sessions i ≡ some x
    → ((str_eq x.user_id user ≡ true) × (indexed s.user_index user i ≡ some tt))
      ⊎ ((str_eq x.user_id user ≡ false) × (indexed s.user_index user i ≡ none))
owner-cases user i s x h m = elim (Bool-cases (str_eq x.user_id user)) [
  | inl e ↦
      let same = (eq_iff x.user_id user).0 e in
      inl (e, subst (λ u. indexed s.user_index u i ≡ some tt) same (h.index_of i x m))
  | inr e ↦ elim (Option-cases (indexed s.user_index user i)) [
    | inl n ↦ inr (e, n)
    | inr (u, n) ↦
        let (y, found, owner) = h.session_of user i n in
        let this : x ≡ y = cc in
        absurd (cc ((eq_iff x.user_id user).1 (ap (λ z. z.user_id) this ∙ owner)))
  ]
]

-- In a store with an exact index `DeleteByUserID` of a user leaves, under every id, the session
-- that was there if it is another user's, and none if it is this user's.
pub delete_by_user-kept :
    (user : String) (s : SessionStore)
    → str_eq user "" ≡ false
    → IsIndexed s
    → (i : String) → find (delete_by_user user s).sessions i ≡ kept user (find s.sessions i)
unfolding delete_by_user
delete_by_user-kept user s named h i = elim (Option-cases (find s.user_index user)) [
  | inl n ↦
      rw (delete_by_user, named, n)
        (let off = indexed-none s.user_index user i n in
          elim (Option-cases (find s.sessions i)) [
            | inl m ↦ rw m refl
            | inr (x, m) ↦ elim (owner-cases user i s x h m) [
              | inl (o, f) ↦ absurd (cc)
              | inr (o, f) ↦ rw (m, o) refl
            ]
          ])
  | inr (ids, n) ↦
      rw (delete_by_user, named, n)
        (let on = indexed-some s.user_index user i ids n in
          let after = find-delete_ids ids s.sessions i in
          after ∙ elim (Option-cases (find s.sessions i)) [
            | inl m ↦
                rw m
                  (elim (Option-cases (find ids i)) [ inl o ↦ rw o refl | inr (u, o) ↦ rw o refl ])
            | inr (x, m) ↦ elim (owner-cases user i s x h m) [
              | inl (o, f) ↦ rw (m, o, (sym on ∙ f)) refl
              | inr (o, f) ↦ rw (m, o, (sym on ∙ f)) refl
            ]
          ])
]
