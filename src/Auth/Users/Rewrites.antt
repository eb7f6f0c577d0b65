-- ===== src/Auth/Users/Rewrites.antt =====
-- Writing over a stored user, in internal/auth/user_store.go, keeps the username index exact.
use cloudpam.Base.{
  ℕ, ◌≡◌, refl, sym, ap, ◌∙◌, subst, arith, inl, inr, Bool-cases, Option-cases, eq_iff, String,
  Option, some, none, str_eq,
}
use cloudpam.Base.Dict.{find, set, delete, find-set, find-delete}
use cloudpam.Auth.RoleStore.{User}
use cloudpam.Auth.Users.{UserStore, move_username, update, update_last_login, logged_in}
use cloudpam.Auth.Users.Index.{IsIndexed}

-- A user that is written over one with the same id and username.
put_over-IsIndexed :
    (s : UserStore) (old user : User)
    → IsIndexed s
    → find s.users user.id ≡ some old
    → old.username ≡ user.username
    → IsIndexed (record s { users = set s.users user.id user })
put_over-IsIndexed s old user h n same = record {
  own_id = λ i u l.
      let at = find-set s.users user.id i user in
      elim (Bool-cases (str_eq user.id i)) [
        | inl f ↦
            let this : user ≡ u = ground arith in sym (ap (λ y. y.id) this) ∙ (eq_iff user.id i).0 f
        | inr f ↦ h.own_id i u (ground arith)
      ];
  index_of = λ i u l.
      let at = find-set s.users user.id i user in
      elim (Bool-cases (str_eq user.id i)) [
        | inl f ↦
            let this : user ≡ u = ground arith in
            let name : old.username ≡ u.username = same ∙ ap (λ y. y.username) this in
            subst (λ k. find s.username_index k ≡ some i) name
              (h.index_of i old (sym (ap (find s.users) ((eq_iff user.id i).0 f)) ∙ n))
        | inr f ↦ h.index_of i u (ground arith)
      ];
  user_of = λ name i l.
      let at = find-set s.users user.id i user in
      let (u, found, owner) = h.user_of name i l in
      elim (Bool-cases (str_eq user.id i)) [
        | inl f ↦
            let this : old ≡ u = cc (ap (find s.users) ((eq_iff user.id i).0 f)) in
            (user, at ∙ rw f refl, sym same ∙ ap (λ y. y.username) this ∙ owner)
        | inr f ↦ (u, at ∙ rw f found, owner)
      ];
}

-- A user that is written over one of another name, when the new name is free.
rename-IsIndexed :
    (s : UserStore) (old user : User)
    → IsIndexed s
    → find s.users user.id ≡ some old
    → find s.username_index user.username ≡ none
    → IsIndexed (record {
      users = set s.users user.id user;
      username_index = set (delete s.username_index old.username) user.username user.id;
    })
rename-IsIndexed s old user h n free =
    let index =
      λ (k : String). find-set (delete s.username_index old.username) user.username k user.id in
    let less = λ (k : String). find-delete s.username_index old.username k in
    record {
      own_id = λ i u l.
          let at = find-set s.users user.id i user in
          elim (Bool-cases (str_eq user.id i)) [
            | inl f ↦
                let this : user ≡ u = ground arith in
                sym (ap (λ y. y.id) this) ∙ (eq_iff user.id i).0 f
            | inr f ↦ h.own_id i u (ground arith)
          ];
      index_of = λ i u l.
          let at = find-set s.users user.id i user in
          elim (Bool-cases (str_eq user.id i)) [
            | inl f ↦
                let this : user ≡ u = ground arith in
                let name = (eq_iff user.username u.username).1 (ap (λ y. y.username) this) in
                index u.username ∙ rw name (ap some ((eq_iff user.id i).0 f))
            | inr f ↦
                let was = h.index_of i u (ground arith) in
                elim (Bool-cases (str_eq user.username u.username)) [
                  | inl g ↦
                      absurd
                        (cc (ap (find s.username_index) ((eq_iff user.username u.username).0 g)))
                  | inr g ↦ elim (Bool-cases (str_eq old.username u.username)) [
                    | inl o ↦
                        let there = h.index_of user.id old n in
                        let same : user.id ≡ i =
                          cc (ap (find s.username_index) ((eq_iff old.username u.username).0 o)) in
                        absurd (cc ((eq_iff user.id i).1 same))
                    | inr o ↦ index u.username ∙ rw g (less u.username ∙ rw o was)
                  ]
                ]
          ];
      user_of = λ name i l.
          let at = find-set s.users user.id i user in
          let new = index name in
          let gone = less name in
          elim (Bool-cases (str_eq user.username name)) [
            | inl g ↦
                let same : user.id ≡ i = ground arith in
                (user, at ∙ rw ((eq_iff user.id i).1 same) refl, (eq_iff user.username name).0 g)
            | inr g ↦ elim (Bool-cases (str_eq old.username name)) [
              | inl o ↦ absurd (ground arith)
              | inr o ↦
                  let (u, found, owner) = h.user_of name i (ground arith) in
                  elim (Bool-cases (str_eq user.id i)) [
                    | inl f ↦
                        let this : old ≡ u = cc (ap (find s.users) ((eq_iff user.id i).0 f)) in
                        absurd
                          (cc ((eq_iff old.username name).1 (ap (λ y. y.username) this ∙ owner)))
                    | inr f ↦ (u, at ∙ rw f found, owner)
                  ]
            ]
          ];
    }

pub update-IsIndexed :
    (user : Option User) (s : UserStore) → IsIndexed s → IsIndexed (update user s).1
unfolding update move_username
update-IsIndexed none s h = h
update-IsIndexed (some user) s h = elim (Bool-cases (str_eq user.id "")) [
  | inl e ↦ rw (update, e) h
  | inr e ↦ elim (Option-cases (find s.users user.id)) [
    | inl n ↦ rw (update, e, n) h
    | inr (old, n) ↦ elim (Bool-cases (str_eq old.username user.username)) [
      | inl o ↦
          rw (update, move_username, e, n, o)
            (put_over-IsIndexed s old user h n ((eq_iff old.username user.username).0 o))
      | inr o ↦ elim (Option-cases (find s.username_index user.username)) [
        | inr (k, m) ↦ rw (update, move_username, e, n, o, m) h
        | inl m ↦ rw (update, move_username, e, n, o, m) (rename-IsIndexed s old user h n m)
      ]
    ]
  ]
]

pub update_last_login-IsIndexed :
    (t : ℕ) (id : String) (s : UserStore) → IsIndexed s → IsIndexed (update_last_login t id s).1
unfolding update_last_login
update_last_login-IsIndexed t id s h = elim (Option-cases (find s.users id)) [
  | inl n ↦ rw (update_last_login, n) h
  | inr (user, n) ↦
      let own : user.id ≡ id = h.own_id id user n in
      rw (update_last_login, n)
        (subst (λ k. IsIndexed (record s { users = set s.users k (logged_in t user) })) own
          (put_over-IsIndexed s user (logged_in t user) h (ap (find s.users) own ∙ n) refl))
]
