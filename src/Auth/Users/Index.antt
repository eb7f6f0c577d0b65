-- ===== src/Auth/Users/Index.antt =====
-- The username index of internal/auth/user_store.go leads to exactly the stored users.
use cloudpam.Base.{
  ◌≡◌, refl, sym, ap, ◌∙◌, arith, inl, inr, Bool-cases, Option-cases, eq_iff, String, ◌||◌, Option,
  some, none, str_eq,
}
use cloudpam.Base.Dict.{find, find-set, find-delete}
use cloudpam.Auth.RoleStore.{User}
use cloudpam.Auth.Users.{UserStore, create, delete_user}

-- A user is stored at its own id and indexed by its username, and the index has nothing else.
pub record IsIndexed (s : UserStore) : Type 0 where
  pub own_id : (i : String) (u : User) → find s.users i ≡ some u → u.id ≡ i
  pub index_of :
      (i : String) (u : User) → find s.users i ≡ some u → find s.username_index u.username ≡ some i
  pub user_of :
      (n i : String)
      → find s.username_index n ≡ some i
      → (u : User) × (find s.users i ≡ some u) × (u.username ≡ n)

pub create-IsIndexed :
    (user : Option User) (s : UserStore) → IsIndexed s → IsIndexed (create user s).1
unfolding create
create-IsIndexed none s h = h
create-IsIndexed (some user) s h =
    elim (Bool-cases (str_eq user.id "" || str_eq user.username "")) [
      | inl e ↦ rw (create, e) h
      | inr e ↦ elim (Option-cases (find s.users user.id)) [
        | inr (old, n) ↦ rw (create, e, n) h
        | inl n ↦ elim (Option-cases (find s.username_index user.username)) [
          | inr (old, m) ↦ rw (create, e, n, m) h
          | inl m ↦
              rw (create, e, n, m)
                (record {
                  own_id = λ i u l.
                      let at = find-set s.users user.id i user in
                      elim (Bool-cases (str_eq user.id i)) [
                        | inl f ↦
                            let this : user ≡ u = ground arith in
                            sym (ap (λ y. y.id) this) ∙ (eq_iff user.id i).0 f
                        | inr f ↦ h.own_id i u (ground arith)
                      ];
                  index_of = λ i u l.
                      let at = find-set s.users user.id i user in
                      let there = find-set s.username_index user.username u.username user.id in
                      elim (Bool-cases (str_eq user.id i)) [
                        | inl f ↦
                            let this : user ≡ u = ground arith in
                            let name =
                              (eq_iff user.username u.username).1 (ap (λ y. y.username) this) in
                            there ∙ rw name (ap some ((eq_iff user.id i).0 f))
                        | inr f ↦
                            let old = h.index_of i u (ground arith) in
                            elim (Bool-cases (str_eq user.username u.username)) [
                              | inl g ↦
                                  let same = (eq_iff user.username u.username).0 g in
                                  absurd (cc (ap (find s.username_index) same))
                              | inr g ↦ there ∙ rw g old
                            ]
                      ];
                  user_of = λ name i l.
                      let at = find-set s.users user.id i user in
                      let there = find-set s.username_index user.username name user.id in
                      elim (Bool-cases (str_eq user.username name)) [
                        | inl g ↦
                            let same : user.id ≡ i = ground arith in
                            (
                              user,
                              at ∙ rw ((eq_iff user.id i).1 same) refl,
                              (eq_iff user.username name).0 g,
                            )
                        | inr g ↦
                            let (u, found, owner) = h.user_of name i (ground arith) in
                            elim (Bool-cases (str_eq user.id i)) [
                              | inl f ↦ absurd (cc (ap (find s.users) ((eq_iff user.id i).0 f)))
                              | inr f ↦ (u, at ∙ rw f found, owner)
                            ]
                      ];
                })
        ]
      ]
    ]

pub delete_user-IsIndexed :
    (id : String) (s : UserStore) → IsIndexed s → IsIndexed (delete_user id s).1
unfolding delete_user
delete_user-IsIndexed id s h = elim (Bool-cases (str_eq id "")) [
  | inl e ↦ rw (delete_user, e) h
  | inr e ↦ elim (Option-cases (find s.users id)) [
    | inl n ↦ rw (delete_user, e, n) h
    | inr (old, n) ↦
        rw (delete_user, e, n)
          (record {
            own_id = λ i u l. let at = find-delete s.users id i in h.own_id i u (ground arith);
            index_of = λ i u l.
                let at = find-delete s.users id i in
                let there = find-delete s.username_index old.username u.username in
                let was = h.index_of i u (ground arith) in
                elim (Bool-cases (str_eq old.username u.username)) [
                  | inl o ↦
                      let mine = h.index_of id old n in
                      let same : id ≡ i =
                        cc (ap (find s.username_index) ((eq_iff old.username u.username).0 o)) in
                      let hit = (eq_iff id i).1 same in absurd (ground arith)
                  | inr o ↦ there ∙ rw o was
                ];
            user_of = λ name i l.
                let at = find-delete s.users id i in
                let there = find-delete s.username_index old.username name in
                elim (Bool-cases (str_eq old.username name)) [
                  | inl o ↦ absurd (ground arith)
                  | inr o ↦
                      let (u, found, owner) = h.user_of name i (ground arith) in
                      elim (Bool-cases (str_eq id i)) [
                        | inl f ↦
                            let this : old ≡ u = cc (ap (find s.users) ((eq_iff id i).0 f)) in
                            absurd (
                              cc ((eq_iff old.username name).1 (ap (λ y. y.username) this ∙ owner)))
                        | inr f ↦ (u, at ∙ rw f found, owner)
                      ]
                ];
          })
  ]
]
