-- ===== src/Config/Authentication.antt =====
-- internal/pkg/config/authentication.go, on the users that YAML gives; what bcrypt says of a
-- password is an argument.
use warewulf.Common.{
  ◌≡◌, refl, sym, ◌∙◌, ap, Bool, List, [], ◌∷◌, Option, none, some, In, inl, inr, ◌⊎◌, arith,
  if◌then◌else◌, Bool-cases,
}
use warewulf.Common.Text.{Text, codes, text_eq, text_eq_iff}
use warewulf.Common.Maps.{Map, lookup, insert, lookup-insert}

pub record User : Type 0 where
  pub name : Text
  pub password_hash : Text

-- The map of users after the loop, and the error that ended it.
unfoldable pub add_users : List User → Map User → Map User × Option Text
unfolding lookup insert
add_users [] user_map = (user_map, none)
add_users (user ∷ users) user_map =
    let rest = add_users users (insert user.name user user_map) in
    elim (lookup user.name user_map) [
      | some _ ↦ (user_map, some (codes "duplicated user names"))
      | none ↦ rest
    ]

-- `ParseFromRaw`
unfoldable pub parse_from_raw : List User → Map User → Map User × Option Text
unfolding add_users
parse_from_raw [] user_map = (user_map, some (codes "no record users"))
parse_from_raw (user ∷ users) user_map = add_users (user ∷ users) user_map

-- `Authenticate`; `none` is the error.
unfoldable pub authenticate : (Text → Text → Bool) → Map User → Text → Text → Option User
unfolding lookup
authenticate compare_hash user_map name pass = elim (lookup name user_map) [
  | none ↦ none
  | some user ↦ if compare_hash user.password_hash pass then some user else none
]

add_users-lookup :
    (users : List User) (user_map : Map User) (name : Text) (user : User)
    → lookup name (add_users users user_map).0 ≡ some user
    → (lookup name user_map ≡ some user) ⊎ (In user users × (user.name ≡ name))
unfolding add_users
add_users-lookup [] user_map name user h = inl h
add_users-lookup (u ∷ users) user_map name user h =
    go (lookup u.name user_map) refl (add_users-lookup users (insert u.name u user_map) name user)
  where
    go :
        (o : Option User)
        → lookup u.name user_map ≡ o
        → (lookup name (add_users users (insert u.name u user_map)).0 ≡ some user
            → (lookup name (insert u.name u user_map) ≡ some user)
              ⊎ (In user users × (user.name ≡ name)))
        → (lookup name user_map ≡ some user) ⊎ (In user (u ∷ users) × (user.name ≡ name))
    go (some _) e rest = inl (rw (add_users, e) at h)
    go none e rest = elim (rest (rw (add_users, e) at h)) [
      | inr (i, q) ↦ inr (inr i, q)
      | inl k ↦ elim (Bool-cases (text_eq u.name name)) [
        | inl t ↦
            let is_u : u ≡ user =
              ground (arith, sym (lookup-insert u.name name u user_map) ∙ k, t) in
            inr (inl is_u, ap (λ z. z.name) (sym is_u) ∙ (text_eq_iff u.name name).0 t)
        | inr f ↦ inl (ground (arith, sym (lookup-insert u.name name u user_map) ∙ k, f))
      ]
    ]

-- A user of the map is one of the file, under its name.
pub parse_from_raw-lookup :
    (users : List User) (name : Text) (user : User)
    → lookup name (parse_from_raw users []).0 ≡ some user
    → In user users × (user.name ≡ name)
unfolding parse_from_raw lookup
parse_from_raw-lookup [] name user h = absurd (ground (arith, h))
parse_from_raw-lookup (u ∷ users) name user h = elim (add_users-lookup (u ∷ users) [] name user h) [
  | inl e ↦ absurd (ground (arith, e))
  | inr k ↦ k
]
