-- ===== src/Upgrade/Values/Entries.antt =====
-- What the loops over maps leave at one key.
use warewulf.Common.{
  ◌≡◌, refl, sym, ap, List, [], ◌∷◌, Option, none, some, ◌>>=◌, arith, inl, inr, ◌⊎◌, In, ◌≢◌, ◌↔◌,
  Bool-cases, Option-cases, if◌then◌else◌,
}
use warewulf.Common.Text.{Text, text_eq, text_eq_iff, contains}
use warewulf.Common.Maps.{Map, lookup, insert, delete, keys, IsMap, lookup-insert, lookup-delete}
use warewulf.Upgrade.Values.{copy_tags, delete_tags, upgrade_all, at_pointer}

abbrev pub or_else : {A : Type 0} → Option A → Option A → Option A
or_else none b = b
or_else (some a) b = some a

-- A copied map lies over the map that it is copied into.
pub lookup-copy_tags :
    (k : Text) (source tags : Map Text)
    → IsMap source
    → lookup k (copy_tags source tags) ≡ or_else (lookup k source) (lookup k tags)
unfolding copy_tags lookup
lookup-copy_tags k [] tags h = refl
lookup-copy_tags k ((j, v) ∷ source) tags (fresh, h) = ground (
  arith,
  lookup-copy_tags k source (insert j v tags) h,
  lookup-insert j k v tags,
  text_eq_iff j k,
)

pub lookup-delete_tags :
    (k : Text) (tags_del : List Text) (tags : Map Text)
    → lookup k (delete_tags tags_del tags) ≡ (if contains tags_del k then none else lookup k tags)
unfolding delete_tags contains
lookup-delete_tags k [] tags = refl
lookup-delete_tags k (j ∷ tags_del) tags =
    ground (arith, lookup-delete_tags k tags_del (delete j tags), lookup-delete j k tags)

module _ {A B : Type 0} (upgrade : A → Option B) where
  -- Every entry is upgraded, in its place.
  abbrev pub UpgradesAll : Map A → Map B → Type 0
  UpgradesAll m n = (keys n ≡ keys m) × ((k : Text) → lookup k n ≡ (lookup k m >>= upgrade))

  abbrev pub Panics : Map A → Type 0
  Panics m = (k : Text) × (a : A) × In (k, a) m × (upgrade a ≡ none)

  upgrade_all-cons :
      (name : Text) (a : A) (b : B) (m : Map A) (n : Map B)
      → upgrade a ≡ some b
      → UpgradesAll m n
      → UpgradesAll ((name, a) ∷ m) ((name, b) ∷ n)
  unfolding lookup keys
  upgrade_all-cons name a b m n e (same, at) = (
    ap (λ z. name ∷ z) same,
    λ k. elim (Bool-cases (text_eq name k)) [ inl t ↦ rw t (sym e) | inr f ↦ rw f (at k) ],
  )

  pub upgrade_all-cases :
      (m : Map A)
      → ((n : Map B) × (upgrade_all upgrade m ≡ some n) × UpgradesAll m n × (¬ Panics m))
        ⊎ ((upgrade_all upgrade m ≡ none) × Panics m)
  unfolding upgrade_all keys lookup
  upgrade_all-cases [] = inl ([], refl, (refl, λ k. refl), λ (k, a, i, e). absurd i)
  upgrade_all-cases ((name, a) ∷ m) = elim (Option-cases (upgrade a)) [
    | inl e ↦ inr (rw (upgrade_all, e) refl, (name, a, inl refl, e))
    | inr (b, e) ↦ elim (upgrade_all-cases m) [
      | inr (f, (k, c, i, g)) ↦ inr (rw (upgrade_all, e, f) refl, (k, c, inr i, g))
      | inl (n, f, all, calm) ↦ inl (
        (name, b) ∷ n,
        rw (upgrade_all, e, f) refl,
        upgrade_all-cons name a b m n e all,
        λ (k, c, i, g). elim i [
          | inl q ↦ absurd (ground (arith, e, g, ap (λ z. upgrade z.1) q))
          | inr j ↦ calm (k, c, j, g)
        ],
      )
    ]
  ]

-- A chain gives a result just through a result of its first part.
pub bind-some :
    {A B : Type 0} (o : Option A) (f : A → Option B) (b : B)
    → (o >>= f) ≡ some b
    → (a : A) × (f a ≡ some b)
bind-some none f b h = absurd cc
bind-some (some a) f b h = (a, h)

pub bind-none :
    {A B P Q : Type 0} (o : Option A) (f : A → Option B)
    → (o ≡ none) ↔ P
    → ((a : A) → (f a ≡ none) ↔ Q)
    → ((o >>= f) ≡ none) ↔ (P ⊎ Q)
bind-none none f first rest = (λ _. inl (first.0 refl), λ _. refl)
bind-none (some a) f first rest = (
  λ h. inr ((rest a).0 h),
  λ i. elim i [ inl p ↦ absurd (no_none a (first.1 p)) | inr q ↦ (rest a).1 q ],
)
  where
    no_none : {A : Type 0} (a : A) → some a ≢ none
    no_none a h = cc

pub bind-none_last :
    {A B P : Type 0} (o : Option A) (f : A → B)
    → (o ≡ none) ↔ P
    → ((o >>= λ a. some (f a)) ≡ none) ↔ P
bind-none_last none f first = (λ _. first.0 refl, λ _. refl)
bind-none_last (some a) f first = (λ h. absurd cc, λ p. absurd (no_none a (first.1 p)))
  where
    no_none : {A : Type 0} (a : A) → some a ≢ none
    no_none a h = cc

-- A pointer is nil, or what it points to is bad.
abbrev pub IsNullOr : {A : Type 0} → (A → Type 0) → Option A → Type 0
IsNullOr bad none = Unit
IsNullOr bad (some a) = bad a

abbrev pub HoldsNullOr : {A : Type 0} → (A → Type 0) → Map (Option A) → Type 0
HoldsNullOr bad m = (name : Text) × (o : Option _) × In (name, o) m × IsNullOr bad o

pub upgrade_all_iff :
    {A B : Type 0} (upgrade : A → Option B) (bad : A → Type 0)
    → ((a : A) → (upgrade a ≡ none) ↔ bad a)
    → (m : Map (Option A)) → (upgrade_all (at_pointer upgrade) m ≡ none) ↔ HoldsNullOr bad m
upgrade_all_iff upgrade bad iff m = elim (upgrade_all-cases (at_pointer upgrade) m) [
  | inr (e, (k, o, i, q)) ↦ (λ _. (k, o, i, (at o).0 q), λ _. e)
  | inl (n, e, _, calm) ↦
      (λ q. absurd (ground (arith, e, q)), λ (k, o, i, b). absurd (calm (k, o, i, (at o).1 b)))
]
  where
    at : (o : Option _) → (at_pointer upgrade o ≡ none) ↔ IsNullOr bad o
    at none = (λ _. tt, λ _. refl)
    at (some a) = iff a
