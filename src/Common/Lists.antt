-- ===== src/Common/Lists.antt =====
-- Lists measured by native numbers, and predicates on lists that compute to products and sums.
use Prim.Native.Nat.{ℕ, zero, suc, ◌+◌}
use mathlib.Core.Path.{◌≡◌, refl, ap}
use mathlib.Core.Logic.{◌⊎◌, ◌↔◌, inl, inr}
use mathlib.Core.Bool.{Bool, true, false, ◌||◌, ◌&&◌}
use mathlib.Core.List.{List, [], ◌∷◌, ◌++◌}
use native.Mathlib.Omega.{arith}
use warewulf.Common.Tests.{if◌then◌else◌, Bool-cases}

module _ {ℓ} {A : Type ℓ} where
  abbrev pub length : List A → ℕ
  length [] = 0
  length (x ∷ xs) = suc (length xs)

  abbrev pub take : ℕ → List A → List A
  take zero xs = []
  take (suc n) [] = []
  take (suc n) (x ∷ xs) = x ∷ take n xs

  abbrev pub drop : ℕ → List A → List A
  drop zero xs = xs
  drop (suc n) [] = []
  drop (suc n) (x ∷ xs) = drop n xs

  -- `for … { if p(x) { ret = append(ret, x) } }`
  abbrev pub keep : (A → Bool) → List A → List A
  keep p [] = []
  keep p (x ∷ xs) = if p x then x ∷ keep p xs else keep p xs

  abbrev pub any : (A → Bool) → List A → Bool
  any p [] = false
  any p (x ∷ xs) = p x || any p xs

  abbrev pub all : (A → Bool) → List A → Bool
  all p [] = true
  all p (x ∷ xs) = p x && all p xs

  pub length-append : (xs ys : List A) → length (xs ++ ys) ≡ length xs + length ys
  length-append [] ys = omega arith
  length-append (x ∷ xs) ys = omega (arith, length-append xs ys)

-- Membership with the position kept, as a sum of equations.
abbrev pub In : {A : Type 0} → A → List A → Type 0
In a [] = ⊥
In a (x ∷ xs) = (x ≡ a) ⊎ In a xs

-- Each item stands once.
abbrev pub Distinct : {A : Type 0} → List A → Type 0
Distinct [] = Unit
Distinct (x ∷ xs) = (¬ In x xs) × Distinct xs

module _ {ℓ κ} {A : Type ℓ} (P : A → Type κ) where
  abbrev pub All : List A → Type κ
  All [] = Unit
  All (x ∷ xs) = P x × All xs

  pub All-append : (xs ys : List A) → All xs → All ys → All (xs ++ ys)
  All-append [] ys _ hy = hy
  All-append (x ∷ xs) ys (px, hx) hy = (px, All-append xs ys hx hy)

module _ {A : Type 0} (P : A → Type 0) where
  pub All-In : (xs : List A) {a : A} → All P xs → In a xs → P a
  All-In [] h i = absurd i
  All-In (x ∷ xs) h (inl e) = rw e at h.0
  All-In (x ∷ xs) h (inr i) = All-In xs h.1 i

module _ {A : Type 0} (a : A) where
  pub In-append_left : (xs ys : List A) → In a xs → In a (xs ++ ys)
  In-append_left [] ys i = absurd i
  In-append_left (x ∷ xs) ys (inl e) = inl e
  In-append_left (x ∷ xs) ys (inr i) = inr (In-append_left xs ys i)

  pub In-append_right : (xs ys : List A) → In a ys → In a (xs ++ ys)
  In-append_right [] ys i = i
  In-append_right (x ∷ xs) ys i = inr (In-append_right xs ys i)

  pub In-append_inv : (xs ys : List A) → In a (xs ++ ys) → In a xs ⊎ In a ys
  In-append_inv [] ys i = inr i
  In-append_inv (x ∷ xs) ys (inl e) = inl (inl e)
  In-append_inv (x ∷ xs) ys (inr i) = elim (In-append_inv xs ys i) [
    | inl j ↦ inl (inr j)
    | inr j ↦ inr j
  ]

module _ {A : Type 0} (p : A → Bool) where
  pub In-keep : (a : A) (xs : List A) → In a (keep p xs) ↔ (In a xs × (p a ≡ true))
  In-keep a [] = (λ i. absurd i, λ i. i.0)
  In-keep a (x ∷ xs) = elim (Bool-cases (p x)) [
    | inl e ↦ rw e (
      λ i. elim i [
        | inl q ↦ (inl q, rw q at e)
        | inr j ↦ (inr ((In-keep a xs).0 j).0, ((In-keep a xs).0 j).1)
      ],
      λ (i, t). elim i [ inl q ↦ inl q | inr j ↦ inr ((In-keep a xs).1 (j, t)) ],
    )
    | inr e ↦ rw e (
      λ i. (inr ((In-keep a xs).0 i).0, ((In-keep a xs).0 i).1),
      λ (i, t). elim i [
        | inl q ↦ absurd (ground (arith, e, t, ap p q))
        | inr j ↦ (In-keep a xs).1 (j, t)
      ],
    )
  ]

  pub In-any : (a : A) (xs : List A) → In a xs → p a ≡ true → any p xs ≡ true
  In-any a [] i h = absurd i
  In-any a (x ∷ xs) (inl e) h = let px : p x ≡ true = rw e h in rw px
  In-any a (x ∷ xs) (inr i) h = ground (arith, In-any a xs i h)

  pub any-In : (xs : List A) → any p xs ≡ true → (a : A) × In a xs × (p a ≡ true)
  any-In [] h = absurd (ground arith)
  any-In (x ∷ xs) h = elim (Bool-cases (p x)) [
    | inl e ↦ (x, inl refl, e)
    | inr e ↦ let (a, i, t) = any-In xs (ground arith) in (a, inr i, t)
  ]
