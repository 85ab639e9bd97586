-- ===== src/Common/Sort.antt =====
-- `sort.Strings`, `slices.Sort`, `sort.Slice`: insertion of each item into the sorted rest.
use mathlib.Core.Path.{◌≡◌, refl, ◌∙◌}
use mathlib.Core.Logic.{◌⊎◌, inl, inr, ∥∥₁_elim}
use mathlib.Core.Bool.{Bool, true, false}
use mathlib.Core.List.{List, [], ◌∷◌, Perm, Permᴰ}
use native.Mathlib.Omega.{arith}
use warewulf.Common.Tests.{if◌then◌else◌, Bool-cases}
use warewulf.Common.Lists.{In, All}
use warewulf.Common.Text.{Text, text_le, text_le_total, text_le_trans, text_le_antisym}

module _ {ℓ} {A : Type ℓ} (le : A → A → Bool) where
  unfoldable pub insert_sorted : A → List A → List A
  insert_sorted x [] = x ∷ []
  insert_sorted x (y ∷ ys) = if le x y then x ∷ y ∷ ys else y ∷ insert_sorted x ys

  unfoldable pub sort : List A → List A
  unfolding insert_sorted
  sort [] = []
  sort (x ∷ xs) = insert_sorted x (sort xs)

module _ {A : Type 0} (le : A → A → Bool) where
  -- Each item is at most every later one.
  abbrev pub IsSorted : List A → Type 0
  IsSorted [] = Unit
  IsSorted (x ∷ xs) = All (λ y. le x y ≡ true) xs × IsSorted xs

  -- Sorting keeps the items.
  pub In-insert_sorted : (x a : A) (ys : List A) → (x ≡ a) ⊎ In a ys → In a (insert_sorted le x ys)
  unfolding insert_sorted
  In-insert_sorted x a [] i = i
  In-insert_sorted x a (y ∷ ys) (inl p) = ground (arith, In-insert_sorted x a ys (inl p))
  In-insert_sorted x a (y ∷ ys) (inr (inl p)) = ground arith
  In-insert_sorted x a (y ∷ ys) (inr (inr p)) = ground (arith, In-insert_sorted x a ys (inr p))

  insert_sorted-In : (x a : A) (ys : List A) → In a (insert_sorted le x ys) → (x ≡ a) ⊎ In a ys
  unfolding insert_sorted
  insert_sorted-In x a [] i = i
  insert_sorted-In x a (y ∷ ys) i = ground (arith, insert_sorted-In x a ys)

  pub In-sort : (a : A) (xs : List A) → In a xs → In a (sort le xs)
  unfolding sort
  In-sort a [] i = i
  In-sort a (x ∷ xs) (inl e) = In-insert_sorted x a _ (inl e)
  In-sort a (x ∷ xs) (inr i) = In-insert_sorted x a _ (inr (In-sort a xs i))

  pub sort-In : (a : A) (xs : List A) → In a (sort le xs) → In a xs
  unfolding sort
  sort-In a [] i = i
  sort-In a (x ∷ xs) i = elim (insert_sorted-In x a (sort le xs) i) [
    | inl e ↦ inl e
    | inr j ↦ inr (sort-In a xs j)
  ]

-- The order of the input does not matter for a total order: what is read from a map in any
-- order is sorted to one list.
module _ {A : Type 0} (le : A → A → Bool) (total : (a b : A) → le a b ≡ false → le b a ≡ true)
    (trans : (a b c : A) → le a b ≡ true → le b c ≡ true → le a c ≡ true) where
  insert_sorted-All :
      (P : A → Type 0) (x : A) (ys : List A) → P x → All P ys → All P (insert_sorted le x ys)
  unfolding insert_sorted
  insert_sorted-All P x [] h hs = (h, tt)
  insert_sorted-All P x (y ∷ ys) h hs = ground (arith, insert_sorted-All P x ys h hs.1)

  All-le_trans :
      (x y : A) (ys : List A)
      → le x y ≡ true
      → All (λ z. le y z ≡ true) ys
      → All (λ z. le x z ≡ true) ys
  All-le_trans x y [] h hs = tt
  All-le_trans x y (z ∷ ys) h hs = (trans x y z h hs.0, All-le_trans x y ys h hs.1)

  insert_sorted-IsSorted :
      (x : A) (ys : List A) → IsSorted le ys → IsSorted le (insert_sorted le x ys)
  unfolding insert_sorted
  insert_sorted-IsSorted x [] h = (tt, tt)
  insert_sorted-IsSorted x (y ∷ ys) h = elim (Bool-cases (le x y)) [
    | inl e ↦ rw e ((e, All-le_trans x y ys e h.0), h)
    | inr e ↦ rw e (
      insert_sorted-All (λ z. le y z ≡ true) x ys (total x y e) h.0,
      insert_sorted-IsSorted x ys h.1,
    )
  ]

  pub sort-IsSorted : (xs : List A) → IsSorted le (sort le xs)
  unfolding sort
  sort-IsSorted [] = tt
  sort-IsSorted (x ∷ xs) = insert_sorted-IsSorted x (sort le xs) (sort-IsSorted xs)

  module _ (antisym : (a b : A) → le a b ≡ true → le b a ≡ true → a ≡ b) where
    insert_sorted_comm :
        (a b : A) (xs : List A)
        → insert_sorted le a (insert_sorted le b xs) ≡ insert_sorted le b (insert_sorted le a xs)
    unfolding insert_sorted
    insert_sorted_comm a b [] = ground (arith, total a b, total b a, antisym a b)
    insert_sorted_comm a b (x ∷ xs) = ground (
      arith,
      insert_sorted_comm a b xs,
      total a b,
      total b a,
      antisym a b,
      trans a b x,
      trans b a x,
      total a x,
      total b x,
      trans a x b,
      trans b x a,
    )

    sort-Permᴰ : {xs ys : List A} → Permᴰ xs ys → sort le xs ≡ sort le ys
    unfolding sort
    sort-Permᴰ Permᴰ.nil = refl
    sort-Permᴰ (Permᴰ.cons e p) = cc (sort-Permᴰ p)
    sort-Permᴰ (Permᴰ.swap {a} {b} {l} e f) = cc (insert_sorted_comm a b (sort le l))
    sort-Permᴰ (Permᴰ.trans p q) = sort-Permᴰ p ∙ sort-Permᴰ q

-- `sort.Strings`
unfoldable pub sort_texts : List Text → List Text
unfolding sort
sort_texts = sort text_le

pub sort_texts-IsSorted : (xs : List Text) → IsSorted text_le (sort_texts xs)
unfolding sort_texts
sort_texts-IsSorted xs = unfold sort_texts in sort-IsSorted text_le text_le_total text_le_trans xs

pub In-sort_texts : (a : Text) (xs : List Text) → In a xs → In a (sort_texts xs)
unfolding sort_texts
In-sort_texts a xs i = In-sort text_le a xs i

pub sort_texts-In : (a : Text) (xs : List Text) → In a (sort_texts xs) → In a xs
unfolding sort_texts
sort_texts-In a xs i = sort-In text_le a xs i

texts_set : IsSet (List Text)
texts_set = hlevel

pub sort_texts-Perm : (xs ys : List Text) → Perm xs ys → sort_texts xs ≡ sort_texts ys
unfolding sort_texts
sort_texts-Perm xs ys p =
    ∥∥₁_elim p (texts_set _ _) (sort-Permᴰ text_le text_le_total text_le_trans text_le_antisym)
