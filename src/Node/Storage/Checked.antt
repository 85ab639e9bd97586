-- ===== src/Node/Storage/Checked.antt =====
-- Sorting with a comparison that may panic.
use warewulf.Common.{
  ◌≡◌, ◌≢◌, refl, sym, ◌∙◌, ap, Bool, true, false, List, [], ◌∷◌, Option, none, some, ◌>>=◌, In,
  All, All-In, inl, inr, ◌⊎◌, ◌↔◌, arith,
}
use warewulf.Common.Sort.{IsSorted}
use warewulf.Node.Storage.{insert_checked, sort_checked}

-- A later item `y` of the list and an earlier one `x` with `R y x`.
abbrev pub HasPair : {A : Type 0} → (A → A → Type 0) → List A → Type 0
HasPair R [] = ⊥
HasPair R (x ∷ xs) = ((y : _) × In y xs × R y x) ⊎ HasPair R xs

pub map-HasPair :
    {A : Type 0} (R S : A → A → Type 0)
    → ((y x : A) → R y x → S y x)
    → (xs : List A) → HasPair R xs
    → HasPair S xs
map-HasPair R S f [] h = h
map-HasPair R S f (x ∷ xs) (inl (y, i, r)) = inl (y, i, f y x r)
map-HasPair R S f (x ∷ xs) (inr h) = inr (map-HasPair R S f xs h)

module _ {A : Type 0} (before : A → A → Option Bool) where
  -- Two items in the list that cannot be compared.
  abbrev pub HasClash : List A → Type 0
  HasClash = HasPair (λ y x. before y x ≡ none)

  module _ (le : A → A → Bool) (trans : (a b c : A) → le a b ≡ true → le b c ≡ true → le a c ≡ true)
      (before_true : (a b : A) → before a b ≡ some true → le a b ≡ true)
      (before_false : (a b : A) → before a b ≡ some false → le b a ≡ true)
      (clash_le : (a b c : A) → before b c ≡ none → le a b ≡ true → before a c ≢ some false) where
    All-le_checked :
        (x y : A) (ys : List A)
        → le x y ≡ true
        → All (λ z. le y z ≡ true) ys
        → All (λ z. le x z ≡ true) ys
    All-le_checked x y [] h hs = tt
    All-le_checked x y (z ∷ ys) h hs = (trans x y z h hs.0, All-le_checked x y ys h hs.1)

    -- What an insertion into a sorted list gives.
    pub record Inserted (x : A) (ys zs : List A) : Type 0 where
      pub sorted : IsSorted le zs
      pub items : (a : A) → In a zs ↔ ((x ≡ a) ⊎ In a ys)
      pub all_le :
          (b : A) → le b x ≡ true → All (λ z. le b z ≡ true) ys → All (λ z. le b z ≡ true) zs

    abbrev InsertOutcome : A → List A → Option (List A) → Type 0
    InsertOutcome x ys none = (y : A) × In y ys × (before y x ≡ none)
    InsertOutcome x ys (some zs) = Inserted x ys zs × ((y : A) → In y ys → before y x ≢ none)

    insert_checked-Outcome :
        (x : A) (ys : List A) → IsSorted le ys → InsertOutcome x ys (insert_checked before x ys)
    unfolding insert_checked
    insert_checked-Outcome x [] s = (
      record { sorted = (tt, tt); items = λ a. (λ i. i, λ i. i); all_le = λ b h hs. (h, tt) },
      λ y i. absurd i,
    )
    insert_checked-Outcome x (y ∷ ys) s = go (insert_checked-Outcome x ys s.1) (before y x) refl
      where
        found :
            (r : Option (List A))
            → before y x ≡ some true
            → InsertOutcome x ys r
            → InsertOutcome x (y ∷ ys) (r >>= λ zs. some (y ∷ zs))
        found none e (z, i, q) = (z, inr i, q)
        found (some zs) e (h, apart) = (
          record {
            sorted = (h.all_le y (before_true y x e) s.0, h.sorted);
            items = λ a. (
              λ i. elim i [
                | inl q ↦ inr (inl q)
                | inr j ↦ elim ((h.items a).0 j) [ inl q ↦ inl q | inr k ↦ inr (inr k) ]
              ],
              λ i. elim i [
                | inl q ↦ inr ((h.items a).1 (inl q))
                | inr (inl q) ↦ inl q
                | inr (inr k) ↦ inr ((h.items a).1 (inr k))
              ],
            );
            all_le = λ b l ls. (ls.0, h.all_le b l ls.1);
          },
          λ z i. elim i [
            | inl q ↦ λ n. absurd (ground (arith, sym e ∙ ap (λ v. before v x) q ∙ n))
            | inr j ↦ apart z j
          ],
        )

        go :
            InsertOutcome x ys (insert_checked before x ys)
            → (b : Option Bool) → before y x ≡ b
            → InsertOutcome x (y ∷ ys) (insert_checked before x (y ∷ ys))
        go rest none e = rw (insert_checked, e) (y, inl refl, e)
        go rest (some true) e = rw (insert_checked, e) (found (insert_checked before x ys) e rest)
        go rest (some false) e =
            rw (insert_checked, e)
              (
                record {
                  sorted =
                      ((before_false y x e, All-le_checked x y ys (before_false y x e) s.0), s);
                  items = λ a. (λ i. i, λ i. i);
                  all_le = λ b l ls. (l, ls);
                },
                λ z i n. elim i [
                  | inl q ↦ absurd (ground (arith, sym e ∙ ap (λ v. before v x) q ∙ n))
                  | inr j ↦ clash_le y z x n (All-In (λ v. le y v ≡ true) ys s.0 j) e
                ],
              )

    -- A sort either panics, and two of the items cannot be compared, or gives the items in order, and
    -- all can be.
    abbrev pub SortOutcome : List A → Option (List A) → Type 0
    SortOutcome xs none = HasClash xs
    SortOutcome xs (some ys) = IsSorted le ys × ((a : A) → In a ys ↔ In a xs) × (HasClash xs → ⊥)

    pub sort_checked-Outcome : (xs : List A) → SortOutcome xs (sort_checked before xs)
    unfolding sort_checked
    sort_checked-Outcome [] = (tt, λ a. (λ i. i, λ i. i), λ h. h)
    sort_checked-Outcome (x ∷ xs) = go (sort_checked before xs) (sort_checked-Outcome xs)
      where
        into :
            (ys : List A)
            → ((a : A) → In a ys ↔ In a xs)
            → (HasClash xs → ⊥)
            → (r : Option (List A)) → InsertOutcome x ys r
            → SortOutcome (x ∷ xs) r
        into ys same apart none (y, i, e) = inl (y, (same y).0 i, e)
        into ys same apart (some zs) (h, none_clash) = (
          h.sorted,
          λ a. (
            λ i. elim ((h.items a).0 i) [ inl q ↦ inl q | inr j ↦ inr ((same a).0 j) ],
            λ i. elim i [
              | inl q ↦ (h.items a).1 (inl q)
              | inr j ↦ (h.items a).1 (inr ((same a).1 j))
            ],
          ),
          λ c. elim c [ inl (y, i, e) ↦ none_clash y ((same y).1 i) e | inr d ↦ apart d ],
        )

        go :
            (r : Option (List A))
            → SortOutcome xs r
            → SortOutcome (x ∷ xs) (r >>= insert_checked before x)
        go none c = inr c
        go (some ys) (s, same, apart) =
            into ys same apart (insert_checked before x ys) (insert_checked-Outcome x ys s)
