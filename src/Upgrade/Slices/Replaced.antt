-- ===== src/Upgrade/Slices/Replaced.antt =====
-- What `replaceOverlay` does to a list in which each name stands once.
use warewulf.Common.{
  ◌≡◌, ◌≢◌, refl, sym, ap, subst, Bool, true, not, ◌||◌, ℕ, suc, List, [], ◌∷◌, ◌++◌, none, some,
  arith, inl, inr, ◌⊎◌, ◌↔◌, In, Distinct, Bool-cases, keep, take, drop, length, length-append, ltb,
  In-keep, In-append_left, In-append_right, In-append_inv,
}
use warewulf.Common.Text.{Text, text_eq, text_eq_iff, contains, contains_iff}
use warewulf.Upgrade.Slices.{index_of, replace_slice_element, new_replacements}

-- Where the item stands for the first time.
abbrev pub FoundAt : List Text → Text → ℕ → Type 0
FoundAt xs t i =
    (before : List Text) × (after : List Text) × (xs ≡ before ++ t ∷ after)
    × (i ≡ length before)
    × (¬ In t before)

pub index_of-cases :
    (xs : List Text) (t : Text)
    → ((index_of xs t ≡ none) × (¬ In t xs)) ⊎ ((i : ℕ) × (index_of xs t ≡ some i) × FoundAt xs t i)
unfolding index_of
index_of-cases [] t = inl (refl, λ i. i)
index_of-cases (x ∷ xs) t = elim (Bool-cases (text_eq x t)) [
  | inl e ↦ inr (0, rw e refl, ([], xs, ap (λ z. z ∷ xs) ((text_eq_iff x t).0 e), refl, λ i. i))
  | inr e ↦
      let apart : x ≢ t = λ q. absurd (ground (arith, e, (text_eq_iff x t).1 q)) in
      elim (index_of-cases xs t) [
        | inl (f, absent) ↦ inl (rw (e, f) refl, λ i. elim i [ inl q ↦ apart q | inr j ↦ absent j ])
        | inr (i, f, (before, after, split, at, absent)) ↦ inr (
          suc i,
          rw (e, f) refl,
          (
            x ∷ before,
            after,
            ap (λ z. x ∷ z) split,
            ap suc at,
            λ k. elim k [ inl q ↦ apart q | inr j ↦ absent j ],
          ),
        )
      ]
]

take-append : (xs ys : List Text) → take (length xs) (xs ++ ys) ≡ xs
take-append [] ys = refl
take-append (x ∷ xs) ys = ap (λ z. x ∷ z) (take-append xs ys)

drop-append :
    (xs : List Text) (y : Text) (ys : List Text) → drop (suc (length xs)) (xs ++ y ∷ ys) ≡ ys
drop-append [] y ys = refl
drop-append (x ∷ xs) y ys = drop-append xs y ys

pub replace_slice_element_lem :
    (before : List Text) (t : Text) (after replacement : List Text)
    → replace_slice_element (before ++ t ∷ after) (some (length before)) replacement
      ≡ before ++ (replacement ++ after)
unfolding replace_slice_element
replace_slice_element_lem before t after replacement =
    let inside : ltb (length before) (length (before ++ t ∷ after)) ≡ true =
      ground (arith, length-append before (t ∷ after)) in
    rw (inside, take-append before (t ∷ after), drop-append before t after) refl

pub In-new_replacements :
    (v t : Text) (xs rs : List Text)
    → In v (new_replacements xs t rs) ↔ (In v rs × ((¬ In v xs) ⊎ (v ≡ t)))
unfolding new_replacements
In-new_replacements v t xs rs =
    let kept = In-keep (λ w. not (contains xs w) || text_eq w t) v rs in
    (
      λ i.
          let (j, p) = kept.0 i in
          (
            j,
            elim (Bool-cases (text_eq v t)) [
              | inl e ↦ inr ((text_eq_iff v t).0 e)
              | inr e ↦ inl (λ k. absurd (ground (arith, p, e, (contains_iff xs v).1 k)))
            ],
          ),
      λ (j, c). kept.1 (
        j,
        elim (Bool-cases (contains xs v)) [
          | inr e ↦ ground (arith, e)
          | inl e ↦ elim c [
            | inl absent ↦ absurd (absent ((contains_iff xs v).0 e))
            | inr q ↦ ground (arith, (text_eq_iff v t).1 q)
          ]
        ],
      ),
    )

pub Distinct-append :
    (xs ys : List Text)
    → Distinct xs
    → Distinct ys
    → ((v : Text) → In v xs → ¬ In v ys)
    → Distinct (xs ++ ys)
Distinct-append [] ys h k apart = k
Distinct-append (x ∷ xs) ys h k apart = (
  λ i. elim (In-append_inv x xs ys i) [ inl j ↦ h.0 j | inr j ↦ apart x (inl refl) j ],
  Distinct-append xs ys h.1 k (λ v i. apart v (inr i)),
)

pub append-Distinct :
    (xs ys : List Text)
    → Distinct (xs ++ ys)
    → Distinct xs × Distinct ys × ((v : Text) → In v xs → ¬ In v ys)
append-Distinct [] ys h = (tt, h, λ v i. absurd i)
append-Distinct (x ∷ xs) ys h =
    let (a, b, apart) = append-Distinct xs ys h.1 in
    (
      (λ i. h.0 (In-append_left x xs ys i), a),
      b,
      λ v i. elim i [
        | inl q ↦ λ j. h.0 (In-append_right x xs ys (subst (λ z. In z ys) (sym q) j))
        | inr k ↦ apart v k
      ],
    )

pub keep-Distinct : (p : Text → Bool) (xs : List Text) → Distinct xs → Distinct (keep p xs)
keep-Distinct p [] h = tt
keep-Distinct p (x ∷ xs) h = elim (Bool-cases (p x)) [
  | inl e ↦ rw e (λ i. h.0 ((In-keep p x xs).0 i).0, keep-Distinct p xs h.1)
  | inr e ↦ rw e (keep-Distinct p xs h.1)
]
