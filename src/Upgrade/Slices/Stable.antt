-- ===== src/Upgrade/Slices/Stable.antt =====
-- What `replaceOverlay` leaves, and what doing it again gives.
use warewulf.Common.{
  ◌≡◌, ◌≢◌, refl, sym, ◌∙◌, ap, subst, Bool, true, false, not, ◌||◌, List, [], ◌∷◌, ◌++◌, none,
  some, arith, inl, inr, ◌⊎◌, ◌↔◌, In, Distinct, Bool-cases, keep, length, In-append_left,
  In-append_right, In-append_inv,
}
use warewulf.Common.Text.{Text, text_eq, text_eq_iff, text_eq_refl, contains, contains_iff}
use warewulf.Upgrade.Slices.{index_of, replace_slice_element, new_replacements, replace_overlay}
use warewulf.Upgrade.Slices.Replaced.{
  index_of-cases, replace_slice_element_lem, In-new_replacements, Distinct-append, append-Distinct,
  keep-Distinct,
}

keep_nothing :
    (p : Text → Bool) (xs : List Text) → ((v : Text) → In v xs → p v ≡ false) → keep p xs ≡ []
keep_nothing p [] h = refl
keep_nothing p (x ∷ xs) h = rw (h x (inl refl)) (keep_nothing p xs (λ v i. h v (inr i)))

keep_one :
    (p : Text → Bool) (t : Text) (xs : List Text)
    → Distinct xs
    → In t xs
    → p t ≡ true
    → ((v : Text) → In v xs → v ≢ t → p v ≡ false)
    → keep p xs ≡ t ∷ []
keep_one p t [] d i h others = absurd i
keep_one p t (x ∷ xs) d (inl q) h others =
    let px : p x ≡ true = ap p q ∙ h in
    rw px (
      ap (λ z. z ∷ keep p xs) q
      ∙ ap (λ z. t ∷ z)
          (keep_nothing p xs
            (λ v i. others v (inr i) (λ e. d.0 (subst (λ z. In z xs) (e ∙ sym q) i)))))
keep_one p t (x ∷ xs) d (inr i) h others =
    rw (others x (inl refl) (λ e. d.0 (subst (λ z. In z xs) (sym e) i)))
      (keep_one p t xs d.1 i h (λ v j. others v (inr j)))

module _ (t : Text) (rs : List Text) where
  replace_overlay-absent : (xs : List Text) → index_of xs t ≡ none → replace_overlay xs t rs ≡ xs
  unfolding replace_overlay replace_slice_element
  replace_overlay-absent xs e = rw (replace_overlay, e) refl

  replace_overlay-found :
      (xs before after : List Text)
      → index_of xs t ≡ some (length before)
      → xs ≡ before ++ t ∷ after
      → replace_overlay xs t rs ≡ before ++ (new_replacements xs t rs ++ after)
  unfolding replace_overlay
  replace_overlay-found xs before after e split =
      rw (replace_overlay, e)
        (ap (λ z. replace_slice_element z (some (length before)) (new_replacements xs t rs)) split
          ∙ replace_slice_element_lem before t after (new_replacements xs t rs))

  -- The names of the list, less the one to replace, and with its replacements where it was there.
  abbrev pub Replaces : List Text → List Text → Type 0
  Replaces xs ys = (v : Text) → In v ys ↔ ((In v xs × (v ≢ t)) ⊎ (In t xs × In v rs))

  module _ (before after new : List Text) where
    found-Replaces :
        (xs : List Text)
        → xs ≡ before ++ t ∷ after
        → Distinct (before ++ t ∷ after)
        → ((v : Text) → In v new ↔ (In v rs × ((¬ In v xs) ⊎ (v ≡ t))))
        → Replaces xs (before ++ (new ++ after))
    found-Replaces xs split distinct exact v =
        let (_, tail, apart) = append-Distinct before (t ∷ after) distinct in
        let there : In t xs = subst (In t) (sym split) (In-append_right t before _ (inl refl)) in
        let in_before : In v before → In v xs =
          λ i. subst (In v) (sym split) (In-append_left v before _ i) in
        let in_after : In v after → In v xs =
          λ i. subst (In v) (sym split) (In-append_right v before _ (inr i)) in
        (
          λ i. elim (In-append_inv v before _ i) [
            | inl j ↦ inl (in_before j, λ e. apart v j (inl (sym e)))
            | inr j ↦ elim (In-append_inv v new after j) [
              | inl k ↦ inr (there, ((exact v).0 k).0)
              | inr k ↦ inl (in_after k, λ e. tail.0 (subst (λ z. In z after) e k))
            ]
          ],
          λ c. elim c [
            | inl (i, other) ↦ elim (In-append_inv v before _ (subst (In v) split i)) [
              | inl j ↦ In-append_left v before _ j
              | inr (inl q) ↦ absurd (other (sym q))
              | inr (inr j) ↦ In-append_right v before _ (In-append_right v new after j)
            ]
            | inr (_, i) ↦ elim (Bool-cases (contains xs v)) [
              | inr e ↦ In-append_right v before _ (
                  In-append_left v new after (
                    (exact v).1
                      (i, inl (λ k. absurd (ground (arith, e, (contains_iff xs v).1 k))))))
              | inl e ↦ elim (Bool-cases (text_eq v t)) [
                | inl q ↦
                    In-append_right v before _
                      (In-append_left v new after ((exact v).1 (i, inr ((text_eq_iff v t).0 q))))
                | inr q ↦
                    elim (In-append_inv v before _ (subst (In v) split ((contains_iff xs v).0 e))) [
                      | inl j ↦ In-append_left v before _ j
                      | inr (inl r) ↦ absurd (ground (arith, q, (text_eq_iff v t).1 (sym r)))
                      | inr (inr j) ↦ In-append_right v before _ (In-append_right v new after j)
                    ]
              ]
            ]
          ],
        )

    found-Distinct :
        (xs : List Text)
        → xs ≡ before ++ t ∷ after
        → Distinct (before ++ t ∷ after)
        → Distinct new
        → ((v : Text) → In v new ↔ (In v rs × ((¬ In v xs) ⊎ (v ≡ t))))
        → Distinct (before ++ (new ++ after))
    found-Distinct xs split distinct fresh exact =
        let (head, tail, apart) = append-Distinct before (t ∷ after) distinct in
        let no_after : (v : Text) → In v new → ¬ In v after = λ v i j. elim ((exact v).0 i).1 [
          | inl absent ↦ absent (subst (In v) (sym split) (In-append_right v before _ (inr j)))
          | inr q ↦ tail.0 (subst (λ z. In z after) q j)
        ] in
        Distinct-append before (new ++ after) head (Distinct-append new after fresh tail.1 no_after)
          (λ v i j. elim (In-append_inv v new after j) [
            | inl k ↦ elim ((exact v).0 k).1 [
              | inl absent ↦ absent (subst (In v) (sym split) (In-append_left v before _ i))
              | inr q ↦ apart v i (inl (sym q))
            ]
            | inr k ↦ apart v i (inr k)
          ])

  -- Replacing again.
  replace_overlay-again :
      (xs : List Text)
      → Distinct rs
      → ((v : Text) → In t xs → In v rs → In v xs)
      → (In t xs → In t rs)
      → replace_overlay xs t rs ≡ xs
  replace_overlay-again xs distinct covered kept = elim (index_of-cases xs t) [
    | inl (e, absent) ↦ replace_overlay-absent xs e
    | inr (i, e, (before, after, split, at, absent)) ↦
        let there : In t xs = subst (In t) (sym split) (In-append_right t before _ (inl refl)) in
        let alone : new_replacements xs t rs ≡ t ∷ [] =
          unfold new_replacements in
          keep_one (λ v. not (contains xs v) || text_eq v t) t rs distinct (kept there)
            (ground (arith, text_eq_refl t))
            (λ v j other.
              ground
                (arith, (contains_iff xs v).1 (covered v there j), (text_eq_iff v t).0, other)) in
        replace_overlay-found xs before after (e ∙ ap some at) split
        ∙ ap (λ z. before ++ (z ++ after)) alone
        ∙ sym split
  ]

  -- In lists that name each overlay once, `replaceOverlay` puts the replacements for the overlay,
  -- if it is there, and keeps every other name; each name still stands once, and replacing again
  -- changes nothing.
  pub replace_overlay_lem :
      (xs : List Text)
      → Distinct xs
      → Distinct rs
      → Distinct (replace_overlay xs t rs)
        × Replaces xs (replace_overlay xs t rs)
        × (replace_overlay (replace_overlay xs t rs) t rs ≡ replace_overlay xs t rs)
  replace_overlay_lem xs distinct fresh = (
    replaced.0,
    replaced.1,
    replace_overlay-again _ fresh (λ v i j. (replaced.1 v).1 (inr (found i, j)))
        (λ i. elim ((replaced.1 t).0 i) [ inl (_, other) ↦ absurd (other refl) | inr (_, j) ↦ j ]),
  )
    where
      replaced : Distinct (replace_overlay xs t rs) × Replaces xs (replace_overlay xs t rs)
      replaced = elim (index_of-cases xs t) [
        | inl (e, absent) ↦ rw (replace_overlay-absent xs e) (
          distinct,
          λ v. (
            λ i. inl (i, λ q. absent (subst (λ z. In z xs) q i)),
            λ c. elim c [ inl (i, _) ↦ i | inr (i, _) ↦ absurd (absent i) ],
          ),
        )
        | inr (i, e, (before, after, split, at, absent)) ↦
            let once = subst Distinct split distinct in
            let exact = λ (v : Text). In-new_replacements v t xs rs in
            let new_once : Distinct (new_replacements xs t rs) =
              unfold new_replacements in
              keep-Distinct (λ w. not (contains xs w) || text_eq w t) rs fresh in
            rw (replace_overlay-found xs before after (e ∙ ap some at) split) (
              found-Distinct before after (new_replacements xs t rs) xs split once new_once exact,
              found-Replaces before after (new_replacements xs t rs) xs split once exact,
            )
      ]

      found : In t (replace_overlay xs t rs) → In t xs
      found i = elim ((replaced.1 t).0 i) [ inl (j, _) ↦ j | inr (j, _) ↦ j ]
