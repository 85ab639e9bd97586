-- ===== src/Node/Lists/Clean.antt =====
-- What `cleanList` keeps.
use warewulf.Common.{
  ◌≡◌, refl, Bool, true, false, List, [], ◌∷◌, ◌||◌, any, drop, In, inl, inr, ◌↔◌, arith,
  Bool-cases, ap, ◌∙◌, subst, In-keep, In-any, any-In,
}
use warewulf.Common.Text.{Text, text_eq, text_eq_iff, text_eq_refl, has_prefix}
use warewulf.Node.Lists.{is_negated, neg_list, not_negate, clean_list}

-- `"~" + tok`
abbrev pub negation : Text → Text
negation tok = b'~' ∷ tok

is_negated-negation : (tok : Text) → is_negated (negation tok) ≡ true
unfolding is_negated
is_negated-negation tok = refl

is_negated_inv : (tok : Text) → is_negated tok ≡ true → tok ≡ negation (drop 1 tok)
unfolding is_negated has_prefix
is_negated_inv [] h = cc
is_negated_inv (c ∷ tok) h = ground arith

In-neg_list : (tok : Text) (list : List Text) → In tok (neg_list list) ↔ In (negation tok) list
unfolding neg_list
In-neg_list tok [] = (λ i. i, λ i. i)
In-neg_list tok (t ∷ list) = elim (Bool-cases (is_negated t)) [
  | inl e ↦ rw e (
    λ i. elim i [
      | inl q ↦ inl (is_negated_inv t e ∙ ap negation q)
      | inr j ↦ inr ((In-neg_list tok list).0 j)
    ],
    λ i. elim i [ inl q ↦ inl (ap (drop 1) q) | inr j ↦ inr ((In-neg_list tok list).1 j) ],
  )
  | inr e ↦ rw e (
    λ i. inr ((In-neg_list tok list).0 i),
    λ i. elim i [
      | inl q ↦ absurd (ground (arith, e, ap is_negated q, is_negated-negation tok))
      | inr j ↦ (In-neg_list tok list).1 j
    ],
  )
]

-- The test of the inner loop: the token against one negated name.
abbrev hits : Text → Text → Bool
hits tok n = text_eq tok n || text_eq tok (negation n)

not_negate-false :
    (tok n : Text) (neg : List Text) → In n neg → hits tok n ≡ true → not_negate neg tok ≡ false
unfolding not_negate
not_negate-false tok n neg i h = rw (In-any (hits tok) n neg i h)

not_negate-true :
    (tok : Text) (list : List Text)
    → is_negated tok ≡ false
    → ¬ In (negation tok) list
    → not_negate (neg_list list) tok ≡ true
unfolding not_negate
not_negate-true tok list plain absent = elim (Bool-cases (any (hits tok) (neg_list list))) [
  | inr e ↦ rw e
  | inl e ↦
      let (n, i, h) = any-In (hits tok) (neg_list list) e in
      absurd (clash n ((In-neg_list n list).0 i) h)
]
  where
    clash : (n : Text) → In (negation n) list → hits tok n ≡ true → ⊥
    clash n i h = elim (Bool-cases (text_eq tok n)) [
      | inl e ↦ absent (rw (← (text_eq_iff tok n).0 e) at i)
      | inr e ↦
          let same : tok ≡ negation n = (text_eq_iff tok (negation n)).0 (ground arith) in
          ground (arith, plain, ap is_negated same, is_negated-negation n)
    ]

-- `cleanList` keeps a token just if it is no negation and the list does not hold its negation.
pub In-clean_list :
    (tok : Text) (list : List Text)
    → In tok (clean_list list)
      ↔ (In tok list × (is_negated tok ≡ false) × (¬ In (negation tok) list))
unfolding clean_list
In-clean_list tok list = (
  λ i. down ((In-keep _ tok list).0 i),
  λ (i, plain, absent). (In-keep _ tok list).1 (i, not_negate-true tok list plain absent),
)
  where
    down :
        In tok list × (not_negate (neg_list list) tok ≡ true)
        → In tok list × (is_negated tok ≡ false) × (¬ In (negation tok) list)
    down (i, h) = (i, plain, absent)
      where
        absent : ¬ In (negation tok) list
        absent j =
            let no : not_negate (neg_list list) tok ≡ false =
              not_negate-false tok tok (neg_list list) ((In-neg_list tok list).1 j)
                (rw (text_eq_refl tok)) in
            ground arith

        plain : is_negated tok ≡ false
        plain = elim (Bool-cases (is_negated tok)) [
          | inr e ↦ e
          | inl e ↦
              let self : tok ≡ negation (drop 1 tok) = is_negated_inv tok e in
              let hit : hits tok (drop 1 tok) ≡ true =
                ground (arith, (text_eq_iff tok (negation (drop 1 tok))).1 self) in
              let no : not_negate (neg_list list) tok ≡ false =
                not_negate-false tok (drop 1 tok) (neg_list list)
                  ((In-neg_list (drop 1 tok) list).1 (subst (λ t. In t list) self i)) hit in
              ground arith
        ]
