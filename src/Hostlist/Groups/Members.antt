-- ===== src/Hostlist/Groups/Members.antt =====
-- Which names `resolveGroups` lists.
use warewulf.Common.{
  ◌≡◌, true, false, List, [], ◌∷◌, ◌++◌, ◌⊎◌, inl, inr, In, arith, Bool-cases, In-append_left,
  In-append_right, In-append_inv, Distinct, ◌↔◌,
}
use warewulf.Common.Text.{
  Text, text_eq, contains, contains-In, In-contains, has_prefix, trim_prefix,
}
use warewulf.Hostlist.Groups.{
  group_prefix, Seen, add, add_all, resolve_token, resolve_tokens, resolve_groups, Names, Named,
}

Distinct-append : (xs : List Text) (s : Text) → Distinct xs → ¬ In s xs → Distinct (xs ++ s ∷ [])
Distinct-append [] s d n = (λ i. i, tt)
Distinct-append (x ∷ xs) s d n =
    (λ i. apart (In-append_inv x xs (s ∷ []) i), Distinct-append xs s d.1 (λ i. n (inr i)))
  where
    apart : In x xs ⊎ In x (s ∷ []) → ⊥
    apart (inl i) = d.0 i
    apart (inr (inl e)) = n (inl (cc))
    apart (inr (inr i)) = i

-- `seen` and `result` hold the same names, each once in `result`.
record IsGood (st : Seen) : Type 0 where
  distinct : Distinct st.result
  shown : (x : Text) → In x st.seen → In x st.result
  kept : (x : Text) → In x st.result → In x st.seen

add-IsGood : (s : Text) (st : Seen) → IsGood st → IsGood (add s st)
unfolding add
add-IsGood s st g = elim (Bool-cases (contains st.seen s)) [
  | inl e ↦ rw e g
  | inr e ↦ rw e (record {
    distinct =
        Distinct-append st.result s g.distinct
          (λ i. absurd (ground (arith, In-contains st.seen s (g.kept s i))));
    shown = λ x. elim [
      | inl p ↦ In-append_right x st.result (s ∷ []) (inl p)
      | inr i ↦ In-append_left x st.result (s ∷ []) (g.shown x i)
    ];
    kept = λ x i. back x (In-append_inv x st.result (s ∷ []) i);
  })
]
  where
    back : (x : Text) → In x st.result ⊎ In x (s ∷ []) → In x (s ∷ st.seen)
    back x (inl i) = inr (g.kept x i)
    back x (inr (inl p)) = inl p
    back x (inr (inr i)) = absurd i

add_all-IsGood : (ids : List Text) (st : Seen) → IsGood st → IsGood (add_all ids st)
unfolding add_all
add_all-IsGood [] st g = g
add_all-IsGood (id ∷ ids) st g = add_all-IsGood ids (add id st) (add-IsGood id st g)

-- A name is in the result of `add` just if it was there or is the one that is added.
add-In : (s x : Text) (st : Seen) → IsGood st → In x (add s st).result ↔ (In x st.result ⊎ (s ≡ x))
unfolding add
add-In s x st g = elim (Bool-cases (contains st.seen s)) [
  | inl e ↦ rw e (λ i. inl i, old e)
  | inr e ↦ rw e (λ i. split_last (In-append_inv x st.result (s ∷ []) i), join_last)
]
  where
    old : contains st.seen s ≡ true → In x st.result ⊎ (s ≡ x) → In x st.result
    old e (inl i) = i
    old e (inr p) = rw p at (g.shown s (contains-In st.seen s e))

    split_last : In x st.result ⊎ In x (s ∷ []) → In x st.result ⊎ (s ≡ x)
    split_last (inl i) = inl i
    split_last (inr (inl p)) = inr p
    split_last (inr (inr i)) = absurd i

    join_last : In x st.result ⊎ (s ≡ x) → In x (st.result ++ s ∷ [])
    join_last (inl i) = In-append_left x st.result (s ∷ []) i
    join_last (inr p) = In-append_right x st.result (s ∷ []) (inl p)

add_all-In :
    (ids : List Text) (x : Text) (st : Seen)
    → IsGood st
    → In x (add_all ids st).result ↔ (In x st.result ⊎ In x ids)
unfolding add_all
add_all-In [] x st g = (inl, λ d. elim d [ inl i ↦ i | inr i ↦ absurd i ])
add_all-In (id ∷ ids) x st g =
    let rest = add_all-In ids x (add id st) (add-IsGood id st g) in
    let first = add-In id x st g in (λ i. out first (rest.0 i), λ d. rest.1 (back first d))
  where
    out :
        In x (add id st).result ↔ (In x st.result ⊎ (id ≡ x))
        → In x (add id st).result ⊎ In x ids
        → In x st.result ⊎ ((id ≡ x) ⊎ In x ids)
    out first (inl i) = elim (first.0 i) [ inl j ↦ inl j | inr e ↦ inr (inl e) ]
    out first (inr i) = inr (inr i)

    back :
        In x (add id st).result ↔ (In x st.result ⊎ (id ≡ x))
        → In x st.result ⊎ ((id ≡ x) ⊎ In x ids)
        → In x (add id st).result ⊎ In x ids
    back first (inl i) = inl (first.1 (inl i))
    back first (inr (inl e)) = inl (first.1 (inr e))
    back first (inr (inr i)) = inr i

module _ (members : Text → List Text) where
  resolve_token-IsGood :
      (tok : Text) (st : Seen) → IsGood st → IsGood (resolve_token members tok st)
  unfolding resolve_token
  resolve_token-IsGood tok st g = elim (Bool-cases (has_prefix tok group_prefix)) [
    | inr e ↦ rw e (add-IsGood tok st g)
    | inl e ↦ elim (Bool-cases (text_eq (trim_prefix tok group_prefix) [])) [
      | inl e' ↦ rw (e, e') g
      | inr e' ↦ rw (e, e') (add_all-IsGood (members (trim_prefix tok group_prefix)) st g)
    ]
  ]

  resolve_token_plain :
      (tok : Text) (st : Seen)
      → has_prefix tok group_prefix ≡ false
      → resolve_token members tok st ≡ add tok st
  unfolding resolve_token
  resolve_token_plain tok st e = rw e

  resolve_token_nameless :
      (tok : Text) (st : Seen)
      → has_prefix tok group_prefix ≡ true
      → text_eq (trim_prefix tok group_prefix) [] ≡ true
      → resolve_token members tok st ≡ st
  unfolding resolve_token
  resolve_token_nameless tok st e e' = rw (e, e')

  resolve_token_group :
      (tok : Text) (st : Seen)
      → has_prefix tok group_prefix ≡ true
      → text_eq (trim_prefix tok group_prefix) [] ≡ false
      → resolve_token members tok st ≡ add_all (members (trim_prefix tok group_prefix)) st
  unfolding resolve_token
  resolve_token_group tok st e e' = rw (e, e')

  resolve_token-In :
      (tok x : Text) (st : Seen)
      → IsGood st
      → In x (resolve_token members tok st).result ↔ (In x st.result ⊎ Names members tok x)
  resolve_token-In tok x st g = elim (Bool-cases (has_prefix tok group_prefix)) [
    | inr e ↦ rw (resolve_token_plain tok st e) (plain e (add-In tok x st g))
    | inl e ↦ elim (Bool-cases (text_eq (trim_prefix tok group_prefix) [])) [
      | inl e' ↦ rw (resolve_token_nameless tok st e e') (λ i. inl i, λ d. nameless e e' d)
      | inr e' ↦
          rw (resolve_token_group tok st e e')
            (group e e' (add_all-In (members (trim_prefix tok group_prefix)) x st g))
    ]
  ]
    where
      plain :
          has_prefix tok group_prefix ≡ false
          → In x (add tok st).result ↔ (In x st.result ⊎ (tok ≡ x))
          → In x (add tok st).result ↔ (In x st.result ⊎ Names members tok x)
      plain e a = (
        λ i. elim (a.0 i) [ inl j ↦ inl j | inr p ↦ inr (inl (e, p)) ],
        λ d. elim d [
          | inl j ↦ a.1 (inl j)
          | inr (inl (_, p)) ↦ a.1 (inr p)
          | inr (inr (e', _, _)) ↦ cc
        ],
      )

      nameless :
          has_prefix tok group_prefix ≡ true
          → text_eq (trim_prefix tok group_prefix) [] ≡ true
          → In x st.result ⊎ Names members tok x
          → In x st.result
      nameless e e' (inl i) = i
      nameless e e' (inr (inl (e'', _))) = cc
      nameless e e' (inr (inr (_, e'', _))) = cc

      group :
          has_prefix tok group_prefix ≡ true
          → text_eq (trim_prefix tok group_prefix) [] ≡ false
          → In x (add_all (members (trim_prefix tok group_prefix)) st).result
            ↔ (In x st.result ⊎ In x (members (trim_prefix tok group_prefix)))
          → In x (add_all (members (trim_prefix tok group_prefix)) st).result
            ↔ (In x st.result ⊎ Names members tok x)
      group e e' a = (
        λ i. elim (a.0 i) [ inl j ↦ inl j | inr p ↦ inr (inr (e, e', p)) ],
        λ d. elim d [
          | inl j ↦ a.1 (inl j)
          | inr (inl (e'', _)) ↦ cc
          | inr (inr (_, _, p)) ↦ a.1 (inr p)
        ],
      )

  resolve_tokens-IsGood :
      (tokens : List Text) (st : Seen) → IsGood st → IsGood (resolve_tokens members tokens st)
  unfolding resolve_tokens
  resolve_tokens-IsGood [] st g = g
  resolve_tokens-IsGood (tok ∷ tokens) st g =
      resolve_tokens-IsGood tokens _ (resolve_token-IsGood tok st g)

  resolve_tokens-In :
      (tokens : List Text) (x : Text) (st : Seen)
      → IsGood st
      → In x (resolve_tokens members tokens st).result ↔ (In x st.result ⊎ Named members tokens x)
  unfolding resolve_tokens
  resolve_tokens-In [] x st g = (inl, λ d. elim d [ inl i ↦ i | inr i ↦ absurd i ])
  resolve_tokens-In (tok ∷ tokens) x st g =
      let rest = resolve_tokens-In tokens x _ (resolve_token-IsGood tok st g) in
      let first = resolve_token-In tok x st g in
      (λ i. out first (rest.0 i), λ d. rest.1 (back first d))
    where
      out :
          In x (resolve_token members tok st).result ↔ (In x st.result ⊎ Names members tok x)
          → In x (resolve_token members tok st).result ⊎ Named members tokens x
          → In x st.result ⊎ (Names members tok x ⊎ Named members tokens x)
      out first (inl i) = elim (first.0 i) [ inl j ↦ inl j | inr e ↦ inr (inl e) ]
      out first (inr i) = inr (inr i)

      back :
          In x (resolve_token members tok st).result ↔ (In x st.result ⊎ Names members tok x)
          → In x st.result ⊎ (Names members tok x ⊎ Named members tokens x)
          → In x (resolve_token members tok st).result ⊎ Named members tokens x
      back first (inl i) = inl (first.1 (inl i))
      back first (inr (inl e)) = inl (first.1 (inr e))
      back first (inr (inr i)) = inr i

  -- Each name stands once in the result, and a name stands there just if some token names it: a
  -- plain token itself, or a group token with a name behind its `@` by that group's members.
  pub resolve_groups_lem :
      (tokens : List Text)
      → Distinct (resolve_groups members tokens)
        × ((x : Text) → In x (resolve_groups members tokens) ↔ Named members tokens x)
  unfolding resolve_groups
  resolve_groups_lem tokens =
      ((resolve_tokens-IsGood tokens start start-IsGood).distinct, λ x. exact x)
    where
      start : Seen
      start = record { seen = []; result = [] }

      start-IsGood : IsGood start
      start-IsGood = record { distinct = tt; shown = λ x i. i; kept = λ x i. i }

      exact :
          (x : Text) → In x (resolve_tokens members tokens start).result ↔ Named members tokens x
      exact x =
          let both = resolve_tokens-In tokens x start start-IsGood in
          (λ i. elim (both.0 i) [ inl j ↦ absurd j | inr n ↦ n ], λ n. both.1 (inr n))
