-- ===== src/Node/Queries/Groups.antt =====
-- Which groups `ListAllGroups` gives.
use warewulf.Common.{
  ◌≡◌, refl, sym, ◌∙◌, false, ◌||◌, List, [], ◌∷◌, ◌++◌, ◌↔◌, ◌⊎◌, inl, inr, In, arith, Bool-cases,
  if◌then◌else◌, In-append_left, In-append_right, In-append_inv, ap,
}
use warewulf.Common.Text.{Text, contains, contains_iff, text_le}
use warewulf.Common.Maps.{Map}
use warewulf.Common.Sort.{IsSorted, sort_texts-IsSorted, In-sort_texts, sort_texts-In}
use warewulf.Node.Types.{Profile, Node, NodesYaml}
use warewulf.Node.Lists.{is_negated}
use warewulf.Node.Queries.{add_groups, add_groups_of, list_all_groups}

abbrev add_group : Text → List Text → List Text
add_group g seen = if is_negated g || contains seen g then seen else seen ++ g ∷ []

In-add_group :
    (x g : Text) (seen : List Text)
    → In x (add_group g seen) ↔ (In x seen ⊎ ((g ≡ x) × (is_negated x ≡ false)))
In-add_group x g seen = elim (Bool-cases (is_negated g)) [
  | inl n ↦
      rw n (
        inl,
        λ i. elim i [ inl j ↦ j | inr (e, m) ↦ absurd (ground (arith, n, m, ap is_negated e)) ],
      )
  | inr n ↦ elim (Bool-cases (contains seen g)) [
    | inl c ↦
        rw (n, c)
          (inl, λ i. elim i [ inl j ↦ j | inr (e, m) ↦ rw e at ((contains_iff seen g).0 c) ])
    | inr c ↦
        rw (n, c)
          (
            λ i. elim (In-append_inv x seen (g ∷ []) i) [
              | inl j ↦ inl j
              | inr (inl e) ↦ inr (e, sym (ap is_negated e) ∙ n)
              | inr (inr f) ↦ absurd f
            ],
            λ i. elim i [
              | inl j ↦ In-append_left x seen _ j
              | inr (e, m) ↦ In-append_right x seen _ (inl e)
            ],
          )
  ]
]

In-add_groups :
    (x : Text) (groups seen : List Text)
    → In x (add_groups groups seen) ↔ (In x seen ⊎ (In x groups × (is_negated x ≡ false)))
unfolding add_groups
In-add_groups x [] seen = (inl, λ i. elim i [ inl j ↦ j | inr (f, m) ↦ absurd f ])
In-add_groups x (g ∷ groups) seen = (
  λ i. elim ((In-add_groups x groups (add_group g seen)).0 i) [
    | inl j ↦ elim ((In-add_group x g seen).0 j) [ inl k ↦ inl k | inr (e, m) ↦ inr (inl e, m) ]
    | inr (j, m) ↦ inr (inr j, m)
  ],
  λ i. (In-add_groups x groups (add_group g seen)).1 (elim i [
    | inl j ↦ inl ((In-add_group x g seen).1 (inl j))
    | inr (inl e, m) ↦ inl ((In-add_group x g seen).1 (inr (e, m)))
    | inr (inr j, m) ↦ inr (j, m)
  ]),
)

-- Some entry of the map has the group.
abbrev pub Declares : {V : Type 0} → (V → List Text) → Map V → Text → Type 0
Declares groups m x = (n : Text) × (v : _) × In (n, v) m × In x (groups v)

module _ {V : Type 0} (groups : V → List Text) where
  In-add_groups_of :
      (x : Text) (m : Map V) (seen : List Text)
      → In x (add_groups_of groups m seen)
        ↔ (In x seen ⊎ (Declares groups m x × (is_negated x ≡ false)))
  unfolding add_groups_of
  In-add_groups_of x [] seen = (inl, λ i. elim i [ inl j ↦ j | inr ((n, v, f, h), m) ↦ absurd f ])
  In-add_groups_of x ((k, w) ∷ m) seen = (
    λ i. elim ((In-add_groups_of x m (add_groups (groups w) seen)).0 i) [
      | inl j ↦ elim ((In-add_groups x (groups w) seen).0 j) [
        | inl s ↦ inl s
        | inr (h, p) ↦ inr ((k, w, inl refl, h), p)
      ]
      | inr ((n, v, j, h), p) ↦ inr ((n, v, inr j, h), p)
    ],
    λ i. (In-add_groups_of x m (add_groups (groups w) seen)).1 (elim i [
      | inl s ↦ inl ((In-add_groups x (groups w) seen).1 (inl s))
      | inr ((n, v, inl e, h), p) ↦
          inl ((In-add_groups x (groups w) seen).1 (inr (rw (sym (ap (λ z. z.1) e)) at h, p)))
      | inr ((n, v, inr j, h), p) ↦ inr ((n, v, j, h), p)
    ]),
  )

-- `ListAllGroups` gives a sorted list of just the names without a negation that some node or
-- some profile has among its groups.
pub list_all_groups_lem :
    (config : NodesYaml)
    → IsSorted text_le (list_all_groups config)
      × ((x : Text)
          → In x (list_all_groups config) ↔ (
              (is_negated x ≡ false)
              × (Declares (λ (n : Node). n.profile.groups) config.nodes x
                  ⊎ Declares (λ (p : Profile). p.groups) config.node_profiles x)))
unfolding list_all_groups
list_all_groups_lem config = (
  sort_texts-IsSorted (add_groups_of of_profile config.node_profiles from_nodes),
  λ x. (
    λ i.
        elim ((In-add_groups_of of_profile x config.node_profiles from_nodes).0
          (sort_texts-In x _ i)) [
            | inl j ↦ elim ((In-add_groups_of of_node x config.nodes []).0 j) [
              | inl f ↦ absurd f
              | inr (d, n) ↦ (n, inl d)
            ]
            | inr (d, n) ↦ (n, inr d)
          ],
    λ (n, d). In-sort_texts x _ (
        (In-add_groups_of of_profile x config.node_profiles from_nodes).1 (elim d [
          | inl d ↦ inl ((In-add_groups_of of_node x config.nodes []).1 (inr (d, n)))
          | inr d ↦ inr (d, n)
        ])),
  ),
)
  where
    of_node : Node → List Text
    of_node = λ n. n.profile.groups

    of_profile : Profile → List Text
    of_profile = λ p. p.groups

    from_nodes : List Text
    from_nodes = add_groups_of of_node config.nodes []
