-- ===== src/Node/Groups/All.antt =====
-- Which nodes are in the group `all`.
use warewulf.Common.{
  ◌≡◌, refl, sym, ◌∙◌, subst, true, false, not, List, [], ◌∷◌, some, arith, Option-cases,
  Bool-cases, inl, inr, ◌↔◌, In, In-keep, any,
}
use warewulf.Common.Text.{Text, codes, contains, contains_iff, text_eq}
use warewulf.Common.Maps.{lookup, IsMap}
use warewulf.Common.Results.{Result}
use warewulf.Node.Types.{Profile, Node, NodesYaml}
use warewulf.Node.Lists.{is_negated}
use warewulf.Node.Profiles.{get_node_profiles}
use warewulf.Node.Profiles.Reach.{get_node_profiles_lem}
use warewulf.Node.Queries.{list_all_nodes}
use warewulf.Node.Queries.Answers.{list_all_nodes-Answers}
use warewulf.Node.Registry.{get_profile}
use warewulf.Node.Groups.{all_group, own_group, profile_group, has_literal_group, group_members}
use warewulf.Node.Groups.Carried.{ProfileCarries, Carries}

module _ (config : NodesYaml) (token : Text) where
  profile_group_iff :
      (id : Text)
      → is_negated id ≡ false
      → (profile_group config token id ≡ true)
        ↔ ((p : Profile) × (lookup id config.node_profiles ≡ some p) × In token p.groups)
  unfolding profile_group get_profile
  profile_group_iff id plain = elim (Option-cases (lookup id config.node_profiles)) [
    | inl e ↦
        (λ t. absurd (ground (arith, plain, e, t)), λ (p, f, i). absurd (ground (arith, e, f)))
    | inr (p, e) ↦
        rw (profile_group, plain, get_profile, e)
          (
            λ t. (p, refl, (contains_iff p.groups token).0 t),
            λ (q, f, i).
                let same : p ≡ q = cc f in
                (contains_iff p.groups token).1 (subst (λ z. In token z.groups) (sym same) i),
          )
  ]

  any_profile_iff :
      (ids : List Text)
      → ((id : Text) → In id ids → is_negated id ≡ false)
      → (any (profile_group config token) ids ≡ true) ↔ ProfileCarries config token ids
  any_profile_iff [] plain = (λ t. absurd (ground (arith, t)), λ c. absurd c)
  any_profile_iff (id ∷ ids) plain =
      let first = profile_group_iff id (plain id (inl refl)) in
      let rest = any_profile_iff ids (λ x i. plain x (inr i)) in
      elim (Bool-cases (profile_group config token id)) [
        | inl e ↦ rw e (λ _. inl (first.0 e), λ _. refl)
        | inr e ↦ rw e (
          λ t. inr (rest.0 t),
          λ c. elim c [ inl p ↦ absurd (ground (arith, e, first.1 p)) | inr c ↦ rest.1 c ],
        )
      ]

  module _ (id : Text) where
    own_group-there :
        (node : Node)
        → lookup id config.nodes ≡ some node
        → own_group config id token ≡ contains node.profile.groups token
    unfolding own_group
    own_group-there node e = rw (own_group, e) refl

    literal-own : own_group config id token ≡ true → has_literal_group config id token ≡ true
    unfolding has_literal_group
    literal-own o = rw (has_literal_group, o) refl

    literal-profiles :
        (ids : List Text)
        → own_group config id token ≡ false
        → get_node_profiles config id ≡ some ids
        → has_literal_group config id token ≡ any (profile_group config token) ids
    unfolding has_literal_group
    literal-profiles ids o l = rw (has_literal_group, o, l) refl

    -- For a node of the registry, `hasLiteralGroup` says whether the node itself or a profile that
    -- applies to it has the token among its groups.
    has_literal_group_iff :
        (node : Node)
        → lookup id config.nodes ≡ some node
        → (has_literal_group config id token ≡ true) ↔ Carries config id token
    has_literal_group_iff node e =
        let (ids, l, _, exact) = get_node_profiles_lem config id node e in
        let profiles = any_profile_iff ids (λ x i. ((exact x).0 i).1) in
        let own = contains_iff node.profile.groups token in
        elim (Bool-cases (contains node.profile.groups token)) [
          | inl c ↦ (λ _. inl (node, e, own.0 c), λ _. literal-own (own_group-there node e ∙ c))
          | inr c ↦
              let step = literal-profiles ids (own_group-there node e ∙ c) l in
              (
                λ t. inr (ids, l, profiles.0 (sym step ∙ t)),
                λ i. step ∙ elim i [
                  | inl (n, f, j) ↦
                      let same : node ≡ n = cc (sym e ∙ f) in
                      absurd (
                        ground
                          (arith, c, own.1 (subst (λ z. In token z.profile.groups) (sym same) j)))
                  | inr (ids', f, p) ↦
                      let same : ids ≡ ids' = cc (sym l ∙ f) in
                      profiles.1 (subst (ProfileCarries config token) (sym same) p)
                ],
              )
        ]

-- In a registry whose nodes are a map, the members of `all` are the nodes of the registry, less
-- those of which the node itself or a profile that applies to it has `~all` among its groups.
pub group_members-all :
    (merge_profile : Profile → Profile → Result Profile) (merge_own : Node → Node → Result Node)
    (config : NodesYaml)
    → IsMap config.nodes
    → (id : Text)
    → In id (group_members merge_profile merge_own config all_group) ↔ (
        ((node : Node) × (lookup id config.nodes ≡ some node))
        × (¬ Carries config id (codes "~all")))
unfolding group_members text_eq
group_members-all merge_profile merge_own config valid id =
    let listed = (list_all_nodes-Answers config valid).1 id in
    let kept =
      In-keep (λ id. not (has_literal_group config id (codes "~all"))) id (list_all_nodes config) in
    (
      λ i.
          let (j, t) = kept.0 i in
          let (node, e, _) = listed.0 j in
          (
            (node, e),
            λ c.
                absurd
                  (ground (arith, t, (has_literal_group_iff config (codes "~all") id node e).1 c)),
          ),
      λ ((node, e), a). kept.1 (
        listed.1 (node, e, tt),
        elim (Bool-cases (has_literal_group config id (codes "~all"))) [
          | inl t ↦ absurd (a ((has_literal_group_iff config (codes "~all") id node e).0 t))
          | inr t ↦ rw t refl
        ],
      ),
    )
