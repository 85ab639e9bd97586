-- ===== src/Node/Groups/Carried.antt =====
-- Which nodes are members of a group.
use warewulf.Common.{
  ◌≡◌, ◌≢◌, refl, sym, ◌∙◌, ap, subst, true, false, Bool, List, [], ◌∷◌, ◌++◌, none, some, arith,
  Option-cases, Bool-cases, inl, inr, ◌⊎◌, ◌↔◌, In, keep, In-keep, In-append_left, In-append_right,
  In-append_inv,
}
use warewulf.Common.Text.{Text, text_eq, text_eq_iff, contains, contains_iff, text_le}
use warewulf.Common.Maps.{lookup, keys, lookup-In-keys}
use warewulf.Common.Sort.{sort_texts-In, In-sort_texts, sort_texts-IsSorted, IsSorted}
use warewulf.Common.Results.{Result, ok, err}
use warewulf.Node.Types.{Profile, Node, NodesYaml}
use warewulf.Node.Lists.{is_negated, clean_list}
use warewulf.Node.Lists.Clean.{negation, In-clean_list}
use warewulf.Node.Profiles.{get_node_profiles}
use warewulf.Node.Registry.{no_profile, get_profile}
use warewulf.Node.Merge.{merge_profiles, merge_node}
use warewulf.Node.Merge.Composed.{Merged, merge_node-Merged, finish_node-groups}
use warewulf.Node.Groups.{all_group, in_group, group_members}

-- Some profile of the list has the token among its groups.
abbrev pub ProfileCarries : NodesYaml → Text → List Text → Type 0
ProfileCarries config token [] = ⊥
ProfileCarries config token (id ∷ ids) =
    ((p : Profile) × (lookup id config.node_profiles ≡ some p) × In token p.groups)
    ⊎ ProfileCarries config token ids

-- The node, or some profile that applies to it, has the token among its groups.
abbrev pub Carries : NodesYaml → Text → Text → Type 0
Carries config id token =
    ((n : Node) × (lookup id config.nodes ≡ some n) × In token n.profile.groups)
    ⊎ ((ids : List Text) × (get_node_profiles config id ≡ some ids)
        × ProfileCarries config token ids)

module _ (merge_profile : Profile → Profile → Result Profile)
    (merge_own : Node → Node → Result Node)
    -- mergo with `WithAppendSlice` appends the slices of the source to those of the destination
    (profile_appends : (a b c : Profile)
      → merge_profile a b ≡ ok c
      → c.groups ≡ a.groups ++ b.groups)
    (own_appends : (a b c : Node)
      → merge_own a b ≡ ok c
      → c.profile.groups ≡ a.profile.groups ++ b.profile.groups) where
  module _ (config : NodesYaml) (id : Text) (ids : List Text) (p : Profile) where
    merge_profiles-absent :
        lookup id config.node_profiles ≡ none
        → merge_profiles merge_profile merge_own config (id ∷ ids) p
          ≡ merge_profiles merge_profile merge_own config ids p
    unfolding merge_profiles get_profile
    merge_profiles-absent e = rw (e, merge_profiles, get_profile) refl

    merge_profiles-there :
        (r : Profile)
        → lookup id config.node_profiles ≡ some r
        → merge_profiles merge_profile merge_own config (id ∷ ids) p
          ≡ (elim (merge_profile p (record r { id = id })) [
            | err e ↦ err e
            | ok p' ↦ merge_profiles merge_profile merge_own config ids p'
          ])
    unfolding merge_profiles get_profile
    merge_profiles-there r e = rw (e, merge_profiles, get_profile) refl

  merge_profiles-groups :
      (config : NodesYaml) (token : Text) (ids : List Text) (p q : Profile)
      → merge_profiles merge_profile merge_own config ids p ≡ ok q
      → In token q.groups ↔ (In token p.groups ⊎ ProfileCarries config token ids)
  unfolding merge_profiles
  merge_profiles-groups config token [] p q h =
      let same : p ≡ q = cc h in
      subst (λ z. In token z.groups ↔ (In token p.groups ⊎ ⊥)) same
        (inl, λ i. elim i [ inl j ↦ j | inr f ↦ absurd f ])
  merge_profiles-groups config token (id ∷ ids) p q h =
      elim (Option-cases (lookup id config.node_profiles)) [
        | inl e ↦
            let rest =
              merge_profiles-groups config token ids p q
                (sym (merge_profiles-absent config id ids p e) ∙ h) in
            (
              λ i. elim (rest.0 i) [ inl j ↦ inl j | inr c ↦ inr (inr c) ],
              λ i. rest.1 (elim i [
                | inl j ↦ inl j
                | inr (inl (r, f, k)) ↦ absurd (ground (arith, e, f))
                | inr (inr c) ↦ inr c
              ]),
            )
        | inr (r, e) ↦
            go (λ p'. merge_profiles-groups config token ids p' q) r e
              (merge_profile p (record r { id = id })) refl
      ]
    where
      go :
          ((p' : Profile)
            → merge_profiles merge_profile merge_own config ids p' ≡ ok q
            → In token q.groups ↔ (In token p'.groups ⊎ ProfileCarries config token ids))
          → (r : Profile) → lookup id config.node_profiles ≡ some r
          → (m : Result Profile) → merge_profile p (record r { id = id }) ≡ m
          → In token q.groups ↔ (In token p.groups ⊎ ProfileCarries config token (id ∷ ids))
      go ih r e (err x) f = absurd (ground (arith, merge_profiles-there config id ids p r e, f, h))
      go ih r e (ok p') f =
          let rest = ih p' (ground (arith, merge_profiles-there config id ids p r e, f, h)) in
          let groups : p'.groups ≡ p.groups ++ r.groups = profile_appends p _ p' f in
          (
            λ i. elim (rest.0 i) [
              | inl j ↦ elim (In-append_inv token p.groups r.groups (subst (In token) groups j)) [
                | inl k ↦ inl k
                | inr k ↦ inr (inl (r, e, k))
              ]
              | inr c ↦ inr (inr c)
            ],
            λ i. rest.1 (elim i [
              | inl j ↦ inl (subst (In token) (sym groups) (In-append_left token _ r.groups j))
              | inr (inl (r', e', k)) ↦
                  let same : r' ≡ r = cc (sym e' ∙ e) in
                  inl (
                    subst (In token) (sym groups) (
                      In-append_right token p.groups r.groups
                        (subst (λ z. In token z.groups) same k)))
              | inr (inr c) ↦ inr c
            ]),
          )

  -- The groups of a merged node, by where they come from.
  merge_node-groups :
      (config : NodesYaml) (id token : Text) (node : Node)
      → merge_node merge_profile merge_own config id ≡ ok node
      → In token node.profile.groups ↔ (
          Carries config id token
          × (is_negated token ≡ false)
          × (¬ Carries config id (negation token)))
  merge_node-groups config id token node h =
      let m = merge_node-Merged merge_profile merge_own config id node h in
      let listed : node.profile.groups ≡ clean_list m.merged.profile.groups =
        sym (ap (λ n. n.profile.groups) m.finished) ∙ finish_node-groups id m.original m.merged in
      let clean = In-clean_list token m.merged.profile.groups in
      let here = carried m token in
      let there = carried m (negation token) in
      (
        λ i.
            let (j, n, a) = clean.0 (subst (In token) listed i) in
            (here.0 j, n, λ c. a (there.1 c)),
        λ (c, n, a). subst (In token) (sym listed) (clean.1 (here.1 c, n, λ j. a (there.0 j))),
      )
    where
      carried :
          (m : Merged merge_profile merge_own config id node) (t : Text)
          → In t m.merged.profile.groups ↔ Carries config id t
      carried m t =
          let groups : m.merged.profile.groups ≡ m.profile.groups ++ m.original.profile.groups =
            own_appends _ _ _ m.own in
          let composed = merge_profiles-groups config t m.ids no_profile m.profile m.composed in
          (
            λ i. elim (In-append_inv t m.profile.groups _ (subst (In t) groups i)) [
              | inl j ↦ elim (composed.0 j) [ inl f ↦ absurd f | inr c ↦ inr (m.ids, m.listed, c) ]
              | inr j ↦ inl (m.original, m.found, j)
            ],
            λ c. subst (In t) (sym groups) (elim c [
              | inl (n, e, j) ↦
                  let same : n ≡ m.original = cc (sym e ∙ m.found) in
                  In-append_right t m.profile.groups _ (subst (λ z. In t z.profile.groups) same j)
              | inr (ids, e, c) ↦
                  let same : ids ≡ m.ids = cc (sym e ∙ m.listed) in
                  In-append_left t m.profile.groups _
                    (composed.1 (inr (subst (ProfileCarries config t) same c)))
            ]),
          )

  module _ (config : NodesYaml) (name id : Text) where
    in_group-err :
        (x : Text)
        → merge_node merge_profile merge_own config id ≡ err x
        → in_group merge_profile merge_own config name id ≡ false
    unfolding in_group
    in_group-err x e = rw (e, in_group) refl

    in_group-ok :
        (node : Node)
        → merge_node merge_profile merge_own config id ≡ ok node
        → in_group merge_profile merge_own config name id ≡ contains node.profile.groups name
    unfolding in_group
    in_group-ok node e = rw (e, in_group) refl

  -- The members of a group that is not `all` are, in order, the nodes that `MergeNode` can compose
  -- of which the node itself or some profile that applies to it has the group among its groups,
  -- and neither it nor such a profile has the negation, if the merges of the package mergo append
  -- the groups.
  pub group_members_lem :
      (config : NodesYaml) (name : Text)
      → name ≢ all_group
      → IsSorted text_le (group_members merge_profile merge_own config name)
        × ((id : Text)
            → In id (group_members merge_profile merge_own config name) ↔ (
                ((node : Node) × (merge_node merge_profile merge_own config id ≡ ok node))
                × Carries config id name
                × (is_negated name ≡ false)
                × (¬ Carries config id (negation name))))
  unfolding group_members in_group
  group_members_lem config name other =
      rw (not_all, group_members)
        (
          sort_texts-IsSorted (keep member (keys config.nodes)),
          λ id. (
            λ i.
                let (k, t) = (In-keep member id (keys config.nodes)).0 (sort_texts-In id _ i) in
                from id t (merge_node merge_profile merge_own config id) refl,
            λ ((node, e), c, n, a). In-sort_texts id _ (
                (In-keep member id (keys config.nodes)).1
                  (is_key id node e, into id node e (c, n, a))),
          ),
        )
    where
      member : Text → Bool
      member = in_group merge_profile merge_own config name

      not_all : text_eq name all_group ≡ false
      not_all = elim (Bool-cases (text_eq name all_group)) [
        | inl e ↦ absurd (other ((text_eq_iff name all_group).0 e))
        | inr e ↦ e
      ]

      from :
          (id : Text)
          → member id ≡ true
          → (r : Result Node) → merge_node merge_profile merge_own config id ≡ r
          → ((node : Node) × (merge_node merge_profile merge_own config id ≡ ok node))
            × Carries config id name
            × (is_negated name ≡ false)
            × (¬ Carries config id (negation name))
      from id t (err x) e = absurd (ground (arith, t, in_group-err config name id x e))
      from id t (ok node) e =
          let (c, n, a) = (merge_node-groups config id name node e).0 (
            (contains_iff node.profile.groups name).0
              (sym (in_group-ok config name id node e) ∙ t)) in
          ((node, e), c, n, a)

      is_key :
          (id : Text) (node : Node)
          → merge_node merge_profile merge_own config id ≡ ok node
          → In id (keys config.nodes)
      is_key id node e =
          let m = merge_node-Merged merge_profile merge_own config id node e in
          lookup-In-keys id config.nodes (λ f. absurd (ground (arith, m.found, f)))

      into :
          (id : Text) (node : Node)
          → merge_node merge_profile merge_own config id ≡ ok node
          → Carries config id name
            × (is_negated name ≡ false)
            × (¬ Carries config id (negation name))
          → member id ≡ true
      into id node e c =
          in_group-ok config name id node e
          ∙ (contains_iff node.profile.groups name).1
              ((merge_node-groups config id name node e).1 c)
