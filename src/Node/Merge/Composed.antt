-- ===== src/Node/Merge/Composed.antt =====
-- What a merged node is.
use warewulf.Common.{
  ◌≡◌, ◌≢◌, refl, sym, ◌∙◌, ap, subst, true, List, [], ◌∷◌, none, some, arith, Option-cases, inl,
  inr, In,
}
use warewulf.Common.Text.{Text, text_eq_refl}
use warewulf.Common.Maps.{Map, lookup, keys, lookup-insert, In-keys-lookup}
use warewulf.Common.Sort.{sort_texts, sort_texts-In, In-sort_texts}
use warewulf.Common.Results.{Result, ok, Result-cases}
use warewulf.Node.Types.{Profile, Node, NodesYaml, NetDev}
use warewulf.Node.Lists.{clean_list}
use warewulf.Node.Profiles.{get_node_profiles}
use warewulf.Node.Profiles.Reach.{get_node_profiles_lem}
use warewulf.Node.Registry.{no_node, no_profile, get_node_only}
use warewulf.Node.Merge.{
  update_primary_net_dev, clean_lists, mark_primary, identified, finish_node, merge_profiles,
  merge_node, set_ids, merge_original,
}

-- A profile without network devices, or one whose primary device is there and is marked.
abbrev pub HasPrimary : Profile → Type 0
HasPrimary p =
    p.net_devs ≢ []
    → (dev : NetDev) × (lookup p.primary_net_dev p.net_devs ≡ some dev) × (dev.primary ≡ true)

mark_primary-HasPrimary :
    (name : Text) (dev : NetDev) (p : Profile) → HasPrimary (mark_primary name dev p)
unfolding mark_primary
mark_primary-HasPrimary name dev p some_dev = (
  record dev { primary = true },
  lookup-insert name name (record dev { primary = true }) p.net_devs ∙ rw (text_eq_refl name) refl,
  refl,
)

no_keys : {V : Type 0} (m : Map V) → sort_texts (keys m) ≡ [] → m ≡ []
unfolding keys
no_keys [] e = refl
no_keys ((k, v) ∷ m) e = absurd (subst (In k) e (In-sort_texts k (k ∷ keys m) (inl refl)))

first_key :
    {V : Type 0} (m : Map V) (k : Text) (ks : List Text)
    → sort_texts (keys m) ≡ k ∷ ks
    → lookup k m ≢ none
first_key m k ks e = In-keys-lookup k m (sort_texts-In k (keys m) (subst (In k) (sym e) (inl refl)))

-- Whatever the devices, there is a primary one afterwards, and it is marked.
update_primary_net_dev-HasPrimary : (p : Profile) → HasPrimary (update_primary_net_dev p)
unfolding update_primary_net_dev
update_primary_net_dev-HasPrimary p = elim (Option-cases (lookup p.primary_net_dev p.net_devs)) [
  | inr (dev, e) ↦ rw (e, update_primary_net_dev) (mark_primary-HasPrimary p.primary_net_dev dev p)
  | inl e ↦ rw (e, update_primary_net_dev) (go (sort_texts (keys p.net_devs)) refl)
]
  where
    chosen : List Text → Profile
    chosen [] = p
    chosen (first ∷ _) = elim (lookup first p.net_devs) [
      | none ↦ p
      | some dev ↦ mark_primary first dev p
    ]

    go : (ks : List Text) → sort_texts (keys p.net_devs) ≡ ks → HasPrimary (chosen ks)
    go [] e = λ some_dev. absurd (some_dev (no_keys p.net_devs e))
    go (k ∷ ks) e = elim (Option-cases (lookup k p.net_devs)) [
      | inl f ↦ absurd (first_key p.net_devs k ks e f)
      | inr (dev, f) ↦ rw (f, chosen) (mark_primary-HasPrimary k dev p)
    ]

-- What does not depend on the devices is kept.
pub update_primary_net_dev-kept :
    {A : Type 0} (field : Profile → A)
    → ((name : Text) (dev : NetDev) (p : Profile) → field (mark_primary name dev p) ≡ field p)
    → (p : Profile) → field (update_primary_net_dev p) ≡ field p
unfolding update_primary_net_dev
update_primary_net_dev-kept field same p =
    elim (Option-cases (lookup p.primary_net_dev p.net_devs)) [
      | inr (dev, e) ↦ rw (e, update_primary_net_dev) (same p.primary_net_dev dev p)
      | inl e ↦ rw (e, update_primary_net_dev) (go (sort_texts (keys p.net_devs)))
    ]
  where
    chosen : List Text → Profile
    chosen [] = p
    chosen (first ∷ _) = elim (lookup first p.net_devs) [
      | none ↦ p
      | some dev ↦ mark_primary first dev p
    ]

    go : (ks : List Text) → field (chosen ks) ≡ field p
    go [] = refl
    go (k ∷ ks) = elim (Option-cases (lookup k p.net_devs)) [
      | inl f ↦ rw (f, chosen) refl
      | inr (dev, f) ↦ rw (f, chosen) (same k dev p)
    ]

module _ (id : Text) (original merged : Node) where
  finish_node-id : (finish_node id original merged).id ≡ id
  unfolding finish_node identified set_ids
  finish_node-id = refl

  finish_node-valid : (finish_node id original merged).valid ≡ true
  unfolding finish_node identified set_ids
  finish_node-valid = refl

  finish_node-HasPrimary : HasPrimary (finish_node id original merged).profile
  unfolding finish_node clean_lists
  finish_node-HasPrimary = update_primary_net_dev-HasPrimary (identified id original merged).profile

  finish_node-profiles :
      (finish_node id original merged).profile.profiles ≡ clean_list original.profile.profiles
  unfolding finish_node clean_lists identified set_ids mark_primary
  finish_node-profiles = ap clean_list (
      update_primary_net_dev-kept (λ p. p.profiles) (λ _ _ _. refl)
        (identified id original merged).profile)

  finish_node-comment : (finish_node id original merged).profile.comment ≡ original.profile.comment
  unfolding finish_node clean_lists identified set_ids mark_primary
  finish_node-comment =
      update_primary_net_dev-kept (λ p. p.comment) (λ _ _ _. refl)
        (identified id original merged).profile

  pub finish_node-groups :
      (finish_node id original merged).profile.groups ≡ clean_list merged.profile.groups
  unfolding finish_node clean_lists identified set_ids mark_primary
  finish_node-groups = ap clean_list (
      update_primary_net_dev-kept (λ p. p.groups) (λ _ _ _. refl)
        (identified id original merged).profile)

module _ (merge_profile : Profile → Profile → Result Profile)
    (merge_own : Node → Node → Result Node) where
  -- How a call of `MergeNode` that succeeds went.
  pub record Merged (config : NodesYaml) (id : Text) (node : Node) : Type 0 where
    pub original : Node
    pub ids : List Text
    pub profile : Profile
    pub merged : Node
    pub found : lookup id config.nodes ≡ some original
    pub listed : get_node_profiles config id ≡ some ids
    pub composed : merge_profiles merge_profile merge_own config ids no_profile ≡ ok profile
    pub own : merge_own (record no_node { profile = profile }) original ≡ ok merged
    pub finished : finish_node id original merged ≡ node

  pub merge_node-Merged :
      (config : NodesYaml) (id : Text) (node : Node)
      → merge_node merge_profile merge_own config id ≡ ok node
      → Merged config id node
  unfolding merge_node get_node_only merge_original
  merge_node-Merged config id node h = elim (Option-cases (lookup id config.nodes)) [
    | inl e ↦ absurd (ground (arith, e, h))
    | inr (original, e) ↦
        let (ids, l, _, _) = get_node_profiles_lem config id original e in
        elim (Result-cases (merge_profiles merge_profile merge_own config ids no_profile)) [
          | inr (m, f) ↦ absurd (ground (arith, e, l, f, h))
          | inl (p, f) ↦ elim (Result-cases (merge_own (record no_node { profile = p }) original)) [
            | inr (m, g) ↦ absurd (ground (arith, e, l, f, g, h))
            | inl (merged, g) ↦ record {
              original = original;
              ids = ids;
              profile = p;
              merged = merged;
              found = e;
              listed = l;
              composed = f;
              own = g;
              finished = ground (arith, e, l, f, g, h);
            }
          ]
        ]
  ]

  -- A node that `MergeNode` gives has the id asked for, is valid, keeps its own profiles, less
  -- those negated, and its own comment, and has a marked primary device if it has any.
  pub merge_node_lem :
      (config : NodesYaml) (id : Text) (node : Node)
      → merge_node merge_profile merge_own config id ≡ ok node
      → (original : Node) × (lookup id config.nodes ≡ some original)
        × (node.id ≡ id)
        × (node.valid ≡ true)
        × (node.profile.profiles ≡ clean_list original.profile.profiles)
        × (node.profile.comment ≡ original.profile.comment)
        × HasPrimary node.profile
  merge_node_lem config id node h =
      let m = merge_node-Merged config id node h in
      (
        m.original,
        m.found,
        sym (ap (λ n. n.id) m.finished) ∙ finish_node-id id m.original m.merged,
        sym (ap (λ n. n.valid) m.finished) ∙ finish_node-valid id m.original m.merged,
        sym (ap (λ n. n.profile.profiles) m.finished) ∙ finish_node-profiles id m.original m.merged,
        sym (ap (λ n. n.profile.comment) m.finished) ∙ finish_node-comment id m.original m.merged,
        subst (λ n. HasPrimary n.profile) m.finished
            (finish_node-HasPrimary id m.original m.merged),
      )
