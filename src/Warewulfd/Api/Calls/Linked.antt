-- ===== src/Warewulfd/Api/Calls/Linked.antt =====
-- Registries in which every profile that is named exists, and the changes that keep this.
use warewulf.Common.{
  ◌≡◌, ◌≢◌, refl, sym, ◌∙◌, subst, Bool, true, false, List, [], ◌∷◌, none, some, In, inl, inr, ◌⊎◌,
  arith, ltb, length, Option-cases,
}
use warewulf.Common.Text.{Text, text_eq_iff, contains_iff}
use warewulf.Common.Maps.{Map, lookup, insert, delete, lookup-insert, lookup-delete, lookup-some-In}
use warewulf.Common.Sort.{sort_texts, In-sort_texts}
use warewulf.Common.Results.{Result, ok}
use warewulf.Node.Types.{Profile, Node, NodesYaml}
use warewulf.Node.Lists.{is_negated}
use warewulf.Node.Queries.{
  keys_where, has_profile, list_nodes_using_profile, list_profiles_using_profile,
}
use warewulf.Node.Queries.Answers.{In-keys_where}
use warewulf.Node.Registry.{del_node, del_profile}

-- Each name that is not a negation is that of a profile.
abbrev pub HasProfiles : Map Profile → List Text → Type 0
HasProfiles profiles names =
    (q : Text) → In q names → is_negated q ≡ false → lookup q profiles ≢ none

pub record Linked (config : NodesYaml) : Type 0 where
  pub nodes :
      (id : Text) (n : Node)
      → lookup id config.nodes ≡ some n
      → HasProfiles config.node_profiles n.profile.profiles
  pub profiles :
      (id : Text) (p : Profile)
      → lookup id config.node_profiles ≡ some p
      → HasProfiles config.node_profiles p.profiles

lookup-insert_cases :
    {V : Type 0} (k j : Text) (v w : V) (m : Map V)
    → lookup j (insert k v m) ≡ some w
    → (v ≡ w) ⊎ (lookup j m ≡ some w)
lookup-insert_cases k j v w m h = ground (arith, lookup-insert k j v m, h)

lookup-insert_there :
    {V : Type 0} (k j : Text) (v : V) (m : Map V)
    → lookup j m ≢ none
    → lookup j (insert k v m) ≢ none
lookup-insert_there k j v m h = ground (arith, lookup-insert k j v m, h)

lookup-delete_kept :
    {V : Type 0} (k j : Text) (w : V) (m : Map V)
    → lookup j (delete k m) ≡ some w
    → lookup j m ≡ some w
lookup-delete_kept k j w m h = ground (arith, lookup-delete k j m, h)

pub insert-Linked_node :
    (id : Text) (n : Node) (config : NodesYaml)
    → Linked config
    → HasProfiles config.node_profiles n.profile.profiles
    → Linked (record config { nodes = insert id n config.nodes })
insert-Linked_node id n config h new = record {
  nodes = λ k m e. elim (lookup-insert_cases id k n m config.nodes e) [
    | inl q ↦ subst (λ z. HasProfiles config.node_profiles z.profile.profiles) q new
    | inr q ↦ h.nodes k m q
  ];
  profiles = h.profiles;
}

pub insert-Linked_profile :
    (id : Text) (p : Profile) (config : NodesYaml)
    → Linked config
    → HasProfiles config.node_profiles p.profiles
    → Linked (record config { node_profiles = insert id p config.node_profiles })
insert-Linked_profile id p config h new = record {
  nodes = λ k m e q i r. grown q (h.nodes k m e q i r);
  profiles = λ k m e q i r. grown q (elim (lookup-insert_cases id k p m config.node_profiles e) [
    | inl s ↦ new q (subst (λ z. In q z.profiles) (sym s) i) r
    | inr s ↦ h.profiles k m s q i r
  ]);
}
  where
    grown :
        (q : Text)
        → lookup q config.node_profiles ≢ none
        → lookup q (insert id p config.node_profiles) ≢ none
    grown q e = lookup-insert_there id q p config.node_profiles e

pub del_node-Linked :
    (id : Text) (config after : NodesYaml)
    → del_node id config ≡ ok after
    → Linked config
    → Linked after
unfolding del_node
del_node-Linked id config after e h = elim (Option-cases (lookup id config.nodes)) [
  | inl none_there ↦ absurd (ground (arith, none_there, e))
  | inr (n, there) ↦
      let gone : ◌≡◌ {A = Result NodesYaml} (ok (record config { nodes = delete id config.nodes }))
          (ok after) =
        sym (rw (del_node, there) refl) ∙ e in
      let is_after : record config { nodes = delete id config.nodes } ≡ after = cc in
      subst Linked is_after (record {
        nodes = λ k m q. h.nodes k m (lookup-delete_kept id k m config.nodes q);
        profiles = h.profiles;
      })
]

-- A list of users that is empty has no user.
not_used :
    {V : Type 0} (p : V → Bool) (m : Map V) (k : Text) (v : V)
    → ltb 0 (length (sort_texts (keys_where p m))) ≡ false
    → lookup k m ≡ some v
    → p v ≡ true
    → ⊥
not_used p m k v empty e t =
    absent (sort_texts (keys_where p m)) empty
      (In-sort_texts k (keys_where p m) ((In-keys_where p k m).1 (v, lookup-some-In k v m e, t)))
  where
    absent : (xs : List Text) → ltb 0 (length xs) ≡ false → In k xs → ⊥
    absent [] q i = i
    absent (x ∷ xs) q i = ground (arith, q)

pub del_profile-Linked :
    (id : Text) (config after : NodesYaml)
    → ltb 0 (length (list_nodes_using_profile config id)) ≡ false
    → ltb 0 (length (list_profiles_using_profile config id)) ≡ false
    → del_profile id config ≡ ok after
    → Linked config
    → Linked after
unfolding del_profile list_nodes_using_profile list_profiles_using_profile
del_profile-Linked id config after no_nodes no_profiles e h =
    elim (Option-cases (lookup id config.node_profiles)) [
      | inl none_there ↦ absurd (ground (arith, none_there, e))
      | inr (p, there) ↦
          let gone : ◌≡◌ {A = Result NodesYaml}
              (ok (record config { node_profiles = delete id config.node_profiles })) (ok after) =
            sym (rw (del_profile, there) refl) ∙ e in
          let is_after : record config { node_profiles = delete id config.node_profiles } ≡ after =
            cc in
          subst Linked is_after (record {
            nodes = λ k m q r i s. kept r (h.nodes k m q r i s) (λ t.
                not_used (λ n. has_profile id n.profile) config.nodes k m no_nodes q
                  ((contains_iff m.profile.profiles id).1
                    (subst (λ z. In z m.profile.profiles) (sym t) i)));
            profiles = λ k m q r i s.
                let old = lookup-delete_kept id k m config.node_profiles q in
                kept r (h.profiles k m old r i s) (λ t.
                  not_used (has_profile id) config.node_profiles k m no_profiles old
                    ((contains_iff m.profiles id).1 (subst (λ z. In z m.profiles) (sym t) i)));
          })
    ]
  where
    kept :
        (q : Text)
        → lookup q config.node_profiles ≢ none
        → id ≢ q
        → lookup q (delete id config.node_profiles) ≢ none
    kept q there other =
        ground (arith, lookup-delete id q config.node_profiles, text_eq_iff id q, there, other)
