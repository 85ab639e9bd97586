-- ===== src/Node/Queries/Answers.antt =====
-- What the queries on the registry answer, whatever the order in which a map is ranged over.
use warewulf.Common.{
  ◌≡◌, refl, Bool, true, List, [], ◌∷◌, some, ◌↔◌, ◌⊎◌, inl, inr, In, arith, Bool-cases, ap,
}
use warewulf.Common.Text.{Text, text_eq_iff, contains, contains_iff, text_le}
use warewulf.Common.Maps.{Map, lookup, keys, IsMap, lookup-some-In, In-lookup-some}
use warewulf.Common.Sort.{sort_texts, IsSorted, sort_texts-IsSorted, In-sort_texts, sort_texts-In}
use warewulf.Node.Types.{Profile, NodesYaml}
use warewulf.Node.Queries.{
  keys_where, has_overlay, list_all_nodes, list_all_profiles, list_nodes_using_profile,
  list_profiles_using_profile, list_nodes_using_image, list_profiles_using_image,
  list_nodes_using_overlay, list_profiles_using_overlay,
}

-- A sorted list of just the keys whose entry satisfies `P`.
abbrev pub Answers : {V : Type 0} → (V → Type 0) → Map V → List Text → Type 0
Answers P m ids =
    IsSorted text_le ids × ((n : Text) → In n ids ↔ ((v : _) × (lookup n m ≡ some v) × P v))

module _ {V : Type 0} (p : V → Bool) where
  pub In-keys_where :
      (n : Text) (m : Map V) → In n (keys_where p m) ↔ ((v : V) × In (n, v) m × (p v ≡ true))
  unfolding keys_where
  In-keys_where n [] = (λ i. absurd i, λ (v, i, t). i)
  In-keys_where n ((k, v) ∷ m) = elim (Bool-cases (p v)) [
    | inl e ↦ rw e (
      λ i. elim i [
        | inl q ↦ (v, inl (ap (λ z. (z, v)) q), e)
        | inr j ↦ let (w, l, t) = (In-keys_where n m).0 j in (w, inr l, t)
      ],
      λ (w, i, t). elim i [
        | inl q ↦ inl (ap (λ z. z.0) q)
        | inr j ↦ inr ((In-keys_where n m).1 (w, j, t))
      ],
    )
    | inr e ↦ rw e (
      λ i. let (w, l, t) = (In-keys_where n m).0 i in (w, inr l, t),
      λ (w, i, t). elim i [
        | inl q ↦ absurd (ground (arith, e, t, ap (λ z. p z.1) q))
        | inr j ↦ (In-keys_where n m).1 (w, j, t)
      ],
    )
  ]

  keys_where-Answers :
      (P : V → Type 0)
      → ((v : V) → (p v ≡ true) ↔ P v)
      → (m : Map V) → IsMap m
      → Answers P m (sort_texts (keys_where p m))
  keys_where-Answers P same m valid = (
    sort_texts-IsSorted (keys_where p m),
    λ n. (
      λ i.
          let (v, j, t) = (In-keys_where n m).0 (sort_texts-In n (keys_where p m) i) in
          (v, In-lookup-some n v m valid j, (same v).0 t),
      λ (v, e, h).
          In-sort_texts n (keys_where p m)
            ((In-keys_where n m).1 (v, lookup-some-In n v m e, (same v).1 h)),
    ),
  )

pub keys-where : {V : Type 0} → (m : Map V) → keys m ≡ keys_where (λ _. true) m
unfolding keys keys_where
keys-where [] = refl
keys-where ((n, v) ∷ m) = ap (λ z. n ∷ z) (keys-where m)

pub list_all_nodes-Answers :
    (config : NodesYaml)
    → IsMap config.nodes
    → Answers (λ _. Unit) config.nodes (list_all_nodes config)
unfolding list_all_nodes
list_all_nodes-Answers config nodes =
    rw (keys-where config.nodes)
      (keys_where-Answers (λ _. true) _ (λ _. (λ _. tt, λ _. refl)) config.nodes nodes)

has_overlay_iff :
    (overlay : Text) (p : Profile)
    → (has_overlay overlay p ≡ true) ↔ (In overlay p.runtime_overlay ⊎ In overlay p.system_overlay)
has_overlay_iff overlay p = elim (Bool-cases (contains p.runtime_overlay overlay)) [
  | inl e ↦ rw e (λ _. inl ((contains_iff p.runtime_overlay overlay).0 e), λ _. refl)
  | inr e ↦ rw e (
    λ t. inr ((contains_iff p.system_overlay overlay).0 t),
    λ i. elim i [
      | inl j ↦ absurd (ground (arith, e, (contains_iff p.runtime_overlay overlay).1 j))
      | inr j ↦ (contains_iff p.system_overlay overlay).1 j
    ],
  )
]

abbrev pub QueriesAnswer : NodesYaml → Text → Type 0
QueriesAnswer config x =
    Answers (λ _. Unit) config.nodes (list_all_nodes config)
    × Answers (λ _. Unit) config.node_profiles (list_all_profiles config)
    × Answers (λ n. In x n.profile.profiles) config.nodes (list_nodes_using_profile config x)
    × Answers (λ p. In x p.profiles) config.node_profiles (list_profiles_using_profile config x)
    × Answers (λ n. n.profile.image_name ≡ x) config.nodes (list_nodes_using_image config x)
    × Answers (λ p. p.image_name ≡ x) config.node_profiles (list_profiles_using_image config x)
    × Answers (λ n. In x n.profile.runtime_overlay ⊎ In x n.profile.system_overlay) config.nodes
        (list_nodes_using_overlay config x)
    × Answers (λ p. In x p.runtime_overlay ⊎ In x p.system_overlay) config.node_profiles
        (list_profiles_using_overlay config x)

-- In a registry of two maps, the eight list functions give sorted lists of just the nodes, or the
-- profiles, whose own entry names the profile, the image or the overlay; all of them, where nothing
-- is asked.
pub queries-Answers :
    (config : NodesYaml) (x : Text)
    → IsMap config.nodes
    → IsMap config.node_profiles
    → QueriesAnswer config x
unfolding list_all_profiles list_nodes_using_profile list_profiles_using_profile
    list_nodes_using_image list_profiles_using_image list_nodes_using_overlay
    list_profiles_using_overlay
queries-Answers config x nodes profiles = (
  list_all_nodes-Answers config nodes,
  rw (keys-where config.node_profiles)
      (keys_where-Answers (λ _. true) _ (λ _. (λ _. tt, λ _. refl)) config.node_profiles profiles),
  keys_where-Answers _ _ (λ n. contains_iff n.profile.profiles x) config.nodes nodes,
  keys_where-Answers _ _ (λ p. contains_iff p.profiles x) config.node_profiles profiles,
  keys_where-Answers _ _ (λ n. text_eq_iff n.profile.image_name x) config.nodes nodes,
  keys_where-Answers _ _ (λ p. text_eq_iff p.image_name x) config.node_profiles profiles,
  keys_where-Answers _ _ (λ n. has_overlay_iff x n.profile) config.nodes nodes,
  keys_where-Answers _ _ (has_overlay_iff x) config.node_profiles profiles,
)
