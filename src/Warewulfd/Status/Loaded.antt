-- ===== src/Warewulfd/Status/Loaded.antt =====
-- Which statuses there are after `LoadNodeStatus`.
use warewulf.Common.{
  ◌≡◌, ◌≢◌, refl, sym, ◌∙◌, ap, subst, List, [], ◌∷◌, Option, none, some, arith, inl, inr, ◌⊎◌, ◌↔◌,
  In, All, Bool-cases,
}
use warewulf.Common.Text.{Text, text_eq, text_eq_iff}
use warewulf.Common.Maps.{Map, lookup, insert, lookup-insert, keys}
use warewulf.Common.Results.{Result}
use warewulf.Node.Types.{Profile, Node, NodesYaml}
use warewulf.Node.Merge.Composed.{merge_node_lem}
use warewulf.Node.Groups.Found.{Stands, Composes, find_all_nodes_lem}
use warewulf.Warewulfd.Access.{NodeStatus}
use warewulf.Warewulfd.Status.{status_or_new, keep_statuses, set_statuses, load_node_status}

-- The status of the name, or that of a node never seen.
abbrev pub status_of : Map NodeStatus → Text → NodeStatus
status_of status name = status_or_new name (lookup name status)

keep_statuses-cases :
    (old : Map NodeStatus) (nodes : List Node) (new_db : Map NodeStatus) (name : Text)
    → ((n : Node) × In n nodes
        × (n.id ≡ name)
        × (lookup name (keep_statuses old nodes new_db) ≡ some (status_of old name)))
      ⊎ (((n : Node) → In n nodes → n.id ≢ name)
          × (lookup name (keep_statuses old nodes new_db) ≡ lookup name new_db))
unfolding keep_statuses
keep_statuses-cases old [] new_db name = inr (λ n i. absurd i, refl)
keep_statuses-cases old (n ∷ nodes) new_db name =
    elim (keep_statuses-cases old nodes (insert n.id (status_of old n.id) new_db) name) [
      | inl (m, i, q, e) ↦ inl (m, inr i, q, e)
      | inr (absent, e) ↦ elim (Bool-cases (text_eq n.id name)) [
        | inl t ↦
            let same : n.id ≡ name = (text_eq_iff n.id name).0 t in
            inl (
              n,
              inl refl,
              same,
              e
                  ∙ lookup-insert n.id name (status_of old n.id) new_db
                  ∙ rw t (ap (λ z. some (status_of old z)) same),
            )
        | inr f ↦ inr (
          λ m i. elim i [
            | inl p ↦ λ q. ground (arith, f, (text_eq_iff n.id name).1 (ap (λ z. z.id) p ∙ q))
            | inr j ↦ absent m j
          ],
          e ∙ lookup-insert n.id name (status_of old n.id) new_db ∙ rw f refl,
        )
      ]
    ]

-- A name of the registry has the status that it had, or that of a node never seen; another name has
-- none.
abbrev pub Follows : NodesYaml → Map NodeStatus → Map NodeStatus → Text → Type 0
Follows yml old status name =
    (In name (keys yml.nodes) × (lookup name status ≡ some (status_of old name)))
    ⊎ ((¬ In name (keys yml.nodes)) × (lookup name status ≡ none))

All-member : {A : Type 0} (P : A → Type 0) (x : A) (xs : List A) → All P xs → In x xs → P x
All-member P x [] a i = absurd i
All-member P x (y ∷ ys) a (inl q) = subst P q a.0
All-member P x (y ∷ ys) a (inr i) = All-member P x ys a.1 i

module _ (merge_profile : Profile → Profile → Result Profile)
    (merge_own : Node → Node → Result Node) where
  kept-Follows :
      (yml : NodesYaml) (nodes : List Node) (old : Map NodeStatus) (name : Text)
      → All (Composes merge_profile merge_own yml) (keys yml.nodes)
      → ((n : Node) → In n nodes ↔ Stands merge_profile merge_own yml (keys yml.nodes) n)
      → Follows yml old (keep_statuses old nodes []) name
  kept-Follows yml nodes old name composes exact = elim (keep_statuses-cases old nodes [] name) [
    | inl (n, i, q, e) ↦
        let (id, k, m) = (exact n).0 i in
        let (_, _, own, _, _, _, _) = merge_node_lem merge_profile merge_own yml id n m in
        inl (subst (λ z. In z (keys yml.nodes)) (sym own ∙ q) k, e)
    | inr (absent, e) ↦ inr (
      λ k.
          let (n, m) =
            All-member (Composes merge_profile merge_own yml) name (keys yml.nodes) composes k in
          let (_, _, own, _, _, _, _) = merge_node_lem merge_profile merge_own yml name n m in
          absent n ((exact n).1 (name, k, m)) own,
      unfold lookup in e,
    )
  ]

  read-Follows :
      (yml : NodesYaml) (status status' : Map NodeStatus) (e : Option Text)
      → load_node_status merge_profile merge_own (yml, none) status ≡ (status', e)
      → ((e ≡ none) × ((name : Text) → Follows yml status status' name))
        ⊎ ((e ≢ none) × (status' ≡ status))
  unfolding load_node_status set_statuses
  read-Follows yml status status' e h = elim (find_all_nodes_lem merge_profile merge_own yml []) [
    | inl (nodes, f, composes, _, exact) ↦
        let result : (keep_statuses status nodes [], none) ≡ (status', e) =
          sym (ap (set_statuses status) f) ∙ h in
        inl (
          sym (ap (λ z. z.1) result),
          λ name.
              subst (λ z. Follows yml status z name) (ap (λ z. z.0) result)
                (kept-Follows yml nodes status name composes exact),
        )
    | inr (nodes, x, f, _) ↦
        let result : (status, some x) ≡ (status', e) = sym (ap (set_statuses status) f) ∙ h in
        inr (λ g. absurd (ground (arith, ap (λ z. z.1) result, g)), sym (ap (λ z. z.0) result))
  ]

  -- Whether or not node.New gives an error with its registry: after a load that succeeds, each node
  -- of the registry has the status that it had, or that of a node never seen, and no other name has
  -- a status. A load that fails, in node.New or later, keeps the statuses.
  pub load_node_status-Follows :
      (yml : NodesYaml) (read_error : Option Text) (status status' : Map NodeStatus)
      (e : Option Text)
      → load_node_status merge_profile merge_own (yml, read_error) status ≡ (status', e)
      → ((read_error ≡ none) × (e ≡ none) × ((name : Text) → Follows yml status status' name))
        ⊎ ((e ≢ none) × (status' ≡ status))
  unfolding load_node_status
  load_node_status-Follows yml (some x) status status' e h =
      inr (λ g. absurd (ground (arith, ap (λ z. z.1) h, g)), sym (ap (λ z. z.0) h))
  load_node_status-Follows yml none status status' e h =
      elim (read-Follows yml status status' e h) [
        | inl (q, follows) ↦ inl (refl, q, follows)
        | inr kept ↦ inr kept
      ]
