-- ===== src/Node/Groups/Found.antt =====
-- What `FindAllNodes` finds.
use warewulf.Common.{
  ◌≡◌, refl, sym, ◌∙◌, ap, true, false, List, [], ◌∷◌, ◌++◌, none, some, arith, inl, inr, ◌⊎◌, ◌↔◌,
  In, All, In-append_left, In-append_right, In-append_inv,
}
use warewulf.Common.Text.{Text, text_eq_iff, text_le_total, text_le_trans, text_le_antisym}
use warewulf.Common.Sort.{IsSorted, sort, sort-IsSorted, In-sort, sort-In}
use warewulf.Common.Results.{Result, ok, err, Result-cases}
use warewulf.Node.Types.{Profile, Node, NodesYaml}
use warewulf.Node.Merge.{merge_node}
use warewulf.Node.Groups.{node_le, get_nodes, sort_found, asked, find_all_nodes}

node_le_total : (a b : Node) → node_le a b ≡ false → node_le b a ≡ true
unfolding node_le
node_le_total a b h = ground (
  arith,
  text_eq_iff a.profile.cluster_name b.profile.cluster_name,
  text_eq_iff b.profile.cluster_name a.profile.cluster_name,
  text_le_total a.profile.cluster_name b.profile.cluster_name,
  text_le_total a.id b.id,
)

node_le_trans : (a b c : Node) → node_le a b ≡ true → node_le b c ≡ true → node_le a c ≡ true
unfolding node_le
node_le_trans a b c h k = ground (
  arith,
  text_eq_iff a.profile.cluster_name b.profile.cluster_name,
  text_eq_iff b.profile.cluster_name c.profile.cluster_name,
  text_eq_iff a.profile.cluster_name c.profile.cluster_name,
  text_le_trans a.profile.cluster_name b.profile.cluster_name c.profile.cluster_name,
  text_le_antisym a.profile.cluster_name b.profile.cluster_name,
  text_le_trans a.id b.id c.id,
)

module _ (merge_profile : Profile → Profile → Result Profile)
    (merge_own : Node → Node → Result Node) (config : NodesYaml) where
  -- A node that stands for one of the ids.
  abbrev pub Stands : List Text → Node → Type 0
  Stands ids n = (id : Text) × In id ids × (merge_node merge_profile merge_own config id ≡ ok n)

  abbrev pub Fails : List Text → Text → Type 0
  Fails ids e = (id : Text) × In id ids × (merge_node merge_profile merge_own config id ≡ err e)

  abbrev pub Composes : Text → Type 0
  Composes id = (n : Node) × (merge_node merge_profile merge_own config id ≡ ok n)

  module _ (id : Text) (ids : List Text) (found : List Node) where
    get_nodes-ok :
        (n : Node)
        → merge_node merge_profile merge_own config id ≡ ok n
        → get_nodes merge_profile merge_own config (id ∷ ids) found
          ≡ get_nodes merge_profile merge_own config ids (found ++ n ∷ [])
    unfolding get_nodes
    get_nodes-ok n e = rw (e, get_nodes) refl

    get_nodes-err :
        (x : Text)
        → merge_node merge_profile merge_own config id ≡ err x
        → get_nodes merge_profile merge_own config (id ∷ ids) found ≡ (found, some x)
    unfolding get_nodes
    get_nodes-err x e = rw (e, get_nodes) refl

  get_nodes-cases :
      (ids : List Text) (found : List Node)
      → ((nodes : List Node) × (get_nodes merge_profile merge_own config ids found ≡ (nodes, none))
          × All Composes ids
          × ((n : Node) → In n nodes ↔ (In n found ⊎ Stands ids n)))
        ⊎ ((nodes : List Node) × (e : Text) × (get_nodes merge_profile merge_own config ids found
              ≡ (nodes, some e))
            × Fails ids e)
  unfolding get_nodes
  get_nodes-cases [] found =
      inl (found, refl, tt, λ n. (inl, λ i. elim i [ inl j ↦ j | inr (id, f, e) ↦ absurd f ]))
  get_nodes-cases (id ∷ ids) found =
      elim (Result-cases (merge_node merge_profile merge_own config id)) [
        | inr (x, e) ↦ inr (found, x, get_nodes-err id ids found x e, (id, inl refl, e))
        | inl (m, e) ↦ elim (get_nodes-cases ids (found ++ m ∷ [])) [
          | inr (nodes, x, f, (i, j, g)) ↦
              inr (nodes, x, get_nodes-ok id ids found m e ∙ f, (i, inr j, g))
          | inl (nodes, f, all, exact) ↦ inl (
            nodes,
            get_nodes-ok id ids found m e ∙ f,
            ((m, e), all),
            λ n. (
              λ i. elim ((exact n).0 i) [
                | inl j ↦ elim (In-append_inv n found (m ∷ []) j) [
                  | inl k ↦ inl k
                  | inr (inl q) ↦ inr (id, inl refl, e ∙ ap ok q)
                  | inr (inr k) ↦ absurd k
                ]
                | inr (i, j, g) ↦ inr (i, inr j, g)
              ],
              λ i. (exact n).1 (elim i [
                | inl j ↦ inl (In-append_left n found (m ∷ []) j)
                | inr (i, inl q, g) ↦
                    let same : m ≡ n =
                      cc (sym e ∙ ap (merge_node merge_profile merge_own config) q ∙ g) in
                    inl (In-append_right n found (m ∷ []) (inl same))
                | inr (i, inr j, g) ↦ inr (i, j, g)
              ]),
            ),
          )
        ]
      ]

  abbrev pub FindsOrFails : List Text → Type 0
  FindsOrFails ids =
      ((nodes : List Node) × (find_all_nodes merge_profile merge_own config ids ≡ (nodes, none))
        × All Composes (asked merge_profile merge_own config ids)
        × IsSorted node_le nodes
        × ((n : Node) → In n nodes ↔ Stands (asked merge_profile merge_own config ids) n))
      ⊎ ((nodes : List Node) × (e : Text) × (find_all_nodes merge_profile merge_own config ids
            ≡ (nodes, some e))
          × Fails (asked merge_profile merge_own config ids) e)

  -- `FindAllNodes` either composes every node that is asked for, all of them where none is named,
  -- and gives just these, sorted by cluster and then by id; or it gives the error of one of them.
  pub find_all_nodes_lem : (ids : List Text) → FindsOrFails ids
  unfolding find_all_nodes sort_found
  find_all_nodes_lem ids = elim (get_nodes-cases (asked merge_profile merge_own config ids) []) [
    | inl (nodes, f, all, exact) ↦ inl (
      sort node_le nodes,
      ap (sort_found merge_profile merge_own) f,
      all,
      sort-IsSorted node_le node_le_total node_le_trans nodes,
      λ n. (
        λ i. elim ((exact n).0 (sort-In node_le n nodes i)) [ inl j ↦ absurd j | inr s ↦ s ],
        λ s. In-sort node_le n nodes ((exact n).1 (inr s)),
      ),
    )
    | inr (nodes, x, f, g) ↦ inr (nodes, x, ap (sort_found merge_profile merge_own) f, g)
  ]
