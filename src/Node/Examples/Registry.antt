-- ===== src/Node/Examples/Registry.antt =====
-- The theorems on queries and changes of the registry, at one registry.
use mathlib.Core.List.Permᴰ
use warewulf.Common.{◌≡◌, refl, true, List, [], ◌∷◌, ◌↔◌, In}
use warewulf.Common.Text.{Text, codes, text_eq}
use warewulf.Common.Maps.{lookup, IsMap}
use warewulf.Node.Types.{NodesYaml}
use warewulf.Node.Queries.{list_all_nodes}
use warewulf.Node.Queries.Answers.{QueriesAnswer, queries-Answers}
use warewulf.Node.Queries.Order.{SameAnswers, queries-Perm}
use warewulf.Node.Registry.Steps.{
  AddsAndDeletes, del_node-add_node, Op, node_added, node_deleted, run_ops, present, is_some,
  run_ops_lem,
}
use warewulf.Node.Examples.{cyclic, named_profile}

queries-Answers_example : QueriesAnswer cyclic (codes "p")
unfolding lookup text_eq
queries-Answers_example = queries-Answers cyclic (codes "p") (refl, tt) (refl, (refl, (refl, tt)))

abbrev swapped : NodesYaml
swapped = record cyclic {
  node_profiles =
      (codes "q", named_profile (codes "p" ∷ codes "r" ∷ []))
      ∷ (codes "p", named_profile (codes "q" ∷ []))
      ∷ (codes "r", named_profile [])
      ∷ [];
}

queries-Perm_example : SameAnswers cyclic swapped (codes "p")
queries-Perm_example =
    queries-Perm cyclic swapped (codes "p") ∣ Permᴰ.refl cyclic.nodes ∣₁ ∣ Permᴰ.swap refl refl ∣₁

del_node-add_node_example : AddsAndDeletes (codes "n2") cyclic
del_node-add_node_example = del_node-add_node (codes "n2") cyclic

abbrev calls : List Op
calls = node_added (codes "n2") ∷ node_deleted (codes "n1") ∷ node_added (codes "n2") ∷ []

run_ops_lem_example :
    IsMap (run_ops calls cyclic).nodes
    × ((x : Text)
        → In x (list_all_nodes (run_ops calls cyclic))
          ↔ (present calls x (is_some (lookup x cyclic.nodes)) ≡ true))
unfolding lookup
run_ops_lem_example = run_ops_lem calls cyclic (refl, tt)
