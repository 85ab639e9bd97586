-- ===== src/Warewulfd/Api/Nodes.antt =====
-- internal/pkg/warewulfd/api/node.go: the handlers on nodes.
use warewulf.Common.{◌&&◌, List, [], ◌∷◌, ◌++◌, Option, none, some, if◌then◌else◌}
use warewulf.Common.Text.{Text, codes, text_eq}
use warewulf.Common.Maps.{Map, lookup, insert}
use warewulf.Common.Results.{Result, ok, err}
use warewulf.Node.Types.{Node, NodesYaml}
use warewulf.Node.Registry.{del_node, err_not_found, no_node}
use warewulf.Node.Groups.{find_all_nodes}
use warewulf.Node.Merge.{merge_node}
use warewulf.Warewulfd.Api.{
  not_found, invalid_argument, internal, Response, output, failed, Services, Server, has_key,
  quoted, unknown_name, opened, saved,
}

-- An entry that is surely there: where it is not, Go panics.
abbrev pub entry_output : {V : Type 0} → Option V → Response V
entry_output (some v) = output v
entry_output none = failed internal (codes "nil pointer")

abbrev pub deleted_node : Option Node → Node
deleted_node (some n) = n
deleted_node none = no_node

-- `nodeMap[nodeList[i].Id()] = &nodeList[i]`
abbrev pub by_id : List Node → Map Node → Map Node
unfolding insert
by_id [] node_map = node_map
by_id (n ∷ nodes) node_map = by_id nodes (insert n.id n node_map)

abbrev pub nodes_output : List Node × Option Text → Response (Map Node)
nodes_output (nodes, none) = output (by_id nodes [])
nodes_output (nodes, some e) = failed internal e

abbrev pub merged_output : Text → Result Node → Response Node
merged_output id (ok n) = output n
merged_output id (err e) =
    failed not_found (codes "node not found: " ++ id ++ codes " (" ++ e ++ codes ")")

module _ {File : Type 0} (w : Services File) where
  -- `getNodes`
  unfoldable pub get_nodes_handler : Server File → Response (Map Node) × Server File
  unfolding find_all_nodes
  get_nodes_handler s =
      opened s (λ config. (nodes_output (find_all_nodes w.merge_profile w.merge_own config []), s))
        (w.new s.file)

  -- `getNodeByID`
  unfoldable pub get_node_handler : Text → Server File → Response Node × Server File
  unfolding merge_node
  get_node_handler id s =
      opened s (λ config. (merged_output id (merge_node w.merge_profile w.merge_own config id), s))
        (w.new s.file)

  -- `getRawNodeByID`
  unfoldable pub get_raw_node_handler : Text → Server File → Response Node × Server File
  unfolding lookup
  get_raw_node_handler id s =
      opened s
        (λ config. elim (lookup id config.nodes) [
          | some n ↦ (output n, s)
          | none ↦ (failed not_found (codes "node not found: " ++ id), s)
        ])
        (w.new s.file)

  unfoldable pub add_checked_node :
      Text → Node → Text → Server File → NodesYaml → Response Node × Server File
  unfolding text_eq has_key unknown_name insert lookup saved
  add_checked_node id input if_none_match s config =
      if text_eq if_none_match (codes "*") && has_key config.nodes id
      then (failed invalid_argument (quoted (codes "node") id (codes "already exists")), s)
      else elim (unknown_name w config input.profile) [
        | some e ↦ (failed invalid_argument e, s)
        | none ↦
            saved w (λ yml. entry_output (lookup id yml.nodes)) s
              (w.persist (record config { nodes = insert id input config.nodes }) s.file)
      ]

  -- `addNode`
  unfoldable pub add_node_handler : Text → Node → Text → Server File → Response Node × Server File
  unfolding add_checked_node
  add_node_handler id input if_none_match s =
      opened s (add_checked_node id input if_none_match s) (w.new s.file)

  unfoldable pub delete_found_node : Text → Server File → NodesYaml → Response Node × Server File
  unfolding lookup del_node saved
  delete_found_node id s config = elim (del_node id config) [
    | err e ↦ (failed internal e, s)
    | ok after ↦
        saved w (λ yml. output (deleted_node (lookup id config.nodes))) s (w.persist after s.file)
  ]

  -- `deleteNode`
  unfoldable pub delete_node_handler : Text → Server File → Response Node × Server File
  unfolding delete_found_node
  delete_node_handler id s = opened s (delete_found_node id s) (w.new s.file)

  -- The node in the registry is overwritten, where mergo does not fail.
  unfoldable pub overwrite_node_at :
      Text → Server File → NodesYaml → Result Node → Response Node × Server File
  unfolding insert lookup saved
  overwrite_node_at id s config (err e) = (failed internal e, s)
  overwrite_node_at id s config (ok n) =
      saved w (λ yml. entry_output (lookup id yml.nodes)) s
        (w.persist (record config { nodes = insert id n config.nodes }) s.file)

  unfoldable pub update_checked_node :
      Text → Node → Server File → NodesYaml → Response Node × Server File
  unfolding unknown_name lookup overwrite_node_at
  update_checked_node id input s config = elim (unknown_name w config input.profile) [
    | some e ↦ (failed invalid_argument e, s)
    | none ↦ elim (lookup id config.nodes) [
      | none ↦ (failed not_found err_not_found, s)
      | some n ↦ overwrite_node_at id s config (w.overwrite_node n input)
    ]
  ]

  -- `updateNode`
  unfoldable pub update_node_handler : Text → Node → Server File → Response Node × Server File
  unfolding update_checked_node
  update_node_handler id input s = opened s (update_checked_node id input s) (w.new s.file)
