-- ===== src/Warewulfd/Status.antt =====
-- internal/pkg/warewulfd/status.go: `LoadNodeStatus`. What `node.New` gives, a registry and perhaps
-- an error, is an argument.
pub mod Loaded
use warewulf.Common.{List, [], ◌∷◌, Option, none, some}
use warewulf.Common.Text.{Text}
use warewulf.Common.Maps.{Map, lookup, insert}
use warewulf.Common.Results.{Result}
use warewulf.Node.Types.{Profile, Node, NodesYaml}
use warewulf.Node.Groups.{find_all_nodes}
use warewulf.Warewulfd.Access.{NodeStatus}

-- The status that is kept for a node, or that of a node never seen.
unfoldable pub status_or_new : Text → Option NodeStatus → NodeStatus
status_or_new id none = record { node_name = id; stage = []; sent = []; ipaddr = []; lastseen = 0 }
status_or_new id (some s) = s

-- The loop over the nodes.
unfoldable pub keep_statuses : Map NodeStatus → List Node → Map NodeStatus → Map NodeStatus
unfolding lookup insert status_or_new
keep_statuses old [] new_db = new_db
keep_statuses old (n ∷ nodes) new_db =
    keep_statuses old nodes (insert n.id (status_or_new n.id (lookup n.id old)) new_db)

-- The rest of `LoadNodeStatus`, after `FindAllNodes`.
unfoldable pub set_statuses :
    Map NodeStatus → List Node × Option Text → Map NodeStatus × Option Text
unfolding keep_statuses
set_statuses status (nodes, some e) = (status, some e)
set_statuses status (nodes, none) = (keep_statuses status nodes [], none)

module _ (merge_profile : Profile → Profile → Result Profile)
    (merge_own : Node → Node → Result Node) where
  unfoldable pub load_node_status :
      NodesYaml × Option Text → Map NodeStatus → Map NodeStatus × Option Text
  unfolding set_statuses find_all_nodes
  load_node_status (yml, some e) status = (status, some e)
  load_node_status (yml, none) status =
      set_statuses status (find_all_nodes merge_profile merge_own yml [])
