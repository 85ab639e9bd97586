-- ===== src/Warewulfd/NodeDb.antt =====
-- internal/pkg/warewulfd/nodedb.go, without discovery (its search is in
-- Warewulfd/NodeDb/Discoverable, the rest in Warewulfd/Discovery), and `Bool` of
-- internal/pkg/wwtype/wwbool.go.
-- What `node.New` gives, a registry and perhaps an error, is an argument of the load.
pub mod Found
pub mod Discoverable
use warewulf.Common.{
  Bool, true, false, ◌||◌, List, [], ◌∷◌, ◌++◌, Option, none, some, if◌then◌else◌,
}
use warewulf.Common.Text.{Text, codes, text_eq, to_lower, contains}
use warewulf.Common.Maps.{Map, lookup, insert}
use warewulf.Common.Results.{Result, ok, err}
use warewulf.Node.Types.{Profile, Node, NodesYaml, NetDev}
use warewulf.Node.Merge.{merge_node}
use warewulf.Node.Groups.{find_all_nodes}

abbrev pub wwbool_unset_values : List Text
wwbool_unset_values =
    codes "unset" ∷ codes "delete" ∷ codes "undef" ∷ codes "--" ∷ codes "nil" ∷ codes "0.0.0.0" ∷ []

-- `strconv.ParseBool`, of a text in lower case; an error counts as false.
unfoldable pub is_true : Text → Bool
unfolding text_eq
is_true str = text_eq str (codes "1") || (text_eq str (codes "t") || text_eq str (codes "true"))

-- `(WWbool).Bool`
unfoldable pub wwbool : Text → Bool
unfolding to_lower contains text_eq is_true
wwbool val =
    let str = to_lower val in
    if contains wwbool_unset_values (to_lower str)
    then false
    else if text_eq str (codes "yes")
    then true
    else if text_eq str (codes "no") || text_eq str []
    then false
    else is_true str

pub record NodeDb : Type 0 where
  pub node_info : Map Text
  pub yml : NodesYaml

-- `for _, netdev := range n.NetDevs`
unfoldable pub add_devices : Text → Map NetDev → Map Text → Map Text
unfolding insert to_lower
add_devices id [] info = info
add_devices id ((_, dev) ∷ devs) info = add_devices id devs (insert (to_lower dev.hwaddr) id info)

unfoldable pub add_nodes : List Node → Map Text → Map Text
unfolding add_devices wwbool
add_nodes [] info = info
add_nodes (n ∷ nodes) info =
    add_nodes nodes
      (if wwbool n.discoverable then info else add_devices n.id n.profile.net_devs info)

module _ (merge_profile : Profile → Profile → Result Profile)
    (merge_own : Node → Node → Result Node) where
  -- The rest of `loadNodeDB`, after `db.yml` is set.
  unfoldable pub set_node_info : NodeDb → List Node × Option Text → NodeDb × Option Text
  unfolding add_nodes
  set_node_info db (nodes, some e) = (db, some e)
  set_node_info db (nodes, none) = (record db { node_info = add_nodes nodes [] }, none)

  -- `loadNodeDB`; the registry is replaced even where the load then fails.
  unfoldable pub load_node_db : NodesYaml × Option Text → NodeDb → NodeDb × Option Text
  unfolding set_node_info find_all_nodes
  load_node_db (yml, some e) db = (record db { yml = yml }, some e)
  load_node_db (yml, none) db =
      set_node_info (record db { yml = yml }) (find_all_nodes merge_profile merge_own yml [])

  -- `GetNode`
  unfoldable pub get_node : Text → NodeDb → Result Node
  unfolding lookup merge_node
  get_node hwaddr db = elim (lookup hwaddr db.node_info) [
    | none ↦ err (codes "no node configured for hwaddr " ++ hwaddr)
    | some id ↦ merge_node merge_profile merge_own db.yml id
  ]
