-- ===== src/Node/Groups.antt =====
-- internal/pkg/node/groups.go, and `FindAllNodes` of constructors.go.
pub mod Carried
pub mod Found
pub mod All
use warewulf.Common.{
  Bool, true, false, not, List, [], ◌∷◌, ◌++◌, Option, none, some, if◌then◌else◌, keep, any,
}
use warewulf.Common.Text.{Text, codes, text_eq, text_le, contains}
use warewulf.Common.Maps.{Map, lookup, keys}
use warewulf.Common.Sort.{sort, sort_texts}
use warewulf.Common.Results.{Result, ok, err}
use warewulf.Node.Types.{Profile, Node, NodesYaml}
use warewulf.Node.Lists.{is_negated}
use warewulf.Node.Profiles.{get_node_profiles}
use warewulf.Node.Queries.{list_all_nodes}
use warewulf.Node.Registry.{get_profile}
use warewulf.Node.Merge.{merge_node}

abbrev pub all_group : Text
all_group = codes "all"

unfoldable pub own_group : NodesYaml → Text → Text → Bool
unfolding lookup contains
own_group config node_id token = elim (lookup node_id config.nodes) [
  | none ↦ false
  | some n ↦ contains n.profile.groups token
]

-- The body of the loop over the profiles of the node.
unfoldable pub profile_group : NodesYaml → Text → Text → Bool
unfolding is_negated get_profile contains
profile_group config token profile_id =
    if is_negated profile_id then false else elim (get_profile profile_id config) [
      | err _ ↦ false
      | ok profile ↦ contains profile.groups token
    ]

unfoldable pub has_literal_group : NodesYaml → Text → Text → Bool
unfolding own_group profile_group get_node_profiles
has_literal_group config node_id token =
    if own_group config node_id token then true else elim (get_node_profiles config node_id) [
      | none ↦ false
      | some ids ↦ any (profile_group config token) ids
    ]

-- The order of `FindAllNodes`: by cluster, then by id.
unfoldable pub node_le : Node → Node → Bool
unfolding text_eq text_le
node_le a b =
    if text_eq a.profile.cluster_name b.profile.cluster_name
    then text_le a.id b.id
    else text_le a.profile.cluster_name b.profile.cluster_name

module _ (merge_profile : Profile → Profile → Result Profile)
    (merge_own : Node → Node → Result Node) where
  unfoldable pub in_group : NodesYaml → Text → Text → Bool
  unfolding merge_node contains
  in_group config name id = elim (merge_node merge_profile merge_own config id) [
    | err _ ↦ false
    | ok merged ↦ contains merged.profile.groups name
  ]

  -- The map `members` is the list of its keys; the warning about an unknown group is left out.
  unfoldable pub group_members : NodesYaml → Text → List Text
  unfolding text_eq list_all_nodes has_literal_group sort_texts keys in_group
  group_members config name =
      if text_eq name all_group
      then keep (λ id. not (has_literal_group config id (codes "~all"))) (list_all_nodes config)
      else sort_texts (keep (in_group config name) (keys config.nodes))

  -- The loop of `FindAllNodes`: the nodes found, and the error at which it stopped, if it did.
  unfoldable pub get_nodes : NodesYaml → List Text → List Node → List Node × Option Text
  unfolding merge_node
  get_nodes config [] found = (found, none)
  get_nodes config (id ∷ ids) found = elim (merge_node merge_profile merge_own config id) [
    | err e ↦ (found, some e)
    | ok node ↦ get_nodes config ids (found ++ node ∷ [])
  ]

  -- `FindAllNodes`; where it fails, the nodes found so far are not sorted.
  unfoldable pub sort_found : List Node × Option Text → List Node × Option Text
  unfolding sort node_le
  sort_found (found, none) = (sort node_le found, none)
  sort_found (found, some e) = (found, some e)

  abbrev pub asked : NodesYaml → List Text → List Text
  asked config [] = keys config.nodes
  asked config (id ∷ ids) = id ∷ ids

  unfoldable pub find_all_nodes : NodesYaml → List Text → List Node × Option Text
  unfolding get_nodes sort_found keys
  find_all_nodes config ids = sort_found (get_nodes config (asked config ids) [])

  unfoldable pub list_nodes_using_group : NodesYaml → Text → List Node × Option Text
  unfolding group_members find_all_nodes
  list_nodes_using_group config name = elim (group_members config name) [
    | [] ↦ ([], none)
    | m ∷ members ↦ find_all_nodes config (m ∷ members)
  ]
