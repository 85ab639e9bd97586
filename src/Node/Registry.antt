-- ===== src/Node/Registry.antt =====
-- internal/pkg/node/modifiers.go and constructors.go: the changes of the registry in memory. A call
-- gives the registry after it; a nil map and an empty one are the same here.
pub mod Steps
use warewulf.Common.{false, List, [], ◌∷◌, ◌++◌, Option, none, some}
use warewulf.Common.Text.{Text, codes}
use warewulf.Common.Maps.{Map, lookup, insert, delete}
use warewulf.Common.Results.{Result, ok, err}
use warewulf.Node.Types.{Profile, Node, NodesYaml, IpmiConf, KernelConf}

-- The zero values that `new` gives.
abbrev pub no_ipmi : IpmiConf
no_ipmi = record {
  user_name = [];
  password = [];
  ipaddr = [];
  gateway = [];
  netmask = [];
  port = [];
  interface = [];
  escape_char = [];
  write = [];
  template = [];
  tags = [];
}

abbrev pub no_kernel : KernelConf
no_kernel = record { version = []; args = [] }

abbrev pub no_profile : Profile
no_profile = record {
  id = [];
  profiles = [];
  groups = [];
  comment = [];
  cluster_name = [];
  image_name = [];
  ipxe = [];
  runtime_overlay = [];
  system_overlay = [];
  kernel = none;
  ipmi = none;
  init = [];
  root = [];
  net_devs = [];
  tags = [];
  primary_net_dev = [];
  disks = [];
  file_systems = [];
  resources = [];
}

abbrev pub no_node : Node
no_node = record { id = []; valid = false; discoverable = []; asset_key = []; profile = no_profile }

abbrev or_new : {A : Type 0} → A → Option A → Option A
or_new a none = some a
or_new a (some b) = some b

-- `(*Profile).Expand`
unfoldable pub expand_profile_conf : Profile → Profile
expand_profile_conf p = record p {
  ipmi = or_new no_ipmi p.ipmi;
  kernel = or_new no_kernel p.kernel;
}

unfoldable pub empty_profile : Profile
unfolding expand_profile_conf
empty_profile = expand_profile_conf no_profile

unfoldable pub empty_node : Node
unfolding expand_profile_conf
empty_node = record no_node { profile = expand_profile_conf no_profile }

unfoldable pub new_node : Text → Node
unfolding empty_node
new_node id = record empty_node { id = id }

abbrev pub err_not_found : Text
err_not_found = codes "node/profile not found"

unfoldable pub add_node : Text → NodesYaml → Result (Node × NodesYaml)
unfolding lookup insert new_node
add_node node_id config = elim (lookup node_id config.nodes) [
  | some _ ↦ err (codes "nodename already exists: " ++ node_id)
  | none ↦
      ok
        (new_node node_id, record config { nodes = insert node_id (new_node node_id) config.nodes })
]

unfoldable pub del_node : Text → NodesYaml → Result NodesYaml
unfolding lookup delete
del_node node_id config = elim (lookup node_id config.nodes) [
  | none ↦ err (codes "nodename does not exist: " ++ node_id)
  | some _ ↦ ok (record config { nodes = delete node_id config.nodes })
]

unfoldable pub add_profile : Text → NodesYaml → Result (Profile × NodesYaml)
unfolding lookup insert empty_profile
add_profile profile_id config = elim (lookup profile_id config.node_profiles) [
  | some _ ↦ err (codes "profile already exists: " ++ profile_id)
  | none ↦ ok (
    empty_profile,
    record config { node_profiles = insert profile_id empty_profile config.node_profiles },
  )
]

unfoldable pub del_profile : Text → NodesYaml → Result NodesYaml
unfolding lookup delete
del_profile profile_id config = elim (lookup profile_id config.node_profiles) [
  | none ↦ err (codes "profile does not exist: " ++ profile_id)
  | some _ ↦ ok (record config { node_profiles = delete profile_id config.node_profiles })
]

-- `GetNodeOnly`; with the error it gives an empty node, that no caller reads.
unfoldable pub get_node_only : Text → NodesYaml → Result Node
unfolding lookup
get_node_only id config = elim (lookup id config.nodes) [ some n ↦ ok n | none ↦ err err_not_found ]

-- `GetProfile`; the id is also written into the registry, which only this function reads.
unfoldable pub get_profile : Text → NodesYaml → Result Profile
unfolding lookup
get_profile id config = elim (lookup id config.node_profiles) [
  | some p ↦ ok (record p { id = id })
  | none ↦ err err_not_found
]
