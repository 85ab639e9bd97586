-- ===== src/Node/Changes.antt =====
-- internal/pkg/node/modifiers.go: `SetNode` and `SetProfile`, which send the new values through
-- encoding/gob into the old struct. A field is not sent where it is empty, or a pointer to false,
-- and a field that is not sent keeps its old value; unexported fields are never sent. The entries
-- of a map that is sent are new values in the old map. The encoding fails only for types that are
-- not registered, which a registry read from YAML does not hold.
pub mod Received
use warewulf.Common.{Bool, true, false, List, [], ◌∷◌, Option, none, some}
use warewulf.Common.Text.{Text}
use warewulf.Common.Maps.{Map, lookup, insert}
use warewulf.Common.Results.{Result, ok, err}
use warewulf.Node.Types.{
  Profile, Node, NodesYaml, NetDev, Disk, Partition, FileSystem, KernelConf, IpmiConf, Resource,
}
use warewulf.Node.Registry.{no_ipmi, no_kernel, err_not_found}

-- A text or a list in the old struct after it is received.
abbrev pub received : {A : Type 0} → List A → List A → List A
received [] old = old
received (x ∷ new) old = x ∷ new

-- A pointer to a bool in a new struct.
abbrev pub sent_bool : Option Bool → Option Bool
sent_bool none = none
sent_bool (some true) = some true
sent_bool (some false) = none

-- The entries of a map, each sent, over those of the old map.
unfoldable pub received_map : {V : Type 0} → (V → V) → Map V → Map V → Map V
unfolding insert
received_map send [] old = old
received_map send ((k, v) ∷ new) old = received_map send new (insert k (send v) old)

abbrev same : {A : Type 0} → A → A
same a = a

abbrev pub sent_tags : Map Text → Map Text
unfolding received_map
sent_tags tags = received_map same tags []

unfoldable pub sent_net_dev : NetDev → NetDev
unfolding received_map
sent_net_dev dev = record dev { tags = sent_tags dev.tags; primary = false }

unfoldable pub sent_partition : Partition → Partition
sent_partition p = record p {
  id = [];
  wipe_partition_entry = sent_bool p.wipe_partition_entry;
  should_exist = sent_bool p.should_exist;
  resize = sent_bool p.resize;
}

unfoldable pub sent_disk : Disk → Disk
unfolding received_map sent_partition
sent_disk d = record {
  id = [];
  wipe_table = sent_bool d.wipe_table;
  partitions = received_map sent_partition d.partitions [];
}

unfoldable pub sent_file_system : FileSystem → FileSystem
sent_file_system f = record f { id = []; wipe_file_system = sent_bool f.wipe_file_system }

abbrev old_or_new : {A : Type 0} → A → Option A → A
old_or_new new none = new
old_or_new new (some old) = old

unfoldable pub received_kernel : Option KernelConf → Option KernelConf → Option KernelConf
received_kernel none old = old
received_kernel (some k) old =
    let o = old_or_new no_kernel old in
    some (record { version = received k.version o.version; args = received k.args o.args })

unfoldable pub received_ipmi : Option IpmiConf → Option IpmiConf → Option IpmiConf
unfolding received_map
received_ipmi none old = old
received_ipmi (some i) old =
    let o = old_or_new no_ipmi old in
    some (record {
      user_name = received i.user_name o.user_name;
      password = received i.password o.password;
      ipaddr = received i.ipaddr o.ipaddr;
      gateway = received i.gateway o.gateway;
      netmask = received i.netmask o.netmask;
      port = received i.port o.port;
      interface = received i.interface o.interface;
      escape_char = received i.escape_char o.escape_char;
      write = received i.write o.write;
      template = received i.template o.template;
      tags = received_map same i.tags o.tags;
    })

unfoldable pub received_profile : Profile → Profile → Profile
unfolding received_map received_kernel received_ipmi sent_net_dev sent_disk sent_file_system
received_profile vals old = record {
  id = old.id;
  profiles = received vals.profiles old.profiles;
  groups = received vals.groups old.groups;
  comment = received vals.comment old.comment;
  cluster_name = received vals.cluster_name old.cluster_name;
  image_name = received vals.image_name old.image_name;
  ipxe = received vals.ipxe old.ipxe;
  runtime_overlay = received vals.runtime_overlay old.runtime_overlay;
  system_overlay = received vals.system_overlay old.system_overlay;
  kernel = received_kernel vals.kernel old.kernel;
  ipmi = received_ipmi vals.ipmi old.ipmi;
  init = received vals.init old.init;
  root = received vals.root old.root;
  net_devs = received_map sent_net_dev vals.net_devs old.net_devs;
  tags = received_map same vals.tags old.tags;
  primary_net_dev = received vals.primary_net_dev old.primary_net_dev;
  disks = received_map sent_disk vals.disks old.disks;
  file_systems = received_map sent_file_system vals.file_systems old.file_systems;
  resources = received_map same vals.resources old.resources;
}

unfoldable pub received_node : Node → Node → Node
unfolding received_profile
received_node vals old = record {
  id = old.id;
  valid = old.valid;
  discoverable = received vals.discoverable old.discoverable;
  asset_key = received vals.asset_key old.asset_key;
  profile = received_profile vals.profile old.profile;
}

-- `SetNode`
unfoldable pub set_node : Text → Node → NodesYaml → Result NodesYaml
unfolding lookup insert received_node
set_node node_id vals config = elim (lookup node_id config.nodes) [
  | none ↦ err err_not_found
  | some node ↦ ok (record config { nodes = insert node_id (received_node vals node) config.nodes })
]

-- `SetProfile`
unfoldable pub set_profile : Text → Profile → NodesYaml → Result NodesYaml
unfolding lookup insert received_profile
set_profile profile_id vals config = elim (lookup profile_id config.node_profiles) [
  | none ↦ err err_not_found
  | some profile ↦ ok (record config {
    node_profiles = insert profile_id (received_profile vals profile) config.node_profiles;
  })
]
