-- ===== src/Warewulfd/Discovery.antt =====
-- internal/pkg/warewulfd/nodedb.go: `GetOrDiscoverNode`. What `net.ParseMAC` accepts is an
-- argument, and so are `Persist`, which gives the registry as it is then in memory, and what
-- `node.New` reads back of it. The removal of overlay images is left out, and `NodeAnswer` tells
-- `ErrNoUnconfigured` from other errors.
pub mod Known
pub mod Configured
pub mod Again
use warewulf.Common.{Bool, true, false, List, [], ◌∷◌, ◌++◌, Option, none, some, if◌then◌else◌}
use warewulf.Common.Text.{Text, codes}
use warewulf.Common.Maps.{Map, lookup, insert}
use warewulf.Common.Results.{Result, ok, err}
use warewulf.Node.Types.{Profile, Node, NodesYaml, NetDev}
use warewulf.Node.Registry.{empty_node}
use warewulf.Node.Merge.{merge_node}
use warewulf.Node.Changes.{set_node}
use warewulf.Warewulfd.NodeDb.{NodeDb, load_node_db}
use warewulf.Warewulfd.NodeDb.Discoverable.{find_discoverable_node}
use warewulf.Warewulfd.Access.{NodeAnswer, configured, no_unconfigured, unavailable}

abbrev pub no_net_dev : NetDev
no_net_dev = record {
  type = [];
  on_boot = [];
  device = [];
  hwaddr = [];
  ipaddr = [];
  netmask = [];
  gateway = [];
  ipaddr6 = [];
  prefix_len6 = [];
  gateway6 = [];
  mtu = [];
  tags = [];
  primary = false;
}

-- The devices of the changed node: the device, where the node itself has it, gets the address in
-- the map that the registry shares; else a new map holds just a new device.
unfoldable pub change_devices : Text → Text → Map NetDev → Map NetDev
unfolding lookup insert
change_devices netdev hwaddr devs = elim (lookup netdev devs) [
  | none ↦ (netdev, record no_net_dev { hwaddr = hwaddr }) ∷ []
  | some dev ↦ insert netdev (record dev { hwaddr = hwaddr }) devs
]

unfoldable pub share_devices : Text → Text → Map NetDev → Map NetDev
unfolding lookup insert
share_devices netdev hwaddr devs = elim (lookup netdev devs) [
  | none ↦ devs
  | some dev ↦ insert netdev (record dev { hwaddr = hwaddr }) devs
]

abbrev pub with_devices : Map NetDev → Node → Node
with_devices devs n = record n { profile = record n.profile { net_devs = devs } }

-- `nodeChanges`
unfoldable pub node_changes : Text → Text → Node → Node
unfolding change_devices
node_changes netdev hwaddr n =
    record (with_devices (change_devices netdev hwaddr n.profile.net_devs) n) {
      discoverable = codes "UNDEF";
    }

-- The registry once its device is changed, and the changes, for a node that is there.
unfoldable pub change_node : Text → Text → Text → NodesYaml → Node → NodesYaml × Node
unfolding insert share_devices node_changes
change_node id netdev hwaddr config n = (
  record config {
    nodes =
        insert id (with_devices (share_devices netdev hwaddr n.profile.net_devs) n) config.nodes;
  },
  node_changes netdev hwaddr n,
)

abbrev pub answer : Result Node → NodeAnswer
answer (ok n) = configured n
answer (err e) = unavailable e

module _ (merge_profile : Profile → Profile → Result Profile)
    (merge_own : Node → Node → Result Node) (parse_mac : Text → Bool)
    (persist : NodesYaml → NodesYaml × Option Text)
    (read_back : NodesYaml → NodesYaml × Option Text) where
  abbrev pub get : Text → NodesYaml → NodeAnswer
  get id config = answer (merge_node merge_profile merge_own config id)

  abbrev pub answer_loaded : Text → NodeDb × Option Text → NodeAnswer × NodeDb
  answer_loaded id (db, some e) = (unavailable e, db)
  answer_loaded id (db, none) = (get id db.yml, db)

  -- Once the registry is written.
  abbrev pub reload : Text → NodeDb → NodesYaml × Option Text → NodeAnswer × NodeDb
  reload id db (yml, some e) = (unavailable e, record db { yml = yml })
  reload id db (yml, none) =
      answer_loaded id
        (load_node_db merge_profile merge_own (read_back yml) (record db { yml = yml }))

  -- Once `SetNode` is called on the registry.
  abbrev pub save : Text → NodeDb → Result NodesYaml → NodeAnswer × NodeDb
  save id db (err e) = (unavailable e, db)
  save id db (ok yml) = reload id db (persist yml)

  -- The configuration of the node that is found.
  unfoldable pub configure : Text → Text → Text → NodeDb → NodeAnswer × NodeDb
  unfolding lookup change_node set_node merge_node load_node_db
  configure hwaddr id netdev db = elim (lookup id db.yml.nodes) [
    | none ↦ save id db (set_node id (node_changes netdev hwaddr empty_node) db.yml)
    | some n ↦
        let (yml, changes) = change_node id netdev hwaddr db.yml n in
        save id (record db { yml = yml }) (set_node id changes yml)
  ]

  unfoldable pub discover : Text → NodeDb → NodeAnswer × NodeDb
  unfolding find_discoverable_node configure
  discover hwaddr db = elim (find_discoverable_node merge_profile merge_own db.yml) [
    | none ↦ (no_unconfigured empty_node, db)
    | some (n, netdev) ↦ configure hwaddr n.id netdev db
  ]

  -- `GetOrDiscoverNode`
  unfoldable pub get_or_discover_node : Text → NodeDb → NodeAnswer × NodeDb
  unfolding lookup merge_node discover
  get_or_discover_node hwaddr db = elim (lookup hwaddr db.node_info) [
    | some id ↦ (get id db.yml, db)
    | none ↦ if parse_mac hwaddr then discover hwaddr db else (no_unconfigured empty_node, db)
  ]
