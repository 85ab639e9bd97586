-- ===== src/Warewulfd/Examples.antt =====
-- The theorems on requests, the node database and access, at one request.
mod Discovery
mod Api
mod Guard
use warewulf.Common.{◌<◌, ◌≡◌, ◌≢◌, refl, true, false, [], ◌∷◌, Option, none, some, ◌⊎◌}
use warewulf.Common.Text.{Text, codes, text_eq, split, to_lower, contains}
use warewulf.Common.Maps.{Map, lookup, insert, keys}
use warewulf.Common.Results.{Result, ok}
use warewulf.Node.Types.{Profile, Node, NodesYaml, NetDev}
use warewulf.Node.Registry.{no_node, no_profile}
use warewulf.Warewulfd.Requests.{Request, ParsedRequest, parse_request}
use warewulf.Warewulfd.Requests.Canonical.{IsParsed, parse_request-IsParsed}
use warewulf.Warewulfd.NodeDb.{NodeDb, load_node_db}
use warewulf.Node.Groups.{find_all_nodes}
use warewulf.Warewulfd.NodeDb.Discoverable.{
  FindsDiscoverable, find_discoverable_node, find_discoverable_node-Finds,
}
use warewulf.Warewulfd.NodeDb.Found.{GetsNode, load_node_db-GetsNode}
use warewulf.Warewulfd.Access.{
  NodeStatus, NodeAnswer, configured, Conf, RequestContext, granted, init_handle_request,
}
use warewulf.Warewulfd.Status.{load_node_status}
use warewulf.Warewulfd.Status.Loaded.{Follows, load_node_status-Follows}
use warewulf.Warewulfd.Provision.{handle_runtime_overlay, handle_provision}
use warewulf.Warewulfd.Provision.Served.{handle_provision-privileged}
use warewulf.Warewulfd.Access.Granted.{Outcome, init_handle_request-Outcome}

abbrev no_arp : Text → Text
no_arp _ = []

abbrev runtime_request : Request
runtime_request = record {
  path = codes "/overlay-runtime/AA-BB";
  raw_query = codes "assetkey=k1";
  query = (codes "assetkey", codes "k1" ∷ []) ∷ [];
  remote_addr = codes "10.0.0.2:987";
  remote = some (codes "10.0.0.2", 987);
}

abbrev parsed_request : ParsedRequest
parsed_request = record {
  hwaddr = codes "aa:bb";
  ipaddr = codes "10.0.0.2";
  remoteport = 987;
  assetkey = codes "k1";
  uuid = [];
  stage = codes "runtime";
  efifile = [];
  compress = [];
}

request_parses : parse_request no_arp runtime_request ≡ ok parsed_request
unfolding parse_request lookup text_eq split to_lower
request_parses = refl

parse_request-IsParsed_example : IsParsed runtime_request parsed_request
parse_request-IsParsed_example =
    parse_request-IsParsed no_arp runtime_request parsed_request request_parses

abbrev keyed_node : Node
keyed_node = record no_node { id = codes "n1"; asset_key = codes "k2" }

abbrev one_node : Text → NodeAnswer
one_node _ = configured keyed_node

init_handle_request-Outcome_example :
    Outcome
      (record { secure = true })
      no_arp
      one_node
      7
      runtime_request
      []
      (init_handle_request (record { secure = true }) no_arp one_node 7 runtime_request [])
init_handle_request-Outcome_example =
    init_handle_request-Outcome (record { secure = true }) no_arp one_node 7 runtime_request []

abbrev first_profile : Profile → Profile → Result Profile
first_profile a b = ok b

abbrev own_node : Node → Node → Result Node
own_node a b = ok b

-- A node with one device, which is found by its address.
abbrev one_device : NetDev
one_device = record {
  type = [];
  on_boot = [];
  device = [];
  hwaddr = codes "AA:BB";
  ipaddr = [];
  netmask = [];
  gateway = [];
  ipaddr6 = [];
  prefix_len6 = [];
  gateway6 = [];
  mtu = [];
  tags = [];
  primary = false;
}

abbrev device_node : Node
device_node = record no_node {
  profile = record no_profile { net_devs = (codes "eth0", one_device) ∷ [] };
}

abbrev one_nodes : NodesYaml
one_nodes = record { node_profiles = []; nodes = (codes "n1", device_node) ∷ [] }

abbrev empty_db : NodeDb
empty_db = record { node_info = []; yml = record { node_profiles = []; nodes = [] } }

abbrev loaded_db : NodeDb
loaded_db = record { node_info = (codes "aa:bb", codes "n1") ∷ []; yml = one_nodes }

abbrev no_error : Option Text
no_error = none

loads : load_node_db first_profile own_node (one_nodes, none) empty_db ≡ (loaded_db, no_error)
unfolding load_node_db lookup text_eq to_lower contains insert keys
loads = refl

load_node_db-GetsNode_example :
    (loaded_db.yml ≡ one_nodes)
    × (((no_error ≡ none)
          × (no_error ≡ none)
          × ((h : Text) → GetsNode first_profile own_node one_nodes loaded_db h))
        ⊎ ((no_error ≢ none) × (loaded_db.node_info ≡ empty_db.node_info)))
load_node_db-GetsNode_example =
    load_node_db-GetsNode first_profile own_node one_nodes no_error empty_db loaded_db no_error
      loads

abbrev old_status : NodeStatus
old_status = record {
  node_name = codes "old";
  stage = codes "image";
  sent = [];
  ipaddr = [];
  lastseen = 5;
}

abbrev new_status : NodeStatus
new_status = record { node_name = codes "n1"; stage = []; sent = []; ipaddr = []; lastseen = 0 }

abbrev old_statuses : Map NodeStatus
old_statuses = (codes "old", old_status) ∷ []

abbrev new_statuses : Map NodeStatus
new_statuses = (codes "n1", new_status) ∷ []

loads_statuses :
    load_node_status first_profile own_node (one_nodes, none) old_statuses
    ≡ (new_statuses, no_error)
unfolding load_node_status lookup text_eq to_lower contains insert keys
loads_statuses = refl

load_node_status-Follows_example :
    ((no_error ≡ none)
      × (no_error ≡ none)
      × ((name : Text) → Follows one_nodes old_statuses new_statuses name))
    ⊎ ((no_error ≢ none) × (new_statuses ≡ old_statuses))
load_node_status-Follows_example =
    load_node_status-Follows first_profile own_node one_nodes no_error old_statuses new_statuses
      no_error loads_statuses

abbrev secure_conf : Conf
secure_conf = record { secure = true }

abbrev open_node : Text → NodeAnswer
open_node _ = configured no_node

abbrev open_context : RequestContext
open_context = record { rinfo = parsed_request; remote_node = no_node }

abbrev no_statuses : Map NodeStatus
no_statuses = []

runtime_chosen : handle_provision no_arp runtime_request ≡ handle_runtime_overlay
unfolding handle_provision lookup text_eq split to_lower
runtime_chosen = refl

runtime_granted :
    init_handle_request secure_conf no_arp open_node 7 runtime_request no_statuses
    ≡ (granted open_context, no_statuses)
unfolding init_handle_request parse_request lookup text_eq split to_lower
runtime_granted = refl

handle_provision-privileged_example :
    (open_context.rinfo.stage ≡ codes "runtime")
    × (secure_conf.secure ≡ true → open_context.rinfo.remoteport < 1024)
handle_provision-privileged_example =
    handle_provision-privileged secure_conf no_arp open_node 7 runtime_request no_statuses
      no_statuses open_context runtime_chosen runtime_granted

abbrev discoverable_node : Node
discoverable_node = record device_node { discoverable = codes "true" }

abbrev discoverable_nodes : NodesYaml
discoverable_nodes = record { node_profiles = []; nodes = (codes "n1", discoverable_node) ∷ [] }

find_discoverable_node-Finds_example :
    FindsDiscoverable
      (find_all_nodes first_profile own_node discoverable_nodes []).0
      (find_discoverable_node first_profile own_node discoverable_nodes)
find_discoverable_node-Finds_example =
    find_discoverable_node-Finds first_profile own_node discoverable_nodes
