-- ===== src/Warewulfd/Access.antt =====
-- internal/pkg/warewulfd/parser.go: `initHandleRequest`, and `updateStatus` of status.go. What
-- `GetOrDiscoverNode` gives is an argument, as is the time of the clock.
pub mod Granted
use warewulf.Common.{
  ℕ, Bool, true, false, not, ◌&&◌, List, [], ◌∷◌, Option, none, some, leb, if◌then◌else◌,
}
use warewulf.Common.Text.{Text, codes, text_eq}
use warewulf.Common.Maps.{Map, insert}
use warewulf.Common.Results.{Result, ok, err}
use warewulf.Node.Types.{Node}
use warewulf.Warewulfd.Requests.{Request, ParsedRequest, parse_request}

pub record NodeStatus : Type 0 where
  pub node_name : Text
  pub stage : Text
  pub sent : Text
  pub ipaddr : Text
  pub lastseen : ℕ

unfoldable pub update_status : ℕ → Text → Text → Text → Text → Map NodeStatus → Map NodeStatus
unfolding insert
update_status now node_id stage sent ipaddr status =
    insert node_id
      (record { node_name = node_id; stage = stage; sent = sent; ipaddr = ipaddr; lastseen = now })
      status

-- What the database of nodes answers: a node, with or without `ErrNoUnconfigured`, or another error.
pub data NodeAnswer : Type 0 where
  configured : Node → NodeAnswer
  no_unconfigured : Node → NodeAnswer
  unavailable : Text → NodeAnswer

-- The configuration that the checks read.
pub record Conf : Type 0 where
  pub secure : Bool

pub record RequestContext : Type 0 where
  pub rinfo : ParsedRequest
  pub remote_node : Node

-- The HTTP status that is written, or the context for the handler.
pub data Handled : Type 0 where
  refused : ℕ → Handled
  granted : RequestContext → Handled

-- The checks once a node is found; `status` is the database of statuses.
unfoldable pub check_asset_key :
    ℕ → ParsedRequest → Map NodeStatus → Node → Handled × Map NodeStatus
unfolding text_eq update_status
check_asset_key now rinfo status node =
    if not (text_eq node.asset_key []) && not (text_eq node.asset_key rinfo.assetkey)
    then (
      refused 401,
      update_status now node.id rinfo.stage (codes "BAD_ASSET") rinfo.ipaddr status,
    )
    else (granted (record { rinfo = rinfo; remote_node = node }), status)

unfoldable pub check_node :
    ℕ → ParsedRequest → Map NodeStatus → NodeAnswer → Handled × Map NodeStatus
unfolding check_asset_key
check_node now rinfo status (configured node) = check_asset_key now rinfo status node
check_node now rinfo status (no_unconfigured node) = check_asset_key now rinfo status node
check_node now rinfo status (unavailable _) = (refused 503, status)

module _ (conf : Conf) (arp_find : Text → Text) (get_or_discover_node : Text → NodeAnswer)
    (now : ℕ) where
  unfoldable pub check_parsed : ParsedRequest → Map NodeStatus → Handled × Map NodeStatus
  unfolding text_eq check_node
  check_parsed rinfo status =
      if (text_eq rinfo.stage (codes "runtime") && conf.secure) && leb 1024 rinfo.remoteport
      then (refused 401, status)
      else check_node now rinfo status (get_or_discover_node rinfo.hwaddr)

  unfoldable pub init_handle_request : Request → Map NodeStatus → Handled × Map NodeStatus
  unfolding parse_request check_parsed
  init_handle_request req status = elim (parse_request arp_find req) [
    | err _ ↦ (refused 400, status)
    | ok rinfo ↦ check_parsed rinfo status
  ]
