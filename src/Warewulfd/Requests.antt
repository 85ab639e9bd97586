-- ===== src/Warewulfd/Requests.antt =====
-- internal/pkg/warewulfd/parser.go: `parseRequest`. A request is what net/http and net/netip make of
-- it; what `ArpFind` reads from /proc/net/arp is an argument.
pub mod Values
pub mod Canonical
use warewulf.Common.{
  ℕ, Bool, true, false, not, ◌&&◌, List, [], ◌∷◌, ◌++◌, Option, none, some, ◌==◌, if◌then◌else◌,
  map,
}
use warewulf.Common.Text.{Text, codes, text_eq, split, join, to_lower}
use warewulf.Common.Maps.{Map, lookup}
use warewulf.Common.Results.{Result, ok, err}

-- `req.URL.Path`, `req.URL.RawQuery`, `req.URL.Query()`, `req.RemoteAddr`, and the address and port
-- that `netip.ParseAddrPort` reads from it, if it does.
pub record Request : Type 0 where
  pub path : Text
  pub raw_query : Text
  pub query : Map (List Text)
  pub remote_addr : Text
  pub remote : Option (Text × ℕ)

pub record ParsedRequest : Type 0 where
  pub hwaddr : Text
  pub ipaddr : Text
  pub remoteport : ℕ
  pub assetkey : Text
  pub uuid : Text
  pub stage : Text
  pub efifile : Text
  pub compress : Text

abbrev pub colon_byte : ℕ → ℕ
colon_byte c = if c == b'-' then b':' else c

unfoldable pub parse_hwaddr : Text → Text
unfolding to_lower
parse_hwaddr hwaddr = to_lower (map colon_byte hwaddr)

-- `req.URL.Query()[key][0]`, if there is one
unfoldable pub first_value : Request → Text → Option Text
unfolding lookup
first_value req key = elim (lookup key req.query) [
  | none ↦ none
  | some values ↦ elim values [ [] ↦ none | v ∷ _ ↦ some v ]
]

-- The value of a parameter that keeps its zero value where the query lacks it.
unfoldable pub value_or_empty : Option Text → Text
value_or_empty none = []
value_or_empty (some v) = v

unfoldable pub requested_stage : Request → Text → Text
unfolding first_value text_eq
requested_stage req stage =
    if text_eq stage (codes "provision")
    then elim (first_value req (codes "stage")) [ none ↦ stage | some s ↦ s ]
    else stage

unfoldable pub known_stage : Text → Text
unfolding text_eq
known_stage stage =
    if text_eq stage (codes "provision")
    then codes "ipxe"
    else if text_eq stage (codes "container")
    then codes "image"
    else if text_eq stage (codes "overlay-system")
    then codes "system"
    else if text_eq stage (codes "overlay-runtime")
    then codes "runtime"
    else stage

unfoldable pub path_efifile : Text → List Text → Text
unfolding text_eq join
path_efifile stage [] = []
path_efifile stage (p ∷ parts) =
    if text_eq stage (codes "efiboot") then join (p ∷ parts) (codes "/") else []

unfoldable pub path_hwaddr : Text → List Text → Text
unfolding text_eq parse_hwaddr
path_hwaddr stage [] = []
path_hwaddr stage (p ∷ parts) = if text_eq stage (codes "efiboot") then [] else parse_hwaddr p

-- The hardware address: from the path, or else the query, or else the ARP cache.
unfoldable pub find_hwaddr : (Text → Text) → Request → Text → Text → Text
unfolding text_eq first_value parse_hwaddr
find_hwaddr arp_find req ip from_path =
    let from_query =
      if text_eq from_path []
      then elim (first_value req (codes "wwid")) [ none ↦ [] | some v ↦ parse_hwaddr v ]
      else from_path in
    if text_eq from_query [] then parse_hwaddr (arp_find ip) else from_query

unfoldable pub is_supported : Text → Bool
unfolding text_eq
is_supported compress = not (not (text_eq compress []) && not (text_eq compress (codes "gz")))

-- The rest of the call, once the stage and the remote address are known.
unfoldable pub parse_known :
    (Text → Text) → Request → Text → List Text → Text → ℕ → Result ParsedRequest
unfolding text_eq find_hwaddr path_hwaddr path_efifile is_supported first_value value_or_empty
parse_known arp_find req stage parts ip port =
    let hwaddr = find_hwaddr arp_find req ip (path_hwaddr stage parts) in
    let compress = value_or_empty (first_value req (codes "compress")) in
    if text_eq hwaddr []
    then err (codes "unable to determine wwid: " ++ req.raw_query)
    else if not (is_supported compress)
    then err (codes "unsupported compression: " ++ compress)
    else ok (record {
      hwaddr = hwaddr;
      ipaddr = ip;
      remoteport = port;
      assetkey = value_or_empty (first_value req (codes "assetkey"));
      uuid = value_or_empty (first_value req (codes "uuid"));
      stage = stage;
      efifile =
          if text_eq (path_efifile stage parts) []
          then value_or_empty (first_value req (codes "file"))
          else path_efifile stage parts;
      compress = compress;
    })

unfoldable pub parse_remote :
    (Text → Text) → Request → Text → List Text → Option (Text × ℕ) → Result ParsedRequest
unfolding text_eq parse_known
parse_remote arp_find req stage parts none = err (codes "could not parse remote address")
parse_remote arp_find req stage parts (some (ip, port)) =
    if text_eq ip []
    then err (codes "could not obtain ipaddr from HTTP request")
    else if port == 0
    then err (codes "could not obtain remote port from HTTP request: " ++ req.remote_addr)
    else parse_known arp_find req stage parts ip port

unfoldable pub parse_parts : (Text → Text) → Request → List Text → Result ParsedRequest
unfolding text_eq requested_stage known_stage parse_remote
parse_parts arp_find req (_ ∷ first ∷ parts) =
    let stage = known_stage (requested_stage req first) in
    if text_eq stage []
    then err (codes "no stage specified: " ++ req.raw_query)
    else parse_remote arp_find req stage parts req.remote
parse_parts arp_find req _ = err (codes "path missing initial stage: " ++ req.path)

unfoldable pub parse_request : (Text → Text) → Request → Result ParsedRequest
unfolding split parse_parts
parse_request arp_find req = parse_parts arp_find req (split req.path b'/')
