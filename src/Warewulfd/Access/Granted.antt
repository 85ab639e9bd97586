-- ===== src/Warewulfd/Access/Granted.antt =====
-- When `initHandleRequest` grants a request, and what a refusal leaves in the statuses.
use warewulf.Common.{
  ℕ, ◌<◌, ◌≡◌, refl, true, not, ◌&&◌, [], some, leb, if◌then◌else◌, arith, inl, inr, ◌⊎◌,
  Bool-cases,
}
use warewulf.Common.Text.{Text, codes, text_eq, text_eq_iff}
use warewulf.Common.Maps.{Map, lookup, lookup-insert}
use warewulf.Common.Results.{Result-cases}
use warewulf.Node.Types.{Node}
use warewulf.Warewulfd.Requests.{Request, ParsedRequest, parse_request}
use warewulf.Warewulfd.Requests.Canonical.{IsParsed, parse_request-IsParsed}
use warewulf.Warewulfd.Access.{
  NodeStatus, update_status, NodeAnswer, configured, no_unconfigured, unavailable, Conf,
  RequestContext, Handled, refused, granted, check_asset_key, check_node, check_parsed,
  init_handle_request,
}

-- The node that the answer holds.
abbrev pub Holds : NodeAnswer → Node → Type 0
Holds (configured n) node = n ≡ node
Holds (no_unconfigured n) node = n ≡ node
Holds (unavailable _) node = ⊥

-- What is true of a request that is granted.
pub record IsGranted (conf : Conf) (get_or_discover_node : Text → NodeAnswer) (req : Request)
    (status status' : Map NodeStatus) (ctx : RequestContext) : Type 0 where
  pub parsed : IsParsed req ctx.rinfo
  pub privileged :
      ctx.rinfo.stage ≡ codes "runtime" → conf.secure ≡ true → ctx.rinfo.remoteport < 1024
  pub found : Holds (get_or_discover_node ctx.rinfo.hwaddr) ctx.remote_node
  pub key : (ctx.remote_node.asset_key ≡ []) ⊎ (ctx.remote_node.asset_key ≡ ctx.rinfo.assetkey)
  pub same_status : status' ≡ status

-- A refusal changes at most the status of one node, which it marks for its asset key.
abbrev pub Refuses : ℕ → Map NodeStatus → Map NodeStatus → Type 0
Refuses code status status' =
    (((code ≡ 400) ⊎ ((code ≡ 401) ⊎ (code ≡ 503))) × (status' ≡ status))
    ⊎ ((code ≡ 401)
        × ((id : Text) × (s : NodeStatus) × (s.sent ≡ codes "BAD_ASSET")
            × ((k : Text) → lookup k status' ≡ (if text_eq id k then some s else lookup k status))))

module _ (conf : Conf) (arp_find : Text → Text) (get_or_discover_node : Text → NodeAnswer) (now : ℕ)
    (req : Request) (status : Map NodeStatus) where
  -- What the call gives, as a claim on its result.
  abbrev pub Outcome : Handled × Map NodeStatus → Type 0
  Outcome (refused code, status') = Refuses code status status'
  Outcome (granted ctx, status') = IsGranted conf get_or_discover_node req status status' ctx

  check_asset_key-Outcome :
      (rinfo : ParsedRequest) (node : Node)
      → IsParsed req rinfo
      → (rinfo.stage ≡ codes "runtime" → conf.secure ≡ true → rinfo.remoteport < 1024)
      → Holds (get_or_discover_node rinfo.hwaddr) node
      → Outcome (check_asset_key now rinfo status node)
  unfolding check_asset_key update_status
  check_asset_key-Outcome rinfo node parsed privileged found =
      elim (Bool-cases
        (not (text_eq node.asset_key []) && not (text_eq node.asset_key rinfo.assetkey))) [
          | inl e ↦ rw e (inr (refl, (node.id, _, refl, λ k. lookup-insert node.id k _ status)))
          | inr e ↦ rw e (record {
            parsed = parsed;
            privileged = privileged;
            found = found;
            key = ground (
              arith,
              e,
              text_eq_iff node.asset_key [],
              text_eq_iff node.asset_key rinfo.assetkey,
            );
            same_status = refl;
          })
        ]

  check_node-Outcome :
      (rinfo : ParsedRequest) (a : NodeAnswer)
      → IsParsed req rinfo
      → (rinfo.stage ≡ codes "runtime" → conf.secure ≡ true → rinfo.remoteport < 1024)
      → get_or_discover_node rinfo.hwaddr ≡ a
      → Outcome (check_node now rinfo status a)
  unfolding check_node
  check_node-Outcome rinfo (configured node) parsed privileged e =
      check_asset_key-Outcome rinfo node parsed privileged (rw e refl)
  check_node-Outcome rinfo (no_unconfigured node) parsed privileged e =
      check_asset_key-Outcome rinfo node parsed privileged (rw e refl)
  check_node-Outcome rinfo (unavailable m) parsed privileged e = inl (inr (inr refl), refl)

  -- A request that `initHandleRequest` grants is one that `parseRequest` accepts; where the server
  -- is secure and the stage is the runtime overlay, it comes from a port below 1024; its node is
  -- the one found by the hardware address, whose asset key is empty or the key of the request. A
  -- refusal has the code 400, 401 or 503, and changes at most the status of one node, to BAD_ASSET.
  pub init_handle_request-Outcome :
      Outcome (init_handle_request conf arp_find get_or_discover_node now req status)
  unfolding init_handle_request check_parsed
  init_handle_request-Outcome = elim (Result-cases (parse_request arp_find req)) [
    | inr (m, e) ↦ rw (init_handle_request, e) (inl (inl refl, refl))
    | inl (rinfo, e) ↦
        let parsed = parse_request-IsParsed arp_find req rinfo e in
        elim (Bool-cases
          ((text_eq rinfo.stage (codes "runtime") && conf.secure) && leb 1024 rinfo.remoteport)) [
            | inl f ↦ rw (init_handle_request, e, f) (inl (inr (inl refl), refl))
            | inr f ↦
                rw (init_handle_request, e, f)
                  (check_node-Outcome rinfo (get_or_discover_node rinfo.hwaddr) parsed
                    (λ r s. ground (arith, f, s, (text_eq_iff rinfo.stage (codes "runtime")).1 r))
                    refl)
          ]
  ]
