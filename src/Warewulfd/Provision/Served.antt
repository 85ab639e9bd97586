-- ===== src/Warewulfd/Provision/Served.antt =====
-- Which requests the handlers that `HandleProvision` chooses can be granted.
use warewulf.Common.{
  ℕ, ◌<◌, ◌≡◌, refl, sym, ◌∙◌, ap, subst, true, not, ◌&&◌, [], leb, arith, inl, inr, Bool-cases,
}
use warewulf.Common.Text.{Text, codes, text_eq, text_eq_iff}
use warewulf.Common.Maps.{Map}
use warewulf.Common.Results.{ok, Result-cases}
use warewulf.Node.Types.{Node}
use warewulf.Warewulfd.Requests.{Request, ParsedRequest, parse_request}
use warewulf.Warewulfd.Access.{
  NodeStatus, NodeAnswer, configured, no_unconfigured, unavailable, Conf, RequestContext, Handled,
  refused, granted, check_asset_key, check_node, check_parsed, init_handle_request,
}
use warewulf.Warewulfd.Access.Granted.{Outcome, init_handle_request-Outcome}
use warewulf.Warewulfd.Provision.{handle_runtime_overlay, stage_handler, handle_provision}

stage_handler-runtime :
    (stage : Text) → stage_handler stage ≡ handle_runtime_overlay → stage ≡ codes "runtime"
unfolding stage_handler
stage_handler-runtime stage h = ground (arith, h, text_eq_iff stage (codes "runtime"))

-- A context that is granted holds this request.
abbrev Reads : ParsedRequest → Handled × Map NodeStatus → Type 0
Reads rinfo (refused _, _) = Unit
Reads rinfo (granted ctx, _) = ctx.rinfo ≡ rinfo

module _ (now : ℕ) (rinfo : ParsedRequest) (status : Map NodeStatus) where
  check_asset_key-Reads : (node : Node) → Reads rinfo (check_asset_key now rinfo status node)
  unfolding check_asset_key
  check_asset_key-Reads node =
      elim (Bool-cases
        (not (text_eq node.asset_key []) && not (text_eq node.asset_key rinfo.assetkey))) [
          | inl e ↦ rw e tt
          | inr e ↦ rw e refl
        ]

  check_node-Reads : (a : NodeAnswer) → Reads rinfo (check_node now rinfo status a)
  unfolding check_node
  check_node-Reads (configured node) = check_asset_key-Reads node
  check_node-Reads (no_unconfigured node) = check_asset_key-Reads node
  check_node-Reads (unavailable _) = tt

module _ (conf : Conf) (arp_find : Text → Text) (get_or_discover_node : Text → NodeAnswer)
    (now : ℕ) where
  check_parsed-Reads :
      (rinfo : ParsedRequest) (status : Map NodeStatus)
      → Reads rinfo (check_parsed conf arp_find get_or_discover_node now rinfo status)
  unfolding check_parsed
  check_parsed-Reads rinfo status =
      elim (Bool-cases
        ((text_eq rinfo.stage (codes "runtime") && conf.secure) && leb 1024 rinfo.remoteport)) [
          | inl e ↦ rw (check_parsed, e) tt
          | inr e ↦
              rw (check_parsed, e)
                (check_node-Reads now rinfo status (get_or_discover_node rinfo.hwaddr))
        ]

  module _ (req : Request) (status status' : Map NodeStatus) (ctx : RequestContext) where
    granted-parse_request :
        init_handle_request conf arp_find get_or_discover_node now req status
          ≡ (granted ctx, status')
        → parse_request arp_find req ≡ ok ctx.rinfo
    unfolding init_handle_request
    granted-parse_request h = elim (Result-cases (parse_request arp_find req)) [
      | inl (rinfo, e) ↦
          let step : init_handle_request conf arp_find get_or_discover_node now req status
              ≡ check_parsed conf arp_find get_or_discover_node now rinfo status =
            rw (init_handle_request, e) refl in
          e ∙ ap ok (sym (subst (Reads rinfo) (sym step ∙ h) (check_parsed-Reads rinfo status)))
      | inr (m, e) ↦
          let step : init_handle_request conf arp_find get_or_discover_node now req status
              ≡ (refused 400, status) =
            rw (init_handle_request, e) refl in
          absurd (ground (arith, ap (λ z. z.0) (sym step ∙ h)))
    ]

    -- A request that `HandleProvision` sends to the handler of the runtime overlay, and that the
    -- checks of that handler grant, is one for the stage of the runtime overlay; where the server
    -- is secure, it comes from a port below 1024.
    pub handle_provision-privileged :
        handle_provision arp_find req ≡ handle_runtime_overlay
        → init_handle_request conf arp_find get_or_discover_node now req status
          ≡ (granted ctx, status')
        → (ctx.rinfo.stage ≡ codes "runtime") × (conf.secure ≡ true → ctx.rinfo.remoteport < 1024)
    unfolding handle_provision
    handle_provision-privileged runtime h =
        let chosen : handle_provision arp_find req ≡ stage_handler ctx.rinfo.stage =
          rw (handle_provision, granted-parse_request h) refl in
        let stage = stage_handler-runtime ctx.rinfo.stage (sym chosen ∙ runtime) in
        let served =
          subst (Outcome conf arp_find get_or_discover_node now req status) h
            (init_handle_request-Outcome conf arp_find get_or_discover_node now req status) in
        (stage, λ secure. served.privileged stage secure)
