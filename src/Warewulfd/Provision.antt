-- ===== src/Warewulfd/Provision.antt =====
-- internal/pkg/warewulfd/provision.go: the choice of a handler in `HandleProvision`.
pub mod Served
use warewulf.Common.{List, if◌then◌else◌}
use warewulf.Common.Text.{Text, codes, text_eq}
use warewulf.Common.Results.{ok, err}
use warewulf.Warewulfd.Requests.{Request, parse_request}

-- The handlers of the stages; `bad_request` is the HTTP status 400.
pub data Dispatched : Type 0 where
  handle_ipxe : Dispatched
  handle_kernel : Dispatched
  handle_image : Dispatched
  handle_system_overlay : Dispatched
  handle_runtime_overlay : Dispatched
  handle_grub : Dispatched
  handle_initramfs : Dispatched
  bad_request : Dispatched

unfoldable pub stage_handler : Text → Dispatched
unfolding text_eq
stage_handler stage =
    if text_eq stage (codes "ipxe")
    then handle_ipxe
    else if text_eq stage (codes "kernel")
    then handle_kernel
    else if text_eq stage (codes "image")
    then handle_image
    else if text_eq stage (codes "system")
    then handle_system_overlay
    else if text_eq stage (codes "runtime")
    then handle_runtime_overlay
    else if text_eq stage (codes "grub")
    then handle_grub
    else if text_eq stage (codes "initramfs")
    then handle_initramfs
    else bad_request

-- `HandleProvision`
unfoldable pub handle_provision : (Text → Text) → Request → Dispatched
unfolding parse_request stage_handler
handle_provision arp_find req = elim (parse_request arp_find req) [
  | err _ ↦ bad_request
  | ok rinfo ↦ stage_handler rinfo.stage
]
