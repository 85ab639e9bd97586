-- ===== src/Warewulfd/Api/Calls.antt =====
-- internal/pkg/warewulfd/api/api.go: the routes that change nodes and profiles, and what each call
-- does to the server.
pub mod Faithful
pub mod Changes
pub mod Linked
pub mod Kept
use warewulf.Common.{List, [], ◌∷◌, Option, none, some}
use warewulf.Common.Text.{Text}
use warewulf.Node.Types.{Profile, Node}
use warewulf.Warewulfd.Api.{ErrorCode, Response, output, failed, Services, Server}
use warewulf.Warewulfd.Api.Nodes.{add_node_handler, update_node_handler, delete_node_handler}
use warewulf.Warewulfd.Api.Profiles.{
  add_profile_handler, update_profile_handler, delete_profile_handler,
}

-- The text behind a new entry is the header If-None-Match.
pub data Call : Type 0 where
  put_node : Text → Node → Text → Call
  patch_node : Text → Node → Call
  delete_node : Text → Call
  put_profile : Text → Profile → Text → Call
  patch_profile : Text → Profile → Call
  delete_profile : Text → Call

abbrev pub code_of : {A : Type 0} → Response A → Option ErrorCode
code_of (output _) = none
code_of (failed c _) = some c

module _ {File : Type 0} where
  -- The code of an error, if the call fails, and the server after it.
  abbrev pub coded : {A : Type 0} → Response A × Server File → Option ErrorCode × Server File
  coded (r, s) = (code_of r, s)

  unfoldable pub run_call : Services File → Call → Server File → Option ErrorCode × Server File
  unfolding add_node_handler update_node_handler delete_node_handler add_profile_handler
      update_profile_handler delete_profile_handler
  run_call w (put_node id n if_none_match) s = coded (add_node_handler w id n if_none_match s)
  run_call w (patch_node id n) s = coded (update_node_handler w id n s)
  run_call w (delete_node id) s = coded (delete_node_handler w id s)
  run_call w (put_profile id p if_none_match) s = coded (add_profile_handler w id p if_none_match s)
  run_call w (patch_profile id p) s = coded (update_profile_handler w id p s)
  run_call w (delete_profile id) s = coded (delete_profile_handler w id s)

  -- Calls one after the other.
  unfoldable pub run_calls :
      Services File → List Call → Server File → List (Option ErrorCode) × Server File
  unfolding run_call
  run_calls w [] s = ([], s)
  run_calls w (c ∷ calls) s =
      let (code, next) = run_call w c s in
      let (codes, last) = run_calls w calls next in (code ∷ codes, last)
