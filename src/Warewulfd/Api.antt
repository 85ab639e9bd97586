-- ===== src/Warewulfd/Api.antt =====
-- internal/pkg/warewulfd/api/node.go and profile.go: the handlers of the REST interface that read
-- and change nodes and profiles. What lies outside is the record `Services`. The fields of a
-- node and the overlay images are left out, and so is the lock of the database.
pub mod Nodes
pub mod Profiles
pub mod Calls
pub mod Authentication
use warewulf.Common.{
  Bool, true, false, not, ◌&&◌, List, [], ◌∷◌, ◌++◌, Option, none, some, if◌then◌else◌,
}
use warewulf.Common.Text.{Text, codes, text_eq}
use warewulf.Common.Maps.{Map, lookup}
use warewulf.Common.Results.{Result}
use warewulf.Node.Types.{Profile, Node, NodesYaml}
use warewulf.Warewulfd.NodeDb.{NodeDb, load_node_db}
use warewulf.Warewulfd.Access.{NodeStatus}
use warewulf.Warewulfd.Status.{load_node_status}

-- The codes of `status.Wrap`; an error that is not wrapped is `internal`.
pub data ErrorCode : Type 0 where
  not_found : ErrorCode
  invalid_argument : ErrorCode
  internal : ErrorCode

pub data Response (A : Type 0) : Type 0 where
  output : A → Response A
  failed : ErrorCode → Text → Response A

-- `node.New` and `Persist` on the state of nodes.conf, `image.ValidSource`, `overlay.Get`, and the
-- package mergo. `Persist` gives the registry as it then is in memory, and the file.
pub record Services (File : Type 0) : Type 0 where
  pub new : File → NodesYaml × Option Text
  pub persist : NodesYaml → File → (NodesYaml × File) × Option Text
  pub valid_source : Text → Bool
  pub overlay_found : Text → Bool
  pub overwrite_node : Node → Node → Result Node
  pub overwrite_profile : Profile → Profile → Result Profile
  pub merge_profile : Profile → Profile → Result Profile
  pub merge_own : Node → Node → Result Node

pub record Server (File : Type 0) : Type 0 where
  pub file : File
  pub db : NodeDb
  pub status : Map NodeStatus

unfoldable pub has_key : {V : Type 0} → Map V → Text → Bool
unfolding lookup
has_key m k = elim (lookup k m) [ none ↦ false | some _ ↦ true ]

-- The first name that is not there, at which a loop over the names stops.
unfoldable pub first_missing : (Text → Bool) → List Text → Option Text
first_missing there [] = none
first_missing there (n ∷ names) = if there n then first_missing there names else some n

abbrev pub quoted : Text → Text → Text → Text
quoted kind name rest = kind ++ codes " '" ++ name ++ codes "' " ++ rest

abbrev pub does_not_exist : Text → Text → Text
does_not_exist kind name = quoted kind name (codes "does not exist")

-- `if registry, err := node.New(); err != nil`
abbrev pub opened :
    {File A : Type 0}
    → Server File
    → (NodesYaml → Response A × Server File)
    → NodesYaml × Option Text
    → Response A × Server File
opened s f (config, some e) = (failed internal e, s)
opened s f (config, none) = f config

module _ {File : Type 0} (w : Services File) where
  unfoldable pub unknown_overlay : List Text → Option Text
  unfolding first_missing
  unknown_overlay names = elim (first_missing w.overlay_found names) [
    | some n ↦ some (does_not_exist (codes "overlay") n)
    | none ↦ none
  ]

  -- The checks of the profiles, the image and the overlays that are named.
  unfoldable pub unknown_name : NodesYaml → Profile → Option Text
  unfolding first_missing has_key unknown_overlay text_eq
  unknown_name config p = elim (first_missing (has_key config.node_profiles) p.profiles) [
    | some n ↦ some (does_not_exist (codes "profile") n)
    | none ↦
        if not (text_eq p.image_name []) && not (w.valid_source p.image_name)
        then some (does_not_exist (codes "image") p.image_name)
        else elim (unknown_overlay p.system_overlay) [
          | some e ↦ some e
          | none ↦ unknown_overlay p.runtime_overlay
        ]
  ]

  -- `warewulfd.Reload`, which only logs errors
  unfoldable pub reload_server : Server File → Server File
  unfolding load_node_db load_node_status
  reload_server s = record s {
    db = (load_node_db w.merge_profile w.merge_own (w.new s.file) s.db).0;
    status = (load_node_status w.merge_profile w.merge_own (w.new s.file) s.status).0;
  }

  module _ {A : Type 0} where
    -- The answer, once `Persist` has returned.
    unfoldable pub saved :
        (NodesYaml → Response A)
        → Server File
        → (NodesYaml × File) × Option Text
        → Response A × Server File
    unfolding reload_server
    saved out s ((config, file), some e) = (failed internal e, record s { file = file })
    saved out s ((config, file), none) = (out config, reload_server (record s { file = file }))
