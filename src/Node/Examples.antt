-- ===== src/Node/Examples.antt =====
-- The theorems on profiles at concrete registries.
mod Storage
mod Registry
mod Merged
use warewulf.Common.{◌≡◌, refl, false, List, [], ◌∷◌, some, none, ◌↔◌, In, Distinct}
use warewulf.Common.Text.{Text, codes, text_eq, contains}
use warewulf.Common.Maps.{lookup}
use warewulf.Node.Types.{Profile, Node, NodesYaml}
use warewulf.Node.Lists.{is_negated, clean_list}
use warewulf.Node.Lists.Clean.{negation, In-clean_list}
use warewulf.Node.Profiles.{get_node_profiles}
use warewulf.Node.Profiles.Explored.{Reaches}
use warewulf.Node.Profiles.Reach.{get_node_profiles_lem}

abbrev tokens : List Text
tokens = codes "a" ∷ codes "b" ∷ codes "~a" ∷ []

abbrev pub named_profile : List Text → Profile
named_profile profiles = record {
  id = [];
  profiles = profiles;
  groups = [];
  comment = [];
  cluster_name = [];
  image_name = [];
  ipxe = [];
  runtime_overlay = [];
  system_overlay = [];
  kernel = none;
  ipmi = none;
  init = [];
  root = [];
  net_devs = [];
  tags = [];
  primary_net_dev = [];
  disks = [];
  file_systems = [];
  resources = [];
}

abbrev pub named_node : List Text → Node
named_node profiles = record {
  id = [];
  valid = false;
  discoverable = [];
  asset_key = [];
  profile = named_profile profiles;
}

-- Two profiles that name each other, and a third that the node takes away.
abbrev pub cyclic : NodesYaml
cyclic = record {
  node_profiles =
      (codes "p", named_profile (codes "q" ∷ []))
      ∷ (codes "q", named_profile (codes "p" ∷ codes "r" ∷ []))
      ∷ (codes "r", named_profile [])
      ∷ [];
  nodes = (codes "n1", named_node (codes "p" ∷ codes "~r" ∷ [])) ∷ [];
}

cyclic_profiles : get_node_profiles cyclic (codes "n1") ≡ some (codes "q" ∷ codes "p" ∷ [])
unfolding get_node_profiles lookup clean_list contains
cyclic_profiles = refl

get_node_profiles_lem_example :
    (profiles : List Text) × (get_node_profiles cyclic (codes "n1") ≡ some profiles)
    × Distinct profiles
    × ((x : Text)
        → In x profiles ↔ (
            Reaches cyclic.node_profiles x (codes "p" ∷ codes "~r" ∷ [])
            × (is_negated x ≡ false)
            × (¬ Reaches cyclic.node_profiles (negation x) (codes "p" ∷ codes "~r" ∷ []))))
unfolding lookup text_eq
get_node_profiles_lem_example =
    get_node_profiles_lem cyclic (codes "n1") (named_node (codes "p" ∷ codes "~r" ∷ [])) refl
