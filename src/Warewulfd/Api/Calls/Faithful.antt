-- ===== src/Warewulfd/Api/Calls/Faithful.antt =====
-- What the handlers of the REST interface rely on outside them.
use warewulf.Common.{◌≡◌, ◌≢◌, none, some, In, ◌⊎◌}
use warewulf.Common.Text.{Text}
use warewulf.Common.Maps.{lookup}
use warewulf.Common.Results.{ok}
use warewulf.Node.Types.{Profile, Node, NodesYaml}
use warewulf.Warewulfd.Api.{Services}

-- What is documented of mergo, whose merge of two nodes names just profiles that one of them names,
-- and of a file that `Persist` writes without an error and `node.New` reads: each entry of it is
-- one of the registry, naming no other profile, and no profile is gone.
pub record IsFaithful {File : Type 0} (w : Services File) : Type 0 where
  pub node_names :
      (old input merged : Node)
      → w.overwrite_node old input ≡ ok merged
      → (q : Text) → In q merged.profile.profiles
      → In q old.profile.profiles ⊎ In q input.profile.profiles
  pub profile_names :
      (old input merged : Profile)
      → w.overwrite_profile old input ≡ ok merged
      → (q : Text) → In q merged.profiles
      → In q old.profiles ⊎ In q input.profiles
  pub nodes_read :
      (config config' read : NodesYaml) (file file' : File)
      → w.persist config file ≡ ((config', file'), none)
      → w.new file' ≡ (read, none)
      → (id : Text) (n : Node) → lookup id read.nodes ≡ some n
      → (m : Node) × (lookup id config.nodes ≡ some m)
        × ((q : Text) → In q n.profile.profiles → In q m.profile.profiles)
  pub profiles_read :
      (config config' read : NodesYaml) (file file' : File)
      → w.persist config file ≡ ((config', file'), none)
      → w.new file' ≡ (read, none)
      → (id : Text) (p : Profile) → lookup id read.node_profiles ≡ some p
      → (m : Profile) × (lookup id config.node_profiles ≡ some m)
        × ((q : Text) → In q p.profiles → In q m.profiles)
  pub profile_read :
      (config config' read : NodesYaml) (file file' : File)
      → w.persist config file ≡ ((config', file'), none)
      → w.new file' ≡ (read, none)
      → (id : Text) → lookup id config.node_profiles ≢ none
      → lookup id read.node_profiles ≢ none

-- What is relied on of `Persist` where it gives no error: the nodes and profiles of the registry in
-- memory are still there, flattened.
pub record KeepsEntries {File : Type 0} (w : Services File) : Type 0 where
  pub node_kept :
      (config config' : NodesYaml) (file file' : File)
      → w.persist config file ≡ ((config', file'), none)
      → (id : Text) → lookup id config.nodes ≢ none
      → lookup id config'.nodes ≢ none
  pub profile_kept :
      (config config' : NodesYaml) (file file' : File)
      → w.persist config file ≡ ((config', file'), none)
      → (id : Text) → lookup id config.node_profiles ≢ none
      → lookup id config'.node_profiles ≢ none
