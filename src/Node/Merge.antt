-- ===== src/Node/Merge.antt =====
-- internal/pkg/node/mergo.go (`MergeNode`), with what it calls of constructors.go and methods.go.
-- The package mergo is a pair of arguments, one for each type that the source merges; the record
-- of the sources of fields is left out. A value stands for the struct behind a pointer, so that
-- what a merged node shares with the registry is not seen here.
pub mod Composed
pub mod Kept
use warewulf.Common.{true, List, [], ◌∷◌, Option, none, some}
use warewulf.Common.Text.{Text, codes}
use warewulf.Common.Maps.{Map, lookup, insert, keys}
use warewulf.Common.Sort.{sort_texts}
use warewulf.Common.Results.{Result, ok, err}
use warewulf.Node.Types.{Profile, Node, NodesYaml, Disk, Partition, FileSystem, NetDev, KernelConf}
use warewulf.Node.Lists.{clean_list}
use warewulf.Node.Profiles.{get_node_profiles}
use warewulf.Node.Registry.{no_node, no_profile, get_profile, get_node_only}

-- `for k, v := range m { v.id = k }`
unfoldable pub set_each : {V : Type 0} → (Text → V → V) → Map V → Map V
set_each set [] = []
set_each set ((k, v) ∷ m) = (k, set k v) ∷ set_each set m

unfoldable pub set_partition_id : Text → Partition → Partition
set_partition_id id p = record p { id = id }

unfoldable pub set_file_system_id : Text → FileSystem → FileSystem
set_file_system_id id f = record f { id = id }

unfoldable pub set_disk_id : Text → Disk → Disk
unfolding set_each set_partition_id
set_disk_id id d = record d { id = id; partitions = set_each set_partition_id d.partitions }

unfoldable pub set_ids : Text → Node → Node
unfolding set_each set_disk_id set_partition_id set_file_system_id
set_ids id n = record n {
  id = id;
  profile = record n.profile {
    disks = set_each set_disk_id n.profile.disks;
    file_systems = set_each set_file_system_id n.profile.file_systems;
  };
}

unfoldable pub mark_primary : Text → NetDev → Profile → Profile
unfolding insert
mark_primary name dev p = record p {
  net_devs = insert name (record dev { primary = true }) p.net_devs;
  primary_net_dev = name;
}

-- `updatePrimaryNetDev`: of a node, what it changes is in its profile.
unfoldable pub update_primary_net_dev : Profile → Profile
unfolding lookup sort_texts keys mark_primary
update_primary_net_dev p = elim (lookup p.primary_net_dev p.net_devs) [
  | some dev ↦ mark_primary p.primary_net_dev dev p
  | none ↦ elim (sort_texts (keys p.net_devs)) [
    | [] ↦ p
    | first ∷ _ ↦ elim (lookup first p.net_devs) [ none ↦ p | some dev ↦ mark_primary first dev p ]
  ]
]

unfoldable pub clean_args : Option KernelConf → Option KernelConf
unfolding clean_list
clean_args none = none
clean_args (some k) = some (record k { args = clean_list k.args })

unfoldable pub clean_lists : Profile → Profile
unfolding clean_list clean_args
clean_lists p = record p {
  profiles = clean_list p.profiles;
  groups = clean_list p.groups;
  system_overlay = clean_list p.system_overlay;
  runtime_overlay = clean_list p.runtime_overlay;
  kernel = clean_args p.kernel;
}

-- What `MergeNode` does with the merged node before it is returned.
unfoldable pub identified : Text → Node → Node → Node
unfolding set_ids
identified id original merged = set_ids id (record merged {
  profile = record merged.profile {
    profiles = original.profile.profiles;
    comment = original.profile.comment;
  };
})

unfoldable pub finish_node : Text → Node → Node → Node
unfolding identified update_primary_net_dev clean_lists
finish_node id original merged =
    let node = identified id original merged in
    record node { valid = true; profile = clean_lists (update_primary_net_dev node.profile) }

module _ (merge_profile : Profile → Profile → Result Profile)
    (merge_own : Node → Node → Result Node) where
  -- The loop over the profiles of the node; one that is not found is passed over.
  unfoldable pub merge_profiles : NodesYaml → List Text → Profile → Result Profile
  unfolding get_profile
  merge_profiles config [] p = ok p
  merge_profiles config (id ∷ ids) p = elim (get_profile id config) [
    | err _ ↦ merge_profiles config ids p
    | ok profile ↦ elim (merge_profile p profile) [
      | err e ↦ err e
      | ok p' ↦ merge_profiles config ids p'
    ]
  ]

  unfoldable pub merge_original : Text → Node → Result Profile → Result Node
  unfolding finish_node
  merge_original id original (err e) = err e
  merge_original id original (ok p) = elim (merge_own (record no_node { profile = p }) original) [
    | err e ↦ err e
    | ok merged ↦ ok (finish_node id original merged)
  ]

  -- `MergeNode`, and `GetNode`, which drops the sources. An empty message stands for no more fuel.
  unfoldable pub merge_node : NodesYaml → Text → Result Node
  unfolding get_node_only get_node_profiles merge_profiles merge_original
  merge_node config id = elim (get_node_only id config) [
    | err e ↦ err e
    | ok original ↦ elim (get_node_profiles config id) [
      | none ↦ err []
      | some ids ↦ merge_original id original (merge_profiles config ids no_profile)
    ]
  ]
