-- ===== src/Node/Examples/Storage.antt =====
-- The storage of a node with one disk of two partitions.
use warewulf.Common.{◌≡◌, refl, Bool, true, false, [], ◌∷◌, Option, none, some}
use warewulf.Common.Text.{Text, codes}
use warewulf.Common.Maps.{Map}
use warewulf.Common.Integers.{negsuc}
use warewulf.Hostlist.Numbers.Atoi.{atoi}
use warewulf.Node.Types.{Partition, FileSystem}
use warewulf.Node.Storage.{StorageNode, IgnitionStorage, panicked, unparsed, get_ignition_storage}
use warewulf.Node.Storage.Built.{StorageOutcome, get_ignition_storage_lem}

abbrev partition_one : Partition
partition_one = record {
  id = [];
  number = codes "1";
  size_mib = codes "512";
  start_mib = codes "2";
  type_guid = [];
  guid = [];
  wipe_partition_entry = none;
  should_exist = some true;
  resize = none;
}

abbrev unsized : Partition
unsized = record partition_one { size_mib = []; start_mib = [] }

abbrev root_system : FileSystem
root_system = record {
  id = [];
  format = codes "ext4";
  path = codes "/";
  wipe_file_system = none;
  label = [];
  uuid = [];
  options = [];
  mount_options = codes "rw";
}

abbrev storage_node : StorageNode
storage_node = record {
  file_systems = (codes "/dev/b", some root_system) ∷ (codes "/dev/a", some root_system) ∷ [];
  disks =
      (
        codes "/dev/sda",
        some (record {
          wipe_table = some true;
          partitions =
              (codes "root", some (record partition_one { number = codes "2" }))
              ∷ (codes "boot", some partition_one)
              ∷ [];
        }),
      )
      ∷ [];
}

abbrev with_partitions : Map (Option Partition) → StorageNode
with_partitions partitions = record storage_node {
  disks = (codes "/dev/sda", some (record { wipe_table = none; partitions = partitions })) ∷ [];
}

abbrev no_report : IgnitionStorage → Text × Bool
no_report storage = ([], false)

negative_number : atoi (codes "-12") ≡ some (negsuc 11)
unfolding atoi
negative_number = refl

too_large : atoi (codes "9223372036854775808") ≡ none
unfolding atoi
too_large = refl

-- Two partitions with neither a number nor a size.
two_unsized :
    get_ignition_storage no_report
      (with_partitions ((codes "a", some unsized) ∷ (codes "b", some unsized) ∷ []))
    ≡ panicked
unfolding get_ignition_storage
two_unsized = refl

-- The error of the partition before comes first.
bad_before_nil :
    get_ignition_storage no_report (
      with_partitions
        ((codes "a", some (record unsized { number = codes "x" })) ∷ (codes "b", none) ∷ []))
    ≡ unparsed (codes "x")
unfolding get_ignition_storage
bad_before_nil = refl

nil_first :
    get_ignition_storage no_report (
      with_partitions
        ((codes "b", none) ∷ (codes "a", some (record unsized { number = codes "x" })) ∷ []))
    ≡ panicked
unfolding get_ignition_storage
nil_first = refl

get_ignition_storage_lem_example :
    StorageOutcome no_report storage_node (get_ignition_storage no_report storage_node)
get_ignition_storage_lem_example = get_ignition_storage_lem no_report storage_node
