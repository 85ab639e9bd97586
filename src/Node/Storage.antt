-- ===== src/Node/Storage.antt =====
-- internal/pkg/node/storage.go: the disks and file systems of a node in order, and the storage of
-- its Ignition configuration, whose check by Ignition is an argument. `Atoi` is that of a
-- platform of 64 bits.
pub mod Checked
pub mod Parts
pub mod Systems
pub mod Order
pub mod Built
use warewulf.Common.{
  ℕ, zero, suc, ◌-◌, ◌^◌, Bool, true, false, not, ◌==◌, leb, List, [], ◌∷◌, ◌++◌, Option, none,
  some, ◌>>=◌, if◌then◌else◌, map,
}
use warewulf.Common.Text.{Text, codes, text_eq, text_le}
use warewulf.Common.Integers.{ℤ, pos, negsuc, int_eq, int_le}
use warewulf.Common.Maps.{Map, lookup, keys}
use warewulf.Common.Sort.{sort, sort_texts}
use warewulf.Hostlist.Numbers.Atoi.{atoi}
use warewulf.Node.Types.{Partition, FileSystem}

-- The maps of a node that are read here. A pointer in them is `none` where it is nil.
pub record StorageDisk : Type 0 where
  pub wipe_table : Option Bool
  pub partitions : Map (Option Partition)

pub record StorageNode : Type 0 where
  pub disks : Map (Option StorageDisk)
  pub file_systems : Map (Option FileSystem)

-- The entries of a map by their sorted names, less those that are nil.
abbrev pub entries_at : {V : Type 0} → Map (Option V) → List Text → List V
unfolding lookup
entries_at m [] = []
entries_at m (n ∷ names) = elim (lookup n m) [
  | none ↦ entries_at m names
  | some none ↦ entries_at m names
  | some (some v) ↦ v ∷ entries_at m names
]

-- `DiskList`
unfoldable pub disk_list : StorageNode → List StorageDisk
unfolding lookup sort_texts keys
disk_list node = entries_at node.disks (sort_texts (keys node.disks))

-- `FileSystemList`
unfoldable pub file_system_list : StorageNode → List FileSystem
unfolding lookup sort_texts keys
file_system_list node = entries_at node.file_systems (sort_texts (keys node.file_systems))

-- The structs of Ignition.
pub record IgnitionPartition : Type 0 where
  pub label : Text
  pub number : ℤ
  pub should_exist : Option Bool
  pub wipe_partition_entry : Option Bool
  pub guid : Option Text
  pub resize : Option Bool
  pub size_mib : Option ℤ
  pub start_mib : Option ℤ
  pub type_guid : Option Text

pub record IgnitionDisk : Type 0 where
  pub device : Text
  pub wipe_table : Option Bool
  pub partitions : List IgnitionPartition

pub record IgnitionFilesystem : Type 0 where
  pub device : Text
  pub path : Text
  pub wipe_filesystem : Option Bool
  pub format : Option Text
  pub label : Option Text
  pub mount_options : List Text
  pub options : List Text
  pub uuid : Option Text

pub record IgnitionStorage : Type 0 where
  pub disks : List IgnitionDisk
  pub filesystems : List IgnitionFilesystem

abbrev pub if_set : Text → Option Text
if_set [] = none
if_set (c ∷ s) = some (c ∷ s)

-- `range` over a string gives its characters, here of ASCII, each of which becomes a text.
abbrev pub characters : Text → List Text
characters = map (λ c. c ∷ [])

unfoldable pub file_system_of : Text × FileSystem → IgnitionFilesystem
file_system_of (device, fs) = record {
  device = device;
  path = fs.path;
  wipe_filesystem = fs.wipe_file_system;
  format = if_set fs.format;
  label = if_set fs.label;
  mount_options = characters fs.mount_options;
  options = fs.options;
  uuid = if_set fs.uuid;
}

abbrev pub device_le : IgnitionFilesystem → IgnitionFilesystem → Bool
unfolding text_le
device_le a b = text_le a.device b.device

-- A loop that reads what each pointer of a map points to; `none` is the panic on nil.
unfoldable pub all_set : {V : Type 0} → Map (Option V) → Option (Map V)
all_set [] = some []
all_set ((name, none) ∷ m) = none
all_set ((name, some v) ∷ m) = all_set m >>= λ n. some ((name, v) ∷ n)

unfoldable pub file_systems_of : Map (Option FileSystem) → Option (List IgnitionFilesystem)
unfolding all_set sort text_le file_system_of
file_systems_of pointers =
    all_set pointers >>= λ systems. some (sort device_le (map file_system_of systems))

-- How a loop ends: at its end, with the error of `strconv.Atoi` on a text that is no number, or in a
-- panic.
pub data Loop (A : Type 0) : Type 0 where
  finished : A → Loop A
  bad_number : Text → Loop A
  panics : Loop A

abbrev pub after : {A B : Type 0} → Loop A → (A → Loop B) → Loop B
after (finished a) f = f a
after (bad_number s) f = bad_number s
after panics f = panics

-- A number that is parsed where `text` is set.
unfoldable pub number_if_set : Text → Text → Loop (Option ℤ)
unfolding atoi
number_if_set [] s = finished none
number_if_set (c ∷ text) s = elim (atoi s) [ none ↦ bad_number s | some n ↦ finished (some n) ]

abbrev pub or_zero : Option ℤ → ℤ
or_zero none = pos 0
or_zero (some n) = n

-- Where `start_mib` is set, it is the size that is parsed for it.
unfoldable pub partition_of : Text × Option Partition → Loop IgnitionPartition
unfolding number_if_set
partition_of (label, none) = panics
partition_of (label, some part) = after (number_if_set part.number part.number) (λ number.
    after (number_if_set part.size_mib part.size_mib) (λ size.
      after (number_if_set part.start_mib part.size_mib) (λ start. finished (record {
        label = label;
        number = or_zero number;
        should_exist = part.should_exist;
        wipe_partition_entry = part.wipe_partition_entry;
        guid = if_set part.guid;
        resize = part.resize;
        size_mib = size;
        start_mib = start;
        type_guid = if_set part.type_guid;
      }))))

unfoldable pub partitions_of : Map (Option Partition) → Loop (List IgnitionPartition)
unfolding partition_of
partitions_of [] = finished []
partitions_of (entry ∷ partitions) =
    let rest = partitions_of partitions in
    after (partition_of entry) (λ p. after rest (λ ps. finished (p ∷ ps)))

-- Where both sizes are nil, the comparison panics.
abbrev pub size_before : Option ℤ → Option ℤ → Option Bool
unfolding int_le
size_before (some a) none = some true
size_before none (some b) = some false
size_before (some a) (some b) = some (not (int_le b a))
size_before none none = none

unfoldable pub partition_before : IgnitionPartition → IgnitionPartition → Option Bool
unfolding int_eq int_le
partition_before a b =
    if int_eq a.number b.number
    then size_before a.size_mib b.size_mib
    else some (not (int_le b.number a.number))

-- `sort.SliceStable` with a comparison that may panic; which items it compares does not matter, for
-- two for which it panics are neighbours once all else is sorted.
module _ {A : Type 0} (before : A → A → Option Bool) where
  unfoldable pub insert_checked : A → List A → Option (List A)
  insert_checked x [] = some (x ∷ [])
  insert_checked x (y ∷ ys) =
      let rest = insert_checked x ys in
      elim (before y x) [
        | none ↦ none
        | some true ↦ rest >>= λ zs. some (y ∷ zs)
        | some false ↦ some (x ∷ y ∷ ys)
      ]

  unfoldable pub sort_checked : List A → Option (List A)
  unfolding insert_checked
  sort_checked [] = some []
  sort_checked (x ∷ xs) = sort_checked xs >>= insert_checked x

-- What is returned: the storage and the report; the error of `strconv.Atoi` on a text; or the report
-- that is fatal, as an error.
pub data Ignition : Type 0 where
  built : IgnitionStorage → Text → Ignition
  unparsed : Text → Ignition
  unbuilt : Text → Ignition
  panicked : Ignition

-- The loop over the disks.
unfoldable pub disks_of : Map (Option StorageDisk) → Loop (List IgnitionDisk)
unfolding partitions_of sort_checked partition_before
disks_of [] = finished []
disks_of ((device, none) ∷ disks) = panics
disks_of ((device, some disk) ∷ disks) =
    let rest = disks_of disks in
    after (partitions_of disk.partitions) (λ ps. elim (sort_checked partition_before ps) [
      | none ↦ panics
      | some sorted ↦ after rest (λ ds.
          finished
            (record { device = device; wipe_table = disk.wipe_table; partitions = sorted } ∷ ds))
    ])

-- What Ignition reports, and whether that is fatal.
abbrev pub validated : (IgnitionStorage → Text × Bool) → IgnitionStorage → Ignition
validated validate storage =
    let (report, fatal) = validate storage in if fatal then unbuilt report else built storage report

abbrev pub with_file_systems :
    (IgnitionStorage → Text × Bool) → List IgnitionFilesystem → Loop (List IgnitionDisk) → Ignition
with_file_systems validate systems panics = panicked
with_file_systems validate systems (bad_number s) = unparsed s
with_file_systems validate systems (finished disks) =
    validated validate (record { disks = disks; filesystems = systems })

-- `GetIgnitionStorage`
unfoldable pub get_ignition_storage : (IgnitionStorage → Text × Bool) → StorageNode → Ignition
unfolding file_systems_of disks_of
get_ignition_storage validate node = elim (file_systems_of node.file_systems) [
  | none ↦ panicked
  | some systems ↦ with_file_systems validate systems (disks_of node.disks)
]
