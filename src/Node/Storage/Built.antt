-- ===== src/Node/Storage/Built.antt =====
-- What `GetIgnitionStorage` builds, and when it fails or panics.
use warewulf.Common.{
  ◌≡◌, refl, Bool, true, false, List, [], ◌∷◌, Option, none, some, In, inl, inr, ◌⊎◌, ◌↔◌,
  if◌then◌else◌,
}
use warewulf.Common.Text.{Text}
use warewulf.Common.Maps.{Map}
use warewulf.Common.Sort.{IsSorted}
use warewulf.Node.Types.{Partition}
use warewulf.Node.Storage.{
  StorageDisk, StorageNode, IgnitionPartition, IgnitionDisk, IgnitionFilesystem, IgnitionStorage,
  Ignition, built, unparsed, unbuilt, panicked, Loop, finished, bad_number, panics, after,
  file_systems_of, partitions_of, partition_before, sort_checked, disks_of, with_file_systems,
  get_ignition_storage,
}
use warewulf.Node.Storage.Checked.{HasPair, map-HasPair, SortOutcome, sort_checked-Outcome}
use warewulf.Node.Storage.Parts.{
  IsUnparsed, HoldsNil, Converted, PartitionsOutcome, partitions_of-Outcome,
}
use warewulf.Node.Storage.Systems.{FileSystemsBuilt, SystemsOutcome, file_systems_of-Outcome}
use warewulf.Node.Storage.Order.{
  partition_le, partition_le_trans, before_true, before_false, clash_le, BothUnsized,
  partition_before-none, BothUnsized-partition_before,
}

pub record DiskBuilt (device : Text) (disk : StorageDisk) (d : IgnitionDisk) : Type 0 where
  pub converted : List IgnitionPartition
  pub each : Converted disk.partitions converted
  pub apart : HasPair BothUnsized converted → ⊥
  pub items : (p : IgnitionPartition) → In p d.partitions ↔ In p converted
  pub sorted : IsSorted partition_le d.partitions
  pub named : (d.device ≡ device) × (d.wipe_table ≡ disk.wipe_table)

-- The disks, one by one; none of them is nil.
abbrev pub DisksBuilt : Map (Option StorageDisk) → List IgnitionDisk → Type 0
DisksBuilt [] [] = Unit
DisksBuilt [] (d ∷ ds) = ⊥
DisksBuilt (e ∷ es) [] = ⊥
DisksBuilt ((device, none) ∷ es) (d ∷ ds) = ⊥
DisksBuilt ((device, some disk) ∷ es) (d ∷ ds) = DiskBuilt device disk d × DisksBuilt es ds

-- Some disk has two partitions of one number and no size.
abbrev pub HasUnsizedPair : Map (Option StorageDisk) → Type 0
HasUnsizedPair disks =
    (device : Text) × (disk : StorageDisk) × (ps : List IgnitionPartition) × In (device, some disk)
      disks
    × Converted disk.partitions ps
    × HasPair BothUnsized ps

-- The text is the number or the size of some partition, and is no number.
abbrev pub HasBadNumber : Text → Map (Option StorageDisk) → Type 0
HasBadNumber s disks =
    (device : Text) × (disk : StorageDisk) × (label : Text) × (part : Partition) × In
      (device, some disk) disks
    × In (label, some part) disk.partitions
    × IsUnparsed s part

-- A disk is nil, or a partition of one.
abbrev pub HasNilPart : Map (Option StorageDisk) → Type 0
HasNilPart disks =
    HoldsNil disks
    ⊎ ((device : Text) × (disk : StorageDisk) × In (device, some disk) disks
        × HoldsNil disk.partitions)

abbrev DisksOutcome : Map (Option StorageDisk) → Loop (List IgnitionDisk) → Type 0
DisksOutcome es (finished ds) = DisksBuilt es ds
DisksOutcome es (bad_number s) = HasBadNumber s es
DisksOutcome es panics = HasNilPart es ⊎ HasUnsizedPair es

with_disk-Outcome :
    (device : Text) (disk : StorageDisk) (es : Map (Option StorageDisk)) (d : IgnitionDisk)
    (r : Loop (List IgnitionDisk))
    → DiskBuilt device disk d
    → DisksOutcome es r
    → DisksOutcome ((device, some disk) ∷ es) (after r (λ ds. finished (d ∷ ds)))
with_disk-Outcome device disk es d (finished ds) b h = (b, h)
with_disk-Outcome device disk es d (bad_number e) b (v, k, label, part, i, j, q) =
    (v, k, label, part, inr i, j, q)
with_disk-Outcome device disk es d panics b (inl (inl (name, i))) = inl (inl (name, inr i))
with_disk-Outcome device disk es d panics b (inl (inr (v, k, i, n))) = inl (inr (v, k, inr i, n))
with_disk-Outcome device disk es d panics b (inr (v, k, ps, i, c, u)) = inr (v, k, ps, inr i, c, u)

disks_of-Outcome : (es : Map (Option StorageDisk)) → DisksOutcome es (disks_of es)
unfolding disks_of
disks_of-Outcome [] = tt
disks_of-Outcome ((device, none) ∷ es) = inl (inl (device, inl refl))
disks_of-Outcome ((device, some disk) ∷ es) =
    go (disks_of-Outcome es) (partitions_of disk.partitions) refl
      (partitions_of-Outcome disk.partitions)
  where
    sorted_disk :
        (ps : List IgnitionPartition)
        → partitions_of disk.partitions ≡ finished ps
        → Converted disk.partitions ps
        → DisksOutcome es (disks_of es)
        → (r : Option (List IgnitionPartition)) → sort_checked partition_before ps ≡ r
        → SortOutcome partition_before partition_le partition_le_trans before_true before_false
            clash_le ps r
        → DisksOutcome ((device, some disk) ∷ es) (disks_of ((device, some disk) ∷ es))
    sorted_disk ps p c rest none q clash =
        rw (disks_of, p, after, q)
          (inr (
            device,
            disk,
            ps,
            inl refl,
            c,
            map-HasPair (λ y x. partition_before y x ≡ none) BothUnsized partition_before-none ps
                clash,
          ))
    sorted_disk ps p c rest (some sorted) q (s, items, apart) =
        rw (disks_of, p, after, q)
          (with_disk-Outcome device disk es _ (disks_of es)
            (record {
              converted = ps;
              each = c;
              apart = λ u. apart (
                  map-HasPair BothUnsized (λ y x. partition_before y x ≡ none)
                    BothUnsized-partition_before ps u);
              items = items;
              sorted = s;
              named = (refl, refl);
            })
            rest)

    go :
        DisksOutcome es (disks_of es)
        → (r : Loop (List IgnitionPartition)) → partitions_of disk.partitions ≡ r
        → PartitionsOutcome disk.partitions r
        → DisksOutcome ((device, some disk) ∷ es) (disks_of ((device, some disk) ∷ es))
    go rest panics p nil = rw (disks_of, p) (inl (inr (device, disk, inl refl, nil)))
    go rest (bad_number e) p (label, part, i, q) =
        rw (disks_of, p) (device, disk, label, part, inl refl, i, q)
    go rest (finished ps) p c = sorted_disk ps p c rest (sort_checked partition_before ps) refl (
        sort_checked-Outcome partition_before partition_le partition_le_trans before_true
          before_false clash_le ps)

abbrev pub StorageBuilt : StorageNode → IgnitionStorage → Type 0
StorageBuilt node storage =
    FileSystemsBuilt node.file_systems storage.filesystems × DisksBuilt node.disks storage.disks

-- All that can come of the storage of a node.
abbrev pub StorageOutcome : (IgnitionStorage → Text × Bool) → StorageNode → Ignition → Type 0
StorageOutcome validate node panicked =
    HoldsNil node.file_systems ⊎ (HasNilPart node.disks ⊎ HasUnsizedPair node.disks)
StorageOutcome validate node (unparsed s) = HasBadNumber s node.disks
StorageOutcome validate node (unbuilt report) =
    (storage : IgnitionStorage) × StorageBuilt node storage × (validate storage ≡ (report, true))
StorageOutcome validate node (built storage report) =
    StorageBuilt node storage × (validate storage ≡ (report, false))

-- GetIgnitionStorage panics only where a file system, a disk or a partition is nil, or some disk has
-- two partitions of one number and no size; it fails with the error of `strconv.Atoi` on a number or
-- a size of a partition that does not parse, or with the report that Ignition says is fatal; or it
-- builds the file systems, sorted by device, and each disk, its partitions converted and sorted by
-- number, then by size, where no pointer is nil and no two partitions of a disk have one number and
-- no size.
pub get_ignition_storage_lem :
    (validate : IgnitionStorage → Text × Bool) (node : StorageNode)
    → StorageOutcome validate node (get_ignition_storage validate node)
unfolding get_ignition_storage
get_ignition_storage_lem validate node =
    go (file_systems_of node.file_systems) refl (file_systems_of-Outcome node.file_systems)
  where
    checked :
        (storage : IgnitionStorage)
        → StorageBuilt node storage
        → (report : Text) (fatal : Bool) → validate storage ≡ (report, fatal)
        → StorageOutcome validate node (if fatal then unbuilt report else built storage report)
    checked storage b report true e = (storage, b, e)
    checked storage b report false e = (b, e)

    with_disks :
        (systems : List IgnitionFilesystem)
        → FileSystemsBuilt node.file_systems systems
        → (r : Loop (List IgnitionDisk)) → DisksOutcome node.disks r
        → StorageOutcome validate node (with_file_systems validate systems r)
    with_disks systems b panics h = inr h
    with_disks systems b (bad_number s) h = h
    with_disks systems b (finished disks) h =
        let storage : IgnitionStorage = record { disks = disks; filesystems = systems } in
        checked storage (b, h) (validate storage).0 (validate storage).1 refl

    go :
        (r : Option (List IgnitionFilesystem))
        → file_systems_of node.file_systems ≡ r
        → SystemsOutcome node.file_systems r
        → StorageOutcome validate node (get_ignition_storage validate node)
    go none e nil = rw (get_ignition_storage, e) (inl nil)
    go (some systems) e b =
        rw (get_ignition_storage, e)
          (with_disks systems b (disks_of node.disks) (disks_of-Outcome node.disks))
