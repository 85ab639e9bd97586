-- ===== src/Node/Storage/Parts.antt =====
-- What the loop over the partitions of a disk gives.
use warewulf.Common.{
  ◌≡◌, refl, ◌∙◌, ap, List, [], ◌∷◌, Option, none, some, In, inl, inr, ◌⊎◌, Option-cases,
}
use warewulf.Common.Text.{Text}
use warewulf.Common.Integers.{ℤ}
use warewulf.Common.Maps.{Map}
use warewulf.Hostlist.Numbers.Atoi.{atoi}
use warewulf.Node.Types.{Partition}
use warewulf.Node.Storage.{
  IgnitionPartition, Loop, finished, bad_number, panics, after, number_if_set, partition_of,
  partitions_of,
}

-- The text is the number or the size of the partition, and is no number.
abbrev pub IsUnparsed : Text → Partition → Type 0
IsUnparsed s part = (atoi s ≡ none) × ((s ≡ part.number) ⊎ (s ≡ part.size_mib))

-- The pointer is nil.
abbrev pub HoldsNil : {V : Type 0} → Map (Option V) → Type 0
HoldsNil m = (name : Text) × In (name, none) m

-- The partitions, one by one; none of them is nil.
abbrev pub Converted : Map (Option Partition) → List IgnitionPartition → Type 0
Converted [] [] = Unit
Converted [] (p ∷ ps) = ⊥
Converted (e ∷ es) [] = ⊥
Converted ((label, none) ∷ es) (p ∷ ps) = ⊥
Converted ((label, some part) ∷ es) (p ∷ ps) =
    (partition_of (label, some part) ≡ finished p) × Converted es ps

abbrev ReadsNumber : Text → Loop (Option ℤ) → Type 0
ReadsNumber s (finished n) = Unit
ReadsNumber s (bad_number t) = (t ≡ s) × (atoi s ≡ none)
ReadsNumber s panics = ⊥

number_if_set-Reads : (text s : Text) → ReadsNumber s (number_if_set text s)
unfolding number_if_set
number_if_set-Reads [] s = tt
number_if_set-Reads (c ∷ text) s = elim (Option-cases (atoi s)) [
  | inl e ↦ rw (number_if_set, e) (refl, e)
  | inr (n, e) ↦ rw (number_if_set, e) tt
]

abbrev ReadsPartition : Partition → Loop IgnitionPartition → Type 0
ReadsPartition part (finished p) = Unit
ReadsPartition part (bad_number s) = IsUnparsed s part
ReadsPartition part panics = ⊥

after-Reads :
    (part : Partition) (s : Text) (r : Loop (Option ℤ)) (f : Option ℤ → Loop IgnitionPartition)
    → (s ≡ part.number) ⊎ (s ≡ part.size_mib)
    → ReadsNumber s r
    → ((n : Option ℤ) → ReadsPartition part (f n))
    → ReadsPartition part (after r f)
after-Reads part s (finished n) f own reads rest = rest n
after-Reads part s (bad_number t) f own (same, bad) rest =
    (ap atoi same ∙ bad, elim own [ inl e ↦ inl (same ∙ e) | inr e ↦ inr (same ∙ e) ])
after-Reads part s panics f own reads rest = absurd reads

partition_of-Reads :
    (label : Text) (part : Partition) → ReadsPartition part (partition_of (label, some part))
unfolding partition_of
partition_of-Reads label part =
    after-Reads part part.number (number_if_set part.number part.number) _ (inl refl)
      (number_if_set-Reads part.number part.number)
      (λ number.
        after-Reads part part.size_mib (number_if_set part.size_mib part.size_mib) _ (inr refl)
          (number_if_set-Reads part.size_mib part.size_mib)
          (λ size.
            after-Reads part part.size_mib (number_if_set part.start_mib part.size_mib) _ (inr refl)
              (number_if_set-Reads part.start_mib part.size_mib) (λ start. tt)))

abbrev pub PartitionsOutcome : Map (Option Partition) → Loop (List IgnitionPartition) → Type 0
PartitionsOutcome es (finished ps) = Converted es ps
PartitionsOutcome es (bad_number s) =
    (label : Text) × (part : Partition) × In (label, some part) es × IsUnparsed s part
PartitionsOutcome es panics = HoldsNil es

pub partitions_of-Outcome : (es : Map (Option Partition)) → PartitionsOutcome es (partitions_of es)
unfolding partitions_of partition_of
partitions_of-Outcome [] = tt
partitions_of-Outcome ((label, none) ∷ es) = (label, inl refl)
partitions_of-Outcome ((label, some part) ∷ es) =
    go (partition_of (label, some part)) refl (partition_of-Reads label part) (partitions_of es)
      (partitions_of-Outcome es)
  where
    go :
        (r : Loop IgnitionPartition)
        → partition_of (label, some part) ≡ r
        → ReadsPartition part r
        → (s : Loop (List IgnitionPartition)) → PartitionsOutcome es s
        → PartitionsOutcome
            ((label, some part) ∷ es)
            (after r (λ p. after s (λ ps. finished (p ∷ ps))))
    go panics q reads s h = absurd reads
    go (bad_number e) q reads s h = (label, part, inl refl, reads)
    go (finished p) q reads panics (name, i) = (name, inr i)
    go (finished p) q reads (bad_number e) (name, other, i, u) = (name, other, inr i, u)
    go (finished p) q reads (finished ps) h = (q, h)
