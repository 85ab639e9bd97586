-- ===== src/Node/Storage/Systems.antt =====
-- What the loop over the file systems of a node gives.
use warewulf.Common.{
  ◌≡◌, refl, ◌∙◌, ap, List, [], ◌∷◌, Option, none, some, In, inl, inr, ◌↔◌, map, ◌>>=◌,
}
use warewulf.Common.Text.{Text, text_le_total, text_le_trans}
use warewulf.Common.Maps.{Map}
use warewulf.Common.Sort.{sort, IsSorted, sort-IsSorted, In-sort, sort-In}
use warewulf.Node.Types.{FileSystem}
use warewulf.Node.Storage.{IgnitionFilesystem, all_set, file_system_of, device_le, file_systems_of}
use warewulf.Node.Storage.Parts.{HoldsNil}

In-map :
    {A B : Type 0} (f : A → B) (b : B) (xs : List A)
    → In b (map f xs) ↔ ((a : A) × In a xs × (f a ≡ b))
In-map f b [] = (λ i. absurd i, λ (a, i, e). i)
In-map f b (x ∷ xs) = (
  λ i. elim i [
    | inl e ↦ (x, inl refl, e)
    | inr j ↦ let (a, k, e) = (In-map f b xs).0 j in (a, inr k, e)
  ],
  λ (a, i, e). elim i [ inl q ↦ inl (ap f q ∙ e) | inr j ↦ inr ((In-map f b xs).1 (a, j, e)) ],
)

abbrev SetOutcome : {V : Type 0} → Map (Option V) → Option (Map V) → Type 0
SetOutcome m none = HoldsNil m
SetOutcome m (some n) =
    ((name : Text) (v : _) → In (name, v) n ↔ In (name, some v) m) × (¬ HoldsNil m)

all_set-Outcome : {V : Type 0} (m : Map (Option V)) → SetOutcome m (all_set m)
unfolding all_set
all_set-Outcome [] = (λ name v. (λ i. i, λ i. i), λ (name, i). i)
all_set-Outcome ((name, none) ∷ m) = (name, inl refl)
all_set-Outcome {V} ((name, some v) ∷ m) = go (all_set m) (all_set-Outcome m)
  where
    entry :
        (k : Text) (w : V)
        → ◌≡◌ {A = Text × V} (name, v) (k, w) ↔ ◌≡◌ {A = Text × Option V} (name, some v) (k, some w)
    entry k w = (λ e. ap (λ z. (z.0, some z.1)) e, λ e. cc)

    go :
        (r : Option (Map V))
        → SetOutcome m r
        → SetOutcome ((name, some v) ∷ m) (r >>= λ n. some ((name, v) ∷ n))
    go none (k, i) = (k, inr i)
    go (some n) (same, calm) = (
      λ k w. (
        λ i. elim i [ inl e ↦ inl ((entry k w).0 e) | inr j ↦ inr ((same k w).0 j) ],
        λ i. elim i [ inl e ↦ inl ((entry k w).1 e) | inr j ↦ inr ((same k w).1 j) ],
      ),
      λ (k, i). elim i [ inl e ↦ cc | inr j ↦ calm (k, j) ],
    )

-- No file system is nil, and they are sorted by their devices.
abbrev pub FileSystemsBuilt : Map (Option FileSystem) → List IgnitionFilesystem → Type 0
FileSystemsBuilt systems out =
    (¬ HoldsNil systems)
    × IsSorted device_le out
    × ((f : IgnitionFilesystem)
        → In f out ↔ (
            (device : Text) × (fs : FileSystem) × In (device, some fs) systems
            × (file_system_of (device, fs) ≡ f)))

abbrev pub SystemsOutcome : Map (Option FileSystem) → Option (List IgnitionFilesystem) → Type 0
SystemsOutcome systems none = HoldsNil systems
SystemsOutcome systems (some out) = FileSystemsBuilt systems out

pub file_systems_of-Outcome :
    (systems : Map (Option FileSystem)) → SystemsOutcome systems (file_systems_of systems)
unfolding file_systems_of
file_systems_of-Outcome systems = go (all_set systems) (all_set-Outcome systems)
  where
    go :
        (r : Option (Map FileSystem))
        → SetOutcome systems r
        → SystemsOutcome systems (r >>= λ n. some (sort device_le (map file_system_of n)))
    go none nil = nil
    go (some n) (same, calm) = (
      calm,
      sort-IsSorted device_le (λ a b. text_le_total a.device b.device)
          (λ a b c. text_le_trans a.device b.device c.device) (map file_system_of n),
      λ f. (
        λ i.
            let ((device, fs), j, e) =
              (In-map file_system_of f n).0 (sort-In device_le f (map file_system_of n) i) in
            (device, fs, (same device fs).0 j, e),
        λ (device, fs, j, e).
            In-sort device_le f (map file_system_of n)
              ((In-map file_system_of f n).1 ((device, fs), (same device fs).1 j, e)),
      ),
    )
