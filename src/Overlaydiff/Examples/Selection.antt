-- ===== src/Overlaydiff/Examples/Selection.antt =====
-- The theorems on includes, filters and manifests at concrete inputs.
use warewulf.Common.{◌≡◌, refl, List, [], ◌∷◌, ◌↔◌}
use warewulf.Common.Results.{err}
use warewulf.Common.Text.{Text, codes}
use warewulf.Overlaydiff.Includes.{dedupe_top_level_includes}
use warewulf.Overlaydiff.Includes.Covered.{Covers, Apart, dedupe_top_level_includes_lem}
use warewulf.Overlaydiff.Filter.{invalid_filter, parse_change_types}
use warewulf.Overlaydiff.Filter.Kept.{ParsesOrFails, parse_change_types_lem}
use warewulf.Overlaydiff.Artifact.{build_artifact_manifest}
use warewulf.Overlaydiff.Artifact.Selected.{SelectedFits, build_artifact_manifest_lem}

abbrev roots : List Text
roots = codes "/etc/ssh" ∷ codes "/etc" ∷ codes "/etcetera" ∷ codes "/etc" ∷ []

dedupe_top_level_includes_lem_example :
    ((path : Text) → Covers (dedupe_top_level_includes roots) path ↔ Covers roots path)
    × Apart (dedupe_top_level_includes roots)
dedupe_top_level_includes_lem_example = dedupe_top_level_includes_lem roots

abbrev selected : List Text
selected = codes " etc/hosts " ∷ codes "/etc/hosts" ∷ codes "/bin/sh" ∷ []

build_artifact_manifest_lem_example : SelectedFits selected (
    build_artifact_manifest 0
      (codes "overlay")
      (codes "/")
      []
      selected
      (record { selected = 2; skipped = 0; unset = 0 }))
build_artifact_manifest_lem_example =
    build_artifact_manifest_lem 0 (codes "overlay") (codes "/") [] selected
      (record { selected = 2; skipped = 0; unset = 0 })

abbrev only_values : List Text
only_values = codes " Added" ∷ codes "removed" ∷ codes "x" ∷ []

removed_refused : parse_change_types only_values ≡ err (invalid_filter (codes "removed"))
unfolding parse_change_types
removed_refused = refl

parse_change_types_lem_example : ParsesOrFails only_values
parse_change_types_lem_example = parse_change_types_lem only_values
