-- ===== src/Overlaydiff/Compare.antt =====
-- internal/pkg/overlaydiff/diff.go: `Compare`, `entryModified` and `newChange`.
pub mod Apply
pub mod Listed
pub mod Refine
use warewulf.Common.{
  ℕ, Bool, true, false, not, List, [], ◌∷◌, ◌++◌, Option, none, some, ◌==◌, if◌then◌else◌, ◌≡◌,
  refl,
}
use warewulf.Common.Text.{Text, codes, text_eq, text_le}
use warewulf.Common.Maps.{Map, lookup}
use warewulf.Common.Sort.{sort, insert_sorted}
use warewulf.Overlaydiff.Types.{
  Entry, Change, entry_file, entry_symlink, change_added, change_removed, change_modified,
  change_mode_changed, change_type_changed,
}
use warewulf.Common.Integers.{pos}

unfoldable pub entry_modified : Entry → Entry → Bool
unfolding text_eq
entry_modified source baseline =
    if text_eq source.type entry_file
    then not (text_eq source.hash baseline.hash)
    else if text_eq source.type entry_symlink
    then not (text_eq source.link_target baseline.link_target)
    else false

unfoldable pub new_change : Text → Text → Option Entry → Option Entry → Change
new_change path change_type (some s) baseline = record {
  path = path;
  change = change_type;
  type = s.type;
  mode = s.mode;
  size = s.size;
  source = some s;
  baseline = baseline;
}
new_change path change_type none (some b) = record {
  path = path;
  change = change_type;
  type = b.type;
  mode = b.mode;
  size = b.size;
  source = none;
  baseline = some b;
}
new_change path change_type none none = record {
  path = path;
  change = change_type;
  type = [];
  mode = 0;
  size = 0;
  source = none;
  baseline = none;
}

-- The body of the first loop of `Compare`: what is appended for one entry of the source.
unfoldable pub compare_entry : Text → Entry → Option Entry → List Change
unfolding entry_modified new_change text_eq
compare_entry key src none = new_change key change_added (some src) none ∷ []
compare_entry key src (some base) =
    if not (text_eq src.type base.type)
    then new_change key change_type_changed (some src) (some base) ∷ []
    else if entry_modified src base
    then new_change key change_modified (some src) (some base) ∷ []
    else if not (src.mode == base.mode)
    then new_change key change_mode_changed (some src) (some base) ∷ []
    else []

unfoldable pub compare_source : Map Entry → Map Entry → List Change
unfolding compare_entry lookup
compare_source [] baseline = []
compare_source ((key, src) ∷ source) baseline =
    compare_entry key src (lookup key baseline) ++ compare_source source baseline

-- The second loop: what the source lacks.
unfoldable pub compare_baseline : Map Entry → Map Entry → List Change
unfolding new_change lookup
compare_baseline source [] = []
compare_baseline source ((key, base) ∷ baseline) = elim (lookup key source) [
  | some _ ↦ compare_baseline source baseline
  | none ↦ new_change key change_removed none (some base) ∷ compare_baseline source baseline
]

abbrev pub path_le : Change → Change → Bool
path_le a b = text_le a.path b.path

unfoldable pub compare_trees : Map Entry → Map Entry → List Change
unfolding compare_source compare_baseline sort text_le
compare_trees source baseline =
    sort path_le (compare_source source baseline ++ compare_baseline source baseline)
