-- ===== src/Overlaydiff/Examples.antt =====
-- The theorems on `Compare` at two small trees.
mod Hashing
mod Selection
use warewulf.Common.{refl, [], ◌∷◌, some, none, inl, inr}
use warewulf.Common.Text.{Text, codes, text_eq, text_le}
use warewulf.Common.Maps.{Map, lookup}
use warewulf.Common.Sort.{IsSorted}
use warewulf.Overlaydiff.Types.{Entry, Change, entry_file, change_added}
use warewulf.Common.Integers.{pos}
use warewulf.Overlaydiff.Compare.{compare_trees, path_le, new_change}
use warewulf.Overlaydiff.Compare.Apply.{Same, apply_all}
use warewulf.Overlaydiff.Compare.Refine.{
  compare_trees-Same, compare_trees-differ, compare_trees-IsSorted,
}

abbrev pub file_entry : Text → Text → Entry
file_entry path hash = record {
  path = path;
  type = entry_file;
  mode = 420;
  size = 3;
  mtime_unix_nano = pos 0;
  inode = 1;
  device = 1;
  hash = hash;
  link_target = [];
}

abbrev pub image_tree : Map Entry
image_tree =
    (codes "/etc/new", file_entry (codes "/etc/new") (codes "h1"))
    ∷ (codes "/etc/hosts", file_entry (codes "/etc/hosts") (codes "h2"))
    ∷ []

abbrev pub baseline_tree : Map Entry
baseline_tree =
    (codes "/etc/hosts", file_entry (codes "/etc/hosts") (codes "h3"))
    ∷ (codes "/etc/old", file_entry (codes "/etc/old") (codes "h4"))
    ∷ []

compare_trees-Same_example :
    Same
      (lookup
        (codes "/etc/hosts")
        (apply_all (compare_trees image_tree baseline_tree) baseline_tree))
      (lookup (codes "/etc/hosts") image_tree)
unfolding lookup text_eq
compare_trees-Same_example =
    compare_trees-Same image_tree baseline_tree (refl, (refl, tt)) (codes "/etc/hosts")

abbrev added_file : Change
unfolding new_change
added_file =
    new_change (codes "/etc/new") change_added (some (file_entry (codes "/etc/new") (codes "h1")))
      none

compare_trees-differ_example :
    ¬ Same (lookup (codes "/etc/new") baseline_tree) (lookup (codes "/etc/new") image_tree)
unfolding compare_trees lookup text_eq text_le new_change
compare_trees-differ_example =
    compare_trees-differ image_tree baseline_tree (refl, (refl, tt)) (refl, (refl, tt)) added_file
      (inr (inl refl))
