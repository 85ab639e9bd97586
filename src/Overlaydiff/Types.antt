-- ===== src/Overlaydiff/Types.antt =====
-- internal/pkg/overlaydiff/diff.go: entries and changes. The string types `EntryType` and
-- `ChangeType` are texts, since both are also read from JSON files.
use warewulf.Common.{ℕ, Option}
use warewulf.Common.Text.{Text, codes}
use warewulf.Common.Integers.{ℤ}

abbrev pub entry_file : Text
entry_file = codes "file"

abbrev pub entry_dir : Text
entry_dir = codes "dir"

abbrev pub entry_symlink : Text
entry_symlink = codes "symlink"

abbrev pub change_added : Text
change_added = codes "added"

abbrev pub change_removed : Text
change_removed = codes "removed"

abbrev pub change_modified : Text
change_modified = codes "modified"

abbrev pub change_mode_changed : Text
change_mode_changed = codes "mode-changed"

abbrev pub change_type_changed : Text
change_type_changed = codes "type-changed"

pub record Entry : Type 0 where
  pub path : Text
  pub type : Text
  pub mode : ℕ
  pub size : ℕ
  pub mtime_unix_nano : ℤ
  pub inode : ℕ
  pub device : ℕ
  pub hash : Text
  pub link_target : Text

pub record Change : Type 0 where
  pub path : Text
  pub change : Text
  pub type : Text
  pub mode : ℕ
  pub size : ℕ
  pub source : Option Entry
  pub baseline : Option Entry
