-- ===== src/Image/Examples.antt =====
-- The theorems on syncuser at two small files.
use warewulf.Common.{◌≡◌, ◌≢◌, refl, ◌++◌, ◌↔◌, In, List, [], ◌∷◌}
use warewulf.Common.Text.{Text, codes}
use warewulf.Image.Syncuser.{no_id, read, update}
use warewulf.Image.Syncuser.Conflicts.{ChecksConflicts, check_conflicts_lem}
use warewulf.Image.Syncuser.Read.{first_id, read_both}
use warewulf.Image.Syncuser.Update.{line_name, ended, update_lem}

abbrev host_lines : List Text
host_lines = codes "root:x:0:0:root:/root:/bin/sh" ∷ codes "web:x:33:" ∷ []

abbrev image_lines : List Text
image_lines = codes "web:x:40:" ∷ codes "db:x:33:" ∷ []

check_conflicts_lem_example : ChecksConflicts (read_both host_lines image_lines)
check_conflicts_lem_example = check_conflicts_lem (read_both host_lines image_lines)

abbrev copied : Text
copied = codes "root:x:0:0:root:/root:/bin/sh\nweb:x:33:\n"

update_lem_example :
    (appended : List Text) × (update (read_both host_lines image_lines) image_lines copied
      ≡ copied ++ ended appended)
    × ((line : Text)
        → In line appended ↔ (
            In line image_lines
            × (first_id (line_name line) image_lines ≢ no_id)
            × (first_id (line_name line) host_lines ≡ no_id)))
update_lem_example = update_lem host_lines image_lines copied

updated :
    update (read_both host_lines image_lines) image_lines copied
    ≡ codes "root:x:0:0:root:/root:/bin/sh\nweb:x:33:\ndb:x:33:\n"
unfolding update read
updated = refl
