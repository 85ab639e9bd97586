-- ===== src/Image/Syncuser.antt =====
-- internal/pkg/image/syncuser.go, on the lines of passwd and group files. The search for files in
-- the image and the change of their owners are left out.
pub mod Conflicts
pub mod Read
pub mod Update
use warewulf.Common.{
  ℕ, zero, suc, Bool, true, false, not, ◌&&◌, ◌||◌, List, [], ◌∷◌, ◌++◌, Option, none, some, ◌==◌,
  leb, ◌^◌, length, any, if◌then◌else◌,
}
use warewulf.Common.Text.{Text, codes, text_eq, split, has_prefix}
use warewulf.Common.Maps.{Map, lookup, insert}
use warewulf.Hostlist.Numbers.Atoi.{atoi}
use warewulf.Common.Integers.{ℤ, pos, negsuc, int_eq}

pub record SyncInfo : Type 0 where
  pub host_id : ℤ
  pub image_id : ℤ
  pub image_files : List Text

abbrev pub SyncDb : Type 0
SyncDb = Map SyncInfo

abbrev pub no_id : ℤ
no_id = negsuc 0

unfoldable pub in_host : SyncInfo → Bool
unfolding int_eq
in_host info = not (int_eq info.host_id no_id)

unfoldable pub in_image : SyncInfo → Bool
unfolding int_eq
in_image info = not (int_eq info.image_id no_id)

unfoldable pub only_host : SyncInfo → Bool
unfolding in_host in_image
only_host info = in_host info && not (in_image info)

unfoldable pub only_image : SyncInfo → Bool
unfolding in_host in_image
only_image info = in_image info && not (in_host info)

unfoldable pub match_ids : SyncInfo → Bool
unfolding in_host in_image int_eq
match_ids info = in_image info && (in_host info && int_eq info.host_id info.image_id)

unfoldable pub differ : SyncInfo → Bool
unfolding in_host in_image int_eq
differ info = in_image info && (in_host info && not (int_eq info.host_id info.image_id))

unfoldable pub needs_sync : SyncDb → Bool
unfolding only_host differ
needs_sync db = any (λ (_, ids). only_host ids || differ ids) db

-- The names and the id of a collision.
pub record Collision : Type 0 where
  pub name_in_host : Text
  pub name_in_image : Text
  pub id : ℤ

-- The inner loop of `checkConflicts`.
unfoldable pub find_host_id : Text → ℤ → SyncDb → Option Collision
unfolding int_eq
find_host_id name id [] = none
find_host_id name id ((name_in_host, host_ids) ∷ db) =
    if int_eq host_ids.host_id id
    then some (record { name_in_host = name_in_host; name_in_image = name; id = id })
    else find_host_id name id db

-- The outer loop, over the entries that are left.
unfoldable pub check_entries : SyncDb → SyncDb → Option Collision
unfolding in_host in_image find_host_id
check_entries db [] = none
check_entries db ((name, image_ids) ∷ entries) =
    let rest = check_entries db entries in
    if not (in_image image_ids) || in_host image_ids
    then rest
    else elim (find_host_id name image_ids.image_id db) [ none ↦ rest | some c ↦ some c ]

-- `checkConflicts`; the error is the collision that it names.
unfoldable pub check_conflicts : SyncDb → Option Collision
unfolding check_entries
check_conflicts db = check_entries db db

abbrev pub field : List Text → ℕ → Text
field [] i = []
field (f ∷ fields) zero = f
field (f ∷ fields) (suc i) = field fields i

-- The name and the id of a line that is not ignored.
unfoldable pub line_entry : Text → Option (Text × ℤ)
unfolding split text_eq has_prefix atoi
line_entry line =
    let fields = split line b':' in
    let name = field fields 0 in
    if not (length fields == 7) && not (length fields == 4)
    then none
    else if text_eq name []
    then none
    else if has_prefix name (codes "+") || has_prefix name (codes "-")
    then none
    else elim (atoi (field fields 2)) [ none ↦ none | some id ↦ some (name, id) ]

unfoldable pub entry_of_name : Option SyncInfo → SyncInfo
entry_of_name none = record { host_id = no_id; image_id = no_id; image_files = [] }
entry_of_name (some entry) = entry

-- An id once set is kept.
unfoldable pub set_id : ℤ → ℤ → ℤ
unfolding int_eq
set_id old id = if int_eq old no_id then id else old

-- The body of the loop of `read`. Where the id is ignored, the entry is in the database already.
unfoldable pub read_entry : Bool → Text × ℤ → SyncDb → SyncDb
unfolding lookup insert entry_of_name set_id
read_entry from_image (name, id) db =
    let entry = entry_of_name (lookup name db) in
    if from_image
    then insert name (record entry { image_id = set_id entry.image_id id }) db
    else insert name (record entry { host_id = set_id entry.host_id id }) db

unfoldable pub read : Bool → List Text → SyncDb → SyncDb
unfolding line_entry read_entry
read from_image [] db = db
read from_image (line ∷ lines) db = elim (line_entry line) [
  | none ↦ read from_image lines db
  | some e ↦ read from_image lines (read_entry from_image e db)
]

-- `getOnlyimageLines`
unfoldable pub get_only_image_lines : SyncDb → List Text → List Text
unfolding split lookup only_image
get_only_image_lines db [] = []
get_only_image_lines db (line ∷ lines) =
    let rest = get_only_image_lines db lines in
    elim (lookup (field (split line b':') 0) db) [
      | none ↦ rest
      | some ids ↦ if only_image ids then line ∷ rest else rest
    ]

-- `AppendLines`: what a file holds after lines are written to its end. A file that does not end with a
-- newline has its last line joined with the first of them.
unfoldable pub append_lines : Text → List Text → Text
append_lines content [] = content
append_lines content (line ∷ lines) = append_lines (content ++ (line ++ codes "\n")) lines

-- `update`: what the file in the image holds afterwards, from its lines before and the content of
-- the file that is copied.
unfoldable pub update : SyncDb → List Text → Text → Text
unfolding get_only_image_lines append_lines
update db image_lines copied = append_lines copied (get_only_image_lines db image_lines)
