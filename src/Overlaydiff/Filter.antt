-- ===== src/Overlaydiff/Filter.antt =====
-- internal/pkg/overlaydiff/filter.go.
pub mod Kept
use warewulf.Common.{Bool, true, false, not, ◌||◌, List, [], ◌∷◌, ◌++◌, if◌then◌else◌, any, keep}
use warewulf.Common.Text.{Text, codes, text_eq, to_lower, contains}
use warewulf.Common.Results.{Result, ok, err}
use warewulf.Overlaydiff.Types.{Change, change_added, change_modified, change_mode_changed}
use warewulf.Overlaydiff.Paths.{trim_space, normalize_excludes, is_under}

pub record FilterOptions : Type 0 where
  pub only : List Text
  pub path_prefix : List Text

-- `ErrInvalidFilter.Error`
abbrev pub invalid_filter : Text → Text
invalid_filter value =
    codes "invalid --only value \"" ++ (value ++ codes "\": expected added|modified|mode-changed")

unfoldable pub is_filter_type : Text → Bool
unfolding text_eq
is_filter_type t =
    text_eq t change_added || (text_eq t change_modified || text_eq t change_mode_changed)

-- The loop of `ParseChangeTypes`; for no values its result is empty as well.
unfoldable pub parse_change_types : List Text → Result (List Text)
unfolding trim_space to_lower is_filter_type
parse_change_types [] = ok []
parse_change_types (value ∷ values) =
    let normalized = to_lower (trim_space value) in
    elim (is_filter_type normalized) [
      | false ↦ err (invalid_filter value)
      | true ↦ elim (parse_change_types values) [
        | err e ↦ err e
        | ok result ↦ ok (normalized ∷ result)
      ]
    ]

unfoldable pub is_selected : List Text → Text → Bool
unfolding contains
is_selected [] change = true
is_selected (o ∷ only) change = contains (o ∷ only) change

unfoldable pub is_under_any : List Text → Text → Bool
unfolding is_under
is_under_any [] path = true
is_under_any (p ∷ prefixes) path = any (is_under path) (p ∷ prefixes)

-- The body of the loop of `FilterChanges`: whether the change is appended.
unfoldable pub passes : List Text → List Text → Change → Bool
unfolding is_selected is_under_any
passes only prefixes change =
    if not (is_selected only change.change)
    then false
    else if not (is_under_any prefixes change.path)
    then false
    else true

unfoldable pub filter_changes : List Change → FilterOptions → List Change
unfolding passes normalize_excludes
filter_changes changes options =
    keep (passes options.only (normalize_excludes options.path_prefix)) changes
