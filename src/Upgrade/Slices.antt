-- ===== src/Upgrade/Slices.antt =====
-- internal/pkg/upgrade/slices.go. A slice that Go changes in place is not read again.
pub mod Replaced
pub mod Stable
use warewulf.Common.{
  Bool, true, false, not, ◌||◌, List, [], ◌∷◌, ◌++◌, Option, none, some, ℕ, zero, suc, ◌+◌, keep,
  take, drop, length, ltb, if◌then◌else◌,
}
use warewulf.Common.Text.{Text, text_eq, contains}

-- `indexOf`; `none` is -1.
unfoldable pub index_of : List Text → Text → Option ℕ
unfolding text_eq
index_of [] item = none
index_of (v ∷ slice) item =
    if text_eq v item
    then some 0
    else elim (index_of slice item) [ none ↦ none | some i ↦ some (suc i) ]

unfoldable pub replace_slice_element : List Text → Option ℕ → List Text → List Text
replace_slice_element original none replacement = original
replace_slice_element original (some index) replacement =
    if ltb index (length original)
    then take index original ++ (replacement ++ drop (suc index) original)
    else original

-- `newReplacements`: what is not in the list already, and the item to replace.
unfoldable pub new_replacements : List Text → Text → List Text → List Text
unfolding contains text_eq
new_replacements originals to_replace replacements =
    keep (λ v. not (contains originals v) || text_eq v to_replace) replacements

unfoldable pub replace_overlay : List Text → Text → List Text → List Text
unfolding index_of replace_slice_element new_replacements
replace_overlay originals to_replace replacements =
    replace_slice_element originals (index_of originals to_replace)
      (new_replacements originals to_replace replacements)
