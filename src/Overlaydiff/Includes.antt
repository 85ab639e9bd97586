-- ===== src/Overlaydiff/Includes.antt =====
-- internal/pkg/overlaydiff/diff.go: `dedupeTopLevelIncludes`.
pub mod Under
pub mod Covered
use warewulf.Common.{Bool, List, [], ◌∷◌, ◌++◌, ◌==◌, ltb, leb, length, any, if◌then◌else◌}
use warewulf.Common.Text.{Text, text_le}
use warewulf.Common.Sort.{sort}
use warewulf.Overlaydiff.Paths.{is_under}

-- The order by length, then by text.
unfoldable pub shorter_le : Text → Text → Bool
unfolding text_le
shorter_le a b = if length a == length b then text_le a b else ltb (length a) (length b)

unfoldable pub dedupe_loop : List Text → List Text → List Text
unfolding is_under
dedupe_loop [] result = result
dedupe_loop (include ∷ ordered) result =
    dedupe_loop ordered (if any (is_under include) result then result else result ++ include ∷ [])

unfoldable pub dedupe_top_level_includes : List Text → List Text
unfolding dedupe_loop sort shorter_le
dedupe_top_level_includes includes =
    if leb (length includes) 1 then includes else dedupe_loop (sort shorter_le includes) []
