-- ===== src/Hostlist/Examples.antt =====
-- The hostlist theorems at concrete inputs.
use warewulf.Common.{arith, ◌≡◌, refl, true, false, List, [], ◌∷◌, some, ◌↔◌, In, All, Distinct}
use warewulf.Common.Text.{Text, codes, text_eq}
use warewulf.Hostlist.Numbers.{pad, itoa}
use warewulf.Hostlist.Expand.{pre_list, expand_brackets, done}
use warewulf.Hostlist.Expand.Loop.{IsSettled, expand_brackets-IsSettled}
use warewulf.Hostlist.Groups.{resolve_groups, Named}
use warewulf.Hostlist.Groups.Members.{resolve_groups_lem}
use warewulf.Hostlist.Compress.{render_nums}
use warewulf.Hostlist.Compress.Ranges.{Fits}
use warewulf.Hostlist.Compress.RoundTrip.{names, expand_brackets-render_nums}

abbrev pattern_text : Text
pattern_text = codes "n[01-03,07],a[1,2],@rack"

expand_brackets-IsSettled_example :
    IsSettled (pre_list (pattern_text ∷ [])) (expand_brackets (pattern_text ∷ []))
expand_brackets-IsSettled_example = expand_brackets-IsSettled (pattern_text ∷ [])

abbrev numbers_fit : All (Fits 2) (1 ∷ 2 ∷ 3 ∷ 7 ∷ [])
unfolding pad itoa
numbers_fit =
    ((omega arith, refl), ((omega arith, refl), ((omega arith, refl), ((omega arith, refl), tt))))

expand_brackets-render_nums_example :
    (part : Text) × (render_nums (codes "n") 2 (1 ∷ 2 ∷ 3 ∷ 7 ∷ []) ≡ some part)
    × (expand_brackets (part ∷ []) ≡ done (names (codes "n") 2 (1 ∷ 2 ∷ 3 ∷ 7 ∷ [])))
expand_brackets-render_nums_example =
    expand_brackets-render_nums (codes "n") 2 1 (2 ∷ 3 ∷ 7 ∷ [])
      ((omega arith, omega arith, omega arith), tt) numbers_fit

abbrev rack_members : Text → List Text
unfolding text_eq
rack_members group = elim (text_eq group (codes "rack")) [
  | true ↦ codes "a" ∷ codes "b" ∷ []
  | false ↦ []
]

abbrev group_tokens : List Text
group_tokens = codes "b" ∷ codes "@rack" ∷ codes "b" ∷ codes "@" ∷ []

resolve_groups_lem_example :
    Distinct (resolve_groups rack_members group_tokens)
    × ((x : Text)
        → In x (resolve_groups rack_members group_tokens) ↔ Named rack_members group_tokens x)
resolve_groups_lem_example = resolve_groups_lem rack_members group_tokens
