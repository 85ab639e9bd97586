-- ===== src/Upgrade/Values.antt =====
-- internal/pkg/upgrade/node.go: how texts, tags and lists of the old format are read. `none` is a
-- panic where a type assertion fails.
pub mod Entries
use warewulf.Common.{
  ℕ, Bool, true, false, ◌||◌, List, [], ◌∷◌, ◌++◌, Option, none, some, ◌==◌, keep, not,
  if◌then◌else◌,
}
use warewulf.Common.Text.{Text, codes, text_eq, to_lower, contains, split, join}
use warewulf.Common.Maps.{Map, lookup, insert, delete}
use warewulf.Warewulfd.NodeDb.{wwbool_unset_values}
use warewulf.Upgrade.Types.{Element, string, scalar, nested, Value, absent, text, elements, other}

abbrev true_texts : List Text
true_texts = codes "1" ∷ codes "t" ∷ codes "T" ∷ codes "true" ∷ codes "TRUE" ∷ codes "True" ∷ []

abbrev false_texts : List Text
false_texts = codes "0" ∷ codes "f" ∷ codes "F" ∷ codes "false" ∷ codes "FALSE" ∷ codes "False" ∷ []

-- `strconv.ParseBool`; `none` is an error.
unfoldable pub parse_bool : Text → Option Bool
unfolding contains text_eq
parse_bool str =
    if contains true_texts str
    then some true
    else if contains false_texts str
    then some false
    else none

-- `b, _ := strconv.ParseBool(str)`
unfoldable pub parses_true : Text → Bool
unfolding parse_bool
parses_true str = elim (parse_bool str) [ none ↦ false | some b ↦ b ]

-- `if str != "" { if val, err := strconv.ParseBool(str); err == nil { p = &val } }`
unfoldable pub bool_pointer : Text → Option Bool
unfolding parse_bool text_eq
bool_pointer str = if text_eq str [] then none else parse_bool str

unfoldable pub format_bool : Option Bool → Option Text
format_bool none = none
format_bool (some true) = some (codes "true")
format_bool (some false) = some (codes "false")

-- `(*WWbool).Set`: the new value, or an error.
unfoldable pub wwbool_set : Text → Option Text
unfolding contains to_lower text_eq parse_bool format_bool
wwbool_set str =
    if contains wwbool_unset_values (to_lower str)
    then some str
    else if text_eq (to_lower str) (codes "yes")
    then some (codes "true")
    else if text_eq (to_lower str) (codes "no")
    then some (codes "false")
    else format_bool (parse_bool str)

-- `if str != "" { warnError(old.Set(str)) }`
unfoldable pub set_wwbool : Text → Text → Text
unfolding text_eq wwbool_set
set_wwbool old str =
    if text_eq str [] then old else elim (wwbool_set str) [ none ↦ old | some val ↦ val ]

-- `for key, value := range source { tags[key] = value }`
unfoldable pub copy_tags : Map Text → Map Text → Map Text
unfolding insert
copy_tags [] tags = tags
copy_tags ((key, value) ∷ source) tags = copy_tags source (insert key value tags)

-- `for _, tag := range tagsDel { delete(tags, tag) }`
unfoldable pub delete_tags : List Text → Map Text → Map Text
unfolding delete
delete_tags [] tags = tags
delete_tags (tag ∷ tags_del) tags = delete_tags tags_del (delete tag tags)

-- A method that reads its receiver, called on a pointer: `none` is the panic on nil.
abbrev pub at_pointer : {A B : Type 0} → (A → Option B) → Option A → Option B
at_pointer upgrade none = none
at_pointer upgrade (some a) = upgrade a

-- `new[name] = upgrade(old)` for each entry of a map, where an upgrade may panic; the keys are
-- distinct.
unfoldable pub upgrade_all : {A B : Type 0} → (A → Option B) → Map A → Option (Map B)
upgrade_all upgrade [] = some []
upgrade_all upgrade ((name, a) ∷ m) = elim (upgrade a) [
  | none ↦ none
  | some b ↦ elim (upgrade_all upgrade m) [ none ↦ none | some n ↦ some ((name, b) ∷ n) ]
]

-- `each.(string)` for each element.
unfoldable pub strings : List Element → Option (List Text)
strings [] = some []
strings (string s ∷ es) = elim (strings es) [ none ↦ none | some ss ↦ some (s ∷ ss) ]
strings (scalar _ ∷ es) = none
strings (nested ∷ es) = none

-- The names of an overlay list.
unfoldable pub overlay_names : Value → Option (List Text)
unfolding split strings
overlay_names absent = some []
overlay_names (text overlay) = some (split overlay b',')
overlay_names (elements es) = strings es
overlay_names other = some []

unfoldable pub mount_option_text : Value → Option Text
unfolding strings join
mount_option_text absent = some []
mount_option_text (text s) = some s
mount_option_text (elements es) = elim (strings es) [
  | none ↦ none
  | some ss ↦ some (join ss (codes " "))
]
mount_option_text other = some []

-- The white space of ASCII.
abbrev is_space : ℕ → Bool
is_space c = c == 32 || (c == 9 || (c == 10 || (c == 11 || (c == 12 || c == 13))))

abbrev add_byte : ℕ → List Text → List Text
add_byte c [] = (c ∷ []) ∷ []
add_byte c (p ∷ ps) = (c ∷ p) ∷ ps

unfoldable pub split_spaces : Text → List Text
split_spaces [] = [] ∷ []
split_spaces (c ∷ s) = if is_space c then [] ∷ split_spaces s else add_byte c (split_spaces s)

-- `strings.Fields`, on ASCII
unfoldable pub fields : Text → List Text
unfolding split_spaces text_eq
fields s = keep (λ w. not (text_eq w [])) (split_spaces s)

-- The arguments of a kernel: what is no scalar is left out.
unfoldable pub element_args : List Element → List Text
element_args [] = []
element_args (string s ∷ es) = s ∷ element_args es
element_args (scalar s ∷ es) = s ∷ element_args es
element_args (nested ∷ es) = element_args es

unfoldable pub upgrade_args : Value → List Text
unfolding fields element_args
upgrade_args absent = []
upgrade_args (text s) = fields s
upgrade_args (elements es) = element_args es
upgrade_args other = []
