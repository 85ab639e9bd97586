-- ===== src/Hostlist/Groups.antt =====
-- internal/pkg/hostlist/hostlist.go: `resolveGroups`, and `Expand` as a whole.
-- The resolver registered by `SetGroupResolver` is the argument `members`.
pub mod Members
use warewulf.Common.{◌≡◌, refl, true, false, not, List, [], ◌∷◌, ◌++◌, if◌then◌else◌, ◌⊎◌, In}
use warewulf.Common.Text.{Text, codes, text_eq, contains, has_prefix, trim_prefix}
use warewulf.Hostlist.Expand.{Run, done, hung, out_of_fuel, expand_brackets}

abbrev pub group_prefix : Text
group_prefix = codes "@"

-- The two variables that `add` writes.
pub record Seen : Type 0 where
  pub seen : List Text
  pub result : List Text

unfoldable pub add : Text → Seen → Seen
unfolding contains
add s st =
    if contains st.seen s then st else record { seen = s ∷ st.seen; result = st.result ++ s ∷ [] }

unfoldable pub add_all : List Text → Seen → Seen
unfolding add
add_all [] st = st
add_all (id ∷ ids) st = add_all ids (add id st)

-- `nopResolver`, the resolver before any other is set
abbrev pub nop_resolver : Text → List Text
nop_resolver _ = []

module _ (members : Text → List Text) where
  -- The body of the loop over tokens.
  unfoldable pub resolve_token : Text → Seen → Seen
  unfolding add_all has_prefix trim_prefix text_eq
  resolve_token tok st =
      if not (has_prefix tok group_prefix)
      then add tok st
      else if text_eq (trim_prefix tok group_prefix) []
      then st
      else add_all (members (trim_prefix tok group_prefix)) st

  unfoldable pub resolve_tokens : List Text → Seen → Seen
  unfolding resolve_token
  resolve_tokens [] st = st
  resolve_tokens (tok ∷ tokens) st = resolve_tokens tokens (resolve_token tok st)

  unfoldable pub resolve_groups : List Text → List Text
  unfolding resolve_tokens
  resolve_groups tokens = (resolve_tokens tokens (record { seen = []; result = [] })).result

  -- `Expand`
  unfoldable pub expand : List Text → Run
  unfolding expand_brackets resolve_groups
  expand list = elim (expand_brackets list) [
    | done expanded ↦ done (resolve_groups expanded)
    | hung ↦ hung
    | out_of_fuel ↦ out_of_fuel
  ]

  -- What a token names: itself, or the members of the group behind the `@`.
  abbrev pub Names : Text → Text → Type 0
  Names tok x =
      ((has_prefix tok group_prefix ≡ false) × (tok ≡ x))
      ⊎ ((has_prefix tok group_prefix ≡ true)
          × (text_eq (trim_prefix tok group_prefix) [] ≡ false)
          × In x (members (trim_prefix tok group_prefix)))

  abbrev pub Named : List Text → Text → Type 0
  Named [] x = ⊥
  Named (tok ∷ tokens) x = Names tok x ⊎ Named tokens x
