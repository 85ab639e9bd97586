-- ===== src/Node/Profiles.antt =====
-- internal/pkg/node/mergo.go: `getProfilesProfiles` and `getNodeProfiles`.
pub mod Explored
pub mod Visit
pub mod Reach
use warewulf.Common.{
  ℕ, zero, suc, ◌≡◌, refl, Bool, true, false, List, [], ◌∷◌, ◌++◌, Option, none, some, length,
  if◌then◌else◌, ◌>>=◌,
}
use warewulf.Common.Text.{Text, codes, contains, text_eq, has_prefix}
use warewulf.Common.Maps.{Map, lookup}
use warewulf.Node.Types.{Profile, Node, NodesYaml}
use warewulf.Node.Lists.{is_negated, clean_list}

-- `output` with `visited` as the call leaves it; `none` is out of fuel, in the model only.
abbrev pub Visited : Type 0
Visited = Option (List Text × List Text)

-- The profiles that a profile names; a name that is no profile names none.
abbrev pub children : Map Profile → Text → List Text
children node_profiles id = elim (lookup id node_profiles) [ none ↦ [] | some p ↦ p.profiles ]

module _ (node_profiles : Map Profile) where
  -- `if profile, ok := config.NodeProfiles[id]; ok { … }`, by the recursive call `nested`
  unfoldable pub expand_profile : (List Text → List Text → Visited) → Text → List Text → Visited
  expand_profile nested id visited = elim (lookup id node_profiles) [
    | none ↦ some ([], visited)
    | some profile ↦ nested profile.profiles visited
  ]

  -- The loop of `getProfilesProfiles` over `input`, by the recursive call `nested`.
  unfoldable pub expand_input : (List Text → List Text → Visited) → List Text → List Text → Visited
  expand_input nested [] visited = some ([], visited)
  expand_input nested (id ∷ input) visited =
      let rest = expand_input nested input visited in
      let explore = expand_profile nested id (id ∷ visited) >>= λ (below, visited').
      expand_input nested input visited' >>= λ (output, visited'').
      some (below ++ id ∷ output, visited'') in
      if is_negated id
      then (rest >>= λ (output, visited'). some (id ∷ output, visited'))
      else if contains visited id
      then rest
      else explore

  -- `getProfilesProfiles`, on fuel for the depth of the recursion
  unfoldable pub get_profiles_profiles : ℕ → List Text → List Text → Visited
  get_profiles_profiles zero = expand_input (λ _ _. none)
  get_profiles_profiles (suc f) = expand_input (get_profiles_profiles f)

-- `getNodeProfiles`; the depth is at most the number of profiles.
unfoldable pub get_node_profiles : NodesYaml → Text → Option (List Text)
unfolding get_profiles_profiles expand_input expand_profile
get_node_profiles config id = elim (lookup id config.nodes) [
  | none ↦ some []
  | some node ↦
      get_profiles_profiles config.node_profiles (length config.node_profiles) node.profile.profiles
        []
      >>= λ (output, visited). some (clean_list output)
]
