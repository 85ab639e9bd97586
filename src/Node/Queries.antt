-- ===== src/Node/Queries.antt =====
-- internal/pkg/node/queries.go, and `ListAllGroups` of groups.go. The entry that Go looks up again
-- by the key that `range` has just met is the entry met there.
pub mod Answers
pub mod Order
pub mod Groups
use warewulf.Common.{Bool, true, false, ◌||◌, List, [], ◌∷◌, ◌++◌, if◌then◌else◌, keep, not}
use warewulf.Common.Text.{Text, text_eq, contains}
use warewulf.Common.Maps.{Map, keys}
use warewulf.Common.Sort.{sort_texts}
use warewulf.Node.Types.{Profile, Node, NodesYaml}
use warewulf.Node.Lists.{is_negated}

-- `for n := range m { if p(m[n]) { ret = append(ret, n) } }`
unfoldable pub keys_where : {V : Type 0} → (V → Bool) → Map V → List Text
keys_where p [] = []
keys_where p ((n, v) ∷ m) = if p v then n ∷ keys_where p m else keys_where p m

abbrev pub has_profile : Text → Profile → Bool
has_profile profile_id p = contains p.profiles profile_id

abbrev pub has_image : Text → Profile → Bool
has_image image p = text_eq p.image_name image

abbrev pub has_overlay : Text → Profile → Bool
has_overlay overlay p = contains p.runtime_overlay overlay || contains p.system_overlay overlay

unfoldable pub list_all_nodes : NodesYaml → List Text
unfolding sort_texts keys
list_all_nodes config = sort_texts (keys config.nodes)

unfoldable pub list_all_profiles : NodesYaml → List Text
unfolding sort_texts keys
list_all_profiles config = sort_texts (keys config.node_profiles)

unfoldable pub list_nodes_using_profile : NodesYaml → Text → List Text
unfolding sort_texts keys_where contains
list_nodes_using_profile config profile_id =
    sort_texts (keys_where (λ n. has_profile profile_id n.profile) config.nodes)

unfoldable pub list_profiles_using_profile : NodesYaml → Text → List Text
unfolding sort_texts keys_where contains
list_profiles_using_profile config profile_id =
    sort_texts (keys_where (has_profile profile_id) config.node_profiles)

unfoldable pub list_nodes_using_image : NodesYaml → Text → List Text
unfolding sort_texts keys_where text_eq
list_nodes_using_image config image =
    sort_texts (keys_where (λ n. has_image image n.profile) config.nodes)

unfoldable pub list_profiles_using_image : NodesYaml → Text → List Text
unfolding sort_texts keys_where text_eq
list_profiles_using_image config image =
    sort_texts (keys_where (has_image image) config.node_profiles)

unfoldable pub list_nodes_using_overlay : NodesYaml → Text → List Text
unfolding sort_texts keys_where contains
list_nodes_using_overlay config overlay =
    sort_texts (keys_where (λ n. has_overlay overlay n.profile) config.nodes)

unfoldable pub list_profiles_using_overlay : NodesYaml → Text → List Text
unfolding sort_texts keys_where contains
list_profiles_using_overlay config overlay =
    sort_texts (keys_where (has_overlay overlay) config.node_profiles)

-- `for _, g := range groups`: what is put into the set `seen`, held as the list of its keys.
unfoldable pub add_groups : List Text → List Text → List Text
unfolding is_negated contains
add_groups [] seen = seen
add_groups (g ∷ groups) seen =
    add_groups groups (if is_negated g || contains seen g then seen else seen ++ g ∷ [])

unfoldable pub add_groups_of : {V : Type 0} → (V → List Text) → Map V → List Text → List Text
unfolding add_groups
add_groups_of groups [] seen = seen
add_groups_of groups ((_, v) ∷ m) seen = add_groups_of groups m (add_groups (groups v) seen)

unfoldable pub list_all_groups : NodesYaml → List Text
unfolding sort_texts add_groups_of
list_all_groups config = sort_texts (
    add_groups_of (λ p. p.groups) config.node_profiles
      (add_groups_of (λ n. n.profile.groups) config.nodes []))
