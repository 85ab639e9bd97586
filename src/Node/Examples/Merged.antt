-- ===== src/Node/Examples/Merged.antt =====
-- The theorems on merged nodes and groups, with a merge that appends the groups.
use warewulf.Common.{◌≡◌, ◌≢◌, refl, sym, ap, true, false, [], ◌∷◌, ◌++◌, some, ◌↔◌, In, arith}
use warewulf.Common.Text.{Text, codes, text_eq, text_le, contains}
use warewulf.Common.Maps.{lookup}
use warewulf.Common.Sort.{IsSorted}
use warewulf.Common.Results.{Result, ok}
use warewulf.Node.Types.{Profile, Node, NodesYaml}
use warewulf.Node.Lists.{is_negated, clean_list}
use warewulf.Node.Lists.Clean.{negation}
use warewulf.Node.Profiles.{get_node_profiles}
use warewulf.Node.Merge.{merge_node}
use warewulf.Node.Merge.Composed.{HasPrimary, merge_node_lem}
use warewulf.Node.Groups.{group_members, all_group}
use warewulf.Node.Groups.Carried.{Carries, group_members_lem}
use warewulf.Node.Groups.All.{group_members-all}
use warewulf.Node.Groups.Found.{FindsOrFails, find_all_nodes_lem}
use warewulf.Node.Examples.{named_node, named_profile}

abbrev append_groups : Profile → Profile → Result Profile
append_groups a b = ok (record a { groups = a.groups ++ b.groups })

abbrev append_node_groups : Node → Node → Result Node
append_node_groups a b =
    ok (record a { profile = record a.profile { groups = a.profile.groups ++ b.profile.groups } })

append_groups-groups :
    (a b c : Profile) → append_groups a b ≡ ok c → c.groups ≡ a.groups ++ b.groups
append_groups-groups a b c e =
    let same : record a { groups = a.groups ++ b.groups } ≡ c = cc e in
    sym (ap (λ z. z.groups) same)

append_node_groups-groups :
    (a b c : Node)
    → append_node_groups a b ≡ ok c
    → c.profile.groups ≡ a.profile.groups ++ b.profile.groups
append_node_groups-groups a b c e =
    let same : record a {
      profile = record a.profile { groups = a.profile.groups ++ b.profile.groups };
    }
        ≡ c =
      cc e in
    sym (ap (λ z. z.profile.groups) same)

abbrev grouped_profile : Profile
grouped_profile = record (named_profile []) { groups = codes "rack" ∷ codes "~all" ∷ [] }

abbrev grouped_node : Node
grouped_node = record (named_node []) {
  profile = record (named_profile (codes "p" ∷ [])) { groups = codes "gpu" ∷ [] };
}

abbrev grouped : NodesYaml
grouped = record {
  node_profiles = (codes "p", grouped_profile) ∷ [];
  nodes = (codes "n2", grouped_node) ∷ (codes "n1", named_node []) ∷ [];
}

abbrev merged_node : Node
merged_node = record (named_node []) {
  id = codes "n2";
  valid = true;
  profile = record (named_profile (codes "p" ∷ [])) { groups = codes "rack" ∷ codes "gpu" ∷ [] };
}

grouped_merges : merge_node append_groups append_node_groups grouped (codes "n2") ≡ ok merged_node
unfolding merge_node get_node_profiles clean_list lookup text_eq contains
grouped_merges = refl

merge_node_lem_example :
    (original : Node) × (lookup (codes "n2") grouped.nodes ≡ some original)
    × (merged_node.id ≡ codes "n2")
    × (merged_node.valid ≡ true)
    × (merged_node.profile.profiles ≡ clean_list original.profile.profiles)
    × (merged_node.profile.comment ≡ original.profile.comment)
    × HasPrimary merged_node.profile
merge_node_lem_example =
    merge_node_lem append_groups append_node_groups grouped (codes "n2") merged_node grouped_merges

not_all : codes "rack" ≢ all_group
not_all e = absurd (ground (arith, e))

group_members_lem_example :
    IsSorted text_le (group_members append_groups append_node_groups grouped (codes "rack"))
    × ((id : Text)
        → In id (group_members append_groups append_node_groups grouped (codes "rack")) ↔ (
            ((node : Node) × (merge_node append_groups append_node_groups grouped id ≡ ok node))
            × Carries grouped id (codes "rack")
            × (is_negated (codes "rack") ≡ false)
            × (¬ Carries grouped id (negation (codes "rack")))))
group_members_lem_example =
    group_members_lem append_groups append_node_groups append_groups-groups
      append_node_groups-groups grouped (codes "rack") not_all

group_members-all_example :
    In (codes "n1") (group_members append_groups append_node_groups grouped all_group) ↔ (
      ((node : Node) × (lookup (codes "n1") grouped.nodes ≡ some node))
      × (¬ Carries grouped (codes "n1") (codes "~all")))
unfolding lookup text_eq
group_members-all_example =
    group_members-all append_groups append_node_groups grouped (refl, (refl, tt)) (codes "n1")

find_all_nodes_lem_example :
    FindsOrFails append_groups append_node_groups grouped (codes "n2" ∷ codes "n1" ∷ [])
find_all_nodes_lem_example =
    find_all_nodes_lem append_groups append_node_groups grouped (codes "n2" ∷ codes "n1" ∷ [])
