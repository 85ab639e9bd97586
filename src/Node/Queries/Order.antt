-- ===== src/Node/Queries/Order.antt =====
-- The queries, and the order in which a Go map is ranged over.
use mathlib.Core.List.{Perm, filter_map}
use mathlib.Core.List.Permᴰ
use mathlib.Core.Option.{Option-elim}
use mathlib.Core.Logic.{∥∥₁_map}
use warewulf.Common.{
  ◌≡◌, refl, Bool, true, [], ◌∷◌, Option, none, some, Bool-cases, if◌then◌else◌, ap, inl, inr,
}
use warewulf.Common.Text.{Text}
use warewulf.Common.Maps.{Map}
use warewulf.Common.Sort.{sort_texts, sort_texts-Perm}
use warewulf.Node.Types.{NodesYaml}
use warewulf.Node.Queries.{
  keys_where, list_all_nodes, list_all_profiles, list_nodes_using_profile,
  list_profiles_using_profile, list_nodes_using_image, list_profiles_using_image,
  list_nodes_using_overlay, list_profiles_using_overlay,
}
use warewulf.Node.Queries.Answers.{keys-where}

module _ {V : Type 0} (p : V → Bool) where
  abbrev key_where : Text × V → Option Text
  key_where (n, v) = if p v then some n else none

  keys_where-filter_map : (m : Map V) → keys_where p m ≡ filter_map key_where m
  unfolding keys_where filter_map Option-elim
  keys_where-filter_map [] = refl
  keys_where-filter_map ((n, v) ∷ m) = elim (Bool-cases (p v)) [
    | inl e ↦ rw e (ap (λ z. n ∷ z) (keys_where-filter_map m))
    | inr e ↦ rw e (keys_where-filter_map m)
  ]

  keys_where-Perm :
      {m m' : Map V} → Perm m m' → sort_texts (keys_where p m) ≡ sort_texts (keys_where p m')
  keys_where-Perm {m} {m'} q = sort_texts-Perm (keys_where p m) (keys_where p m') (
      rw (keys_where-filter_map m, keys_where-filter_map m')
        (∥∥₁_map q (Permᴰ.filter_map key_where)))

abbrev pub SameAnswers : NodesYaml → NodesYaml → Text → Type 0
SameAnswers config config' x =
    (list_all_nodes config ≡ list_all_nodes config')
    × (list_all_profiles config ≡ list_all_profiles config')
    × (list_nodes_using_profile config x ≡ list_nodes_using_profile config' x)
    × (list_profiles_using_profile config x ≡ list_profiles_using_profile config' x)
    × (list_nodes_using_image config x ≡ list_nodes_using_image config' x)
    × (list_profiles_using_image config x ≡ list_profiles_using_image config' x)
    × (list_nodes_using_overlay config x ≡ list_nodes_using_overlay config' x)
    × (list_profiles_using_overlay config x ≡ list_profiles_using_overlay config' x)

-- Ranging over the two maps of the registry in another order changes no answer of the eight list
-- functions.
pub queries-Perm :
    (config config' : NodesYaml) (x : Text)
    → Perm config.nodes config'.nodes
    → Perm config.node_profiles config'.node_profiles
    → SameAnswers config config' x
unfolding list_all_nodes list_all_profiles list_nodes_using_profile list_profiles_using_profile
    list_nodes_using_image list_profiles_using_image list_nodes_using_overlay
    list_profiles_using_overlay
queries-Perm config config' x nodes profiles = (
  rw (keys-where config.nodes, keys-where config'.nodes) (keys_where-Perm (λ _. true) nodes),
  rw (keys-where config.node_profiles, keys-where config'.node_profiles)
      (keys_where-Perm (λ _. true) profiles),
  keys_where-Perm _ nodes,
  keys_where-Perm _ profiles,
  keys_where-Perm _ nodes,
  keys_where-Perm _ profiles,
  keys_where-Perm _ nodes,
  keys_where-Perm _ profiles,
)
