-- ===== src/Upgrade/Nodes/Upgraded.antt =====
-- What an upgrade of nodes.conf gives for each node and profile.
use warewulf.Common.{
  ◌≡◌, ◌≢◌, refl, sym, ◌∙◌, ap, Bool, true, false, List, [], ◌∷◌, Option, none, some, ◌>>=◌, arith,
  inl, inr, ◌⊎◌,
}
use warewulf.Common.Text.{Text, text_eq_iff}
use warewulf.Common.Maps.{Map, lookup, lookup-insert, keys}
use warewulf.Node.Types.{Profile, Node, NodesYaml}
use warewulf.Upgrade.Types.{LegacyProfile, LegacyNode, LegacyNodesYaml}
use warewulf.Upgrade.Values.{at_pointer}
use warewulf.Upgrade.Values.Entries.{UpgradesAll, Panics, upgrade_all-cases}
use warewulf.Upgrade.Devices.{Host}
use warewulf.Upgrade.Profiles.{upgrade_profile, upgrade_node}
use warewulf.Upgrade.Nodes.{
  LegacyNfsConf, default_name, nfs_fstab, port_mounts, add_default_profile, upgrade_nodes_yaml,
}

port_mounts-other :
    (fstab : List (Map Text)) (name : Text) (profiles : Map Profile)
    → name ≢ default_name
    → lookup name (port_mounts fstab profiles) ≡ lookup name profiles
unfolding port_mounts
port_mounts-other [] name profiles apart = refl
port_mounts-other (entry ∷ fstab) name profiles apart =
    lookup-insert default_name name _ profiles
    ∙ ground (arith, text_eq_iff default_name name, apart)

add_default_profile-other :
    (add_defaults : Bool) (name : Text) (profiles : Map Profile)
    → name ≢ default_name
    → lookup name (add_default_profile add_defaults profiles) ≡ lookup name profiles
unfolding add_default_profile
add_default_profile-other false name profiles apart = refl
add_default_profile-other true name profiles apart =
    lookup-insert default_name name _ profiles
    ∙ ground (arith, text_eq_iff default_name name, apart)

module _ (host : Host) (add_defaults : Bool) (replace_overlays : Bool) (nfs : Option LegacyNfsConf)
    (legacy : LegacyNodesYaml) where
  abbrev profile_upgrade : Option LegacyProfile → Option Profile
  profile_upgrade = at_pointer (upgrade_profile host add_defaults replace_overlays)

  abbrev node_upgrade : Option LegacyNode → Option Node
  node_upgrade = at_pointer (upgrade_node host add_defaults replace_overlays)

  -- The registry that is made of what is upgraded.
  abbrev pub registry : Map Profile → Map Node → NodesYaml
  registry profiles nodes = record {
    node_profiles = add_default_profile add_defaults (port_mounts (nfs_fstab nfs) profiles);
    nodes = nodes;
  }

  pub upgrade_nodes_yaml-cases :
      ((profiles : Map Profile) × (nodes : Map Node) × (upgrade_nodes_yaml host add_defaults
            replace_overlays nfs legacy
          ≡ some (registry profiles nodes))
        × UpgradesAll profile_upgrade legacy.node_profiles profiles
        × UpgradesAll node_upgrade legacy.nodes nodes
        × (¬ Panics profile_upgrade legacy.node_profiles)
        × (¬ Panics node_upgrade legacy.nodes))
      ⊎ ((upgrade_nodes_yaml host add_defaults replace_overlays nfs legacy ≡ none)
          × (Panics profile_upgrade legacy.node_profiles ⊎ Panics node_upgrade legacy.nodes))
  unfolding upgrade_nodes_yaml
  upgrade_nodes_yaml-cases = elim (upgrade_all-cases profile_upgrade legacy.node_profiles) [
    | inr (e, p) ↦ inr (rw (upgrade_nodes_yaml, e) refl, inl p)
    | inl (profiles, e, all, calm) ↦ elim (upgrade_all-cases node_upgrade legacy.nodes) [
      | inr (f, p) ↦ inr (rw (upgrade_nodes_yaml, e, f) refl, inr p)
      | inl (nodes, f, all', calm') ↦
          inl (profiles, nodes, rw (upgrade_nodes_yaml, e, f) refl, all, all', calm, calm')
    ]
  ]

  -- An upgrade of nodes.conf that does not panic gives the same nodes in their order, each upgraded,
  -- and every profile but `default` just where the old file has it, upgraded.
  pub upgrade_nodes_yaml-entries :
      (u : NodesYaml)
      → upgrade_nodes_yaml host add_defaults replace_overlays nfs legacy ≡ some u
      → (keys u.nodes ≡ keys legacy.nodes)
        × ((id : Text)
            → lookup id u.nodes ≡ (
                lookup id legacy.nodes
                >>= at_pointer (upgrade_node host add_defaults replace_overlays)))
        × ((name : Text)
            → name ≢ default_name
            → lookup name u.node_profiles ≡ (
                lookup name legacy.node_profiles
                >>= at_pointer (upgrade_profile host add_defaults replace_overlays)))
  upgrade_nodes_yaml-entries u h = elim upgrade_nodes_yaml-cases [
    | inr (e, _) ↦ absurd (ground (arith, e, h))
    | inl (profiles, nodes, e, (_, at), (same, at_node), _, _) ↦
        let built : registry profiles nodes ≡ u = cc (sym e ∙ h) in
        (
          ap (λ z. keys z.nodes) (sym built) ∙ same,
          λ id. ap (λ z. lookup id z.nodes) (sym built) ∙ at_node id,
          λ name apart.
              ap (λ z. lookup name z.node_profiles) (sym built)
              ∙ add_default_profile-other add_defaults name _ apart
              ∙ port_mounts-other (nfs_fstab nfs) name profiles apart
              ∙ at name,
        )
  ]
