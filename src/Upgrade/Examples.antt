-- ===== src/Upgrade/Examples.antt =====
-- The theorems on upgrades, at small files of the old format.
use warewulf.Common.{
  ◌≡◌, ◌≢◌, refl, true, false, [], ◌∷◌, Option, none, some, ◌>>=◌, Distinct, arith, ℕ,
}
use warewulf.Common.Text.{Text, codes, text_eq}
use warewulf.Common.Maps.{lookup, keys, IsMap}
use warewulf.Node.Types.{Profile, NodesYaml}
use warewulf.Upgrade.Types.{
  string, scalar, absent, text, elements, LegacyProfile, LegacyNode, LegacyNodesYaml,
}
use warewulf.Upgrade.Devices.{Host}
use warewulf.Upgrade.Values.{at_pointer}
use warewulf.Upgrade.Slices.{replace_overlay}
use warewulf.Upgrade.Slices.Stable.{Replaces, replace_overlay_lem}
use warewulf.Upgrade.Profiles.{upgrade_profile, upgrade_node}
use warewulf.Upgrade.Profiles.Tags.{old_tag, UpgradesIpxe, upgrade_profile-tags}
use warewulf.Upgrade.Nodes.{
  LegacyNfsConf, default_name, nfs_fstab, profile_or_new, upgrade_nodes_yaml,
}
use warewulf.Upgrade.Nodes.Upgraded.{upgrade_nodes_yaml-entries}
use warewulf.Upgrade.Nodes.Defaults.{IsDefault, upgrade_nodes_yaml-defaults}
use warewulf.Upgrade.Config.Types.{LegacyDhcpConf, LegacyWarewulfYaml}
use warewulf.Upgrade.Config.Files.{is_zero, upgrade_config}
use warewulf.Upgrade.Config.Files.Retained.{HasServices, upgrade_config-HasServices}

-- A host with one kernel in every image.
abbrev one_kernel : Host
one_kernel = record {
  parse_ip = λ s. s;
  parse_cidr = λ s. none;
  find_kernels = λ image. (codes "/boot/vmlinuz-5", codes "5") ∷ [];
  override_version = λ override. some override;
  is_kernel_file = λ image override. false;
}

abbrev old_profile : LegacyProfile
old_profile = record {
  asset_key = [];
  cluster_name = [];
  comment = [];
  image_name = [];
  container_name = [];
  disabled = [];
  disks = [];
  file_systems = [];
  init = codes "/init";
  ipmi = none;
  ipmi_escape_char = [];
  ipmi_gateway = [];
  ipmi_interface = [];
  ipmi_ipaddr = [];
  ipmi_netmask = [];
  ipmi_password = [];
  ipmi_port = [];
  ipmi_user_name = [];
  ipmi_write = [];
  ipxe = codes "dracut";
  kernel = none;
  kernel_args = [];
  kernel_override = codes "5";
  kernel_version = [];
  keys = (codes "a", codes "0") ∷ (codes "b", codes "2") ∷ [];
  net_devs = [];
  primary_net_dev = [];
  profiles = [];
  root = [];
  runtime_overlay = absent;
  system_overlay = text (codes "wwinit,site");
  tags = (codes "a", codes "1") ∷ [];
  tags_del = codes "b" ∷ [];
  resources = [];
}

abbrev numbered_profile : LegacyProfile
numbered_profile = record old_profile {
  runtime_overlay = elements (string (codes "generic") ∷ scalar (codes "7") ∷ []);
}

abbrev old_node : LegacyNode
old_node = record {
  discoverable = codes "yes";
  profile = record old_profile { image_name = codes "rocky"; profiles = codes "default" ∷ [] };
}

abbrev old_nodes : LegacyNodesYaml
old_nodes = record {
  ww_internal = [];
  node_profiles = (codes "default", some old_profile) ∷ (codes "site", some old_profile) ∷ [];
  nodes = (codes "n1", some old_node) ∷ [];
}

abbrev numbered_nodes : LegacyNodesYaml
numbered_nodes = record old_nodes { node_profiles = (codes "site", some numbered_profile) ∷ [] }

abbrev nfs_exports : Option LegacyNfsConf
nfs_exports = some (record {
  enabled = none;
  exports = codes "/home" ∷ [];
  exports_extended = [];
  systemd_name = [];
  overlays = [];
})

abbrev registry_or_empty : Option NodesYaml → NodesYaml
registry_or_empty none = record { node_profiles = []; nodes = [] }
registry_or_empty (some u) = u

abbrev profile_or_empty : Option Profile → Profile
profile_or_empty = profile_or_new

abbrev new_registry : NodesYaml
unfolding upgrade_nodes_yaml
new_registry = registry_or_empty (upgrade_nodes_yaml one_kernel true true nfs_exports old_nodes)

upgrades : upgrade_nodes_yaml one_kernel true true nfs_exports old_nodes ≡ some new_registry
unfolding upgrade_nodes_yaml
upgrades = refl

abbrev new_profile : Profile
unfolding upgrade_profile
new_profile = profile_or_empty (upgrade_profile one_kernel true true old_profile)

upgrades_profile : upgrade_profile one_kernel true true old_profile ≡ some new_profile
unfolding upgrade_profile
upgrades_profile = refl

keys-IsMap : IsMap old_profile.keys
unfolding lookup text_eq
keys-IsMap = (refl, (refl, tt))

tags-IsMap : IsMap old_profile.tags
unfolding lookup
tags-IsMap = (refl, tt)

replace_overlay_lem_example :
    Distinct (replace_overlay (codes "a" ∷ codes "g" ∷ []) (codes "g") (codes "a" ∷ codes "b" ∷ []))
    × Replaces
        (codes "g")
        (codes "a" ∷ codes "b" ∷ [])
        (codes "a" ∷ codes "g" ∷ [])
        (replace_overlay (codes "a" ∷ codes "g" ∷ []) (codes "g") (codes "a" ∷ codes "b" ∷ []))
    × (replace_overlay
          (replace_overlay (codes "a" ∷ codes "g" ∷ []) (codes "g") (codes "a" ∷ codes "b" ∷ []))
          (codes "g")
          (codes "a" ∷ codes "b" ∷ [])
        ≡ replace_overlay (codes "a" ∷ codes "g" ∷ []) (codes "g") (codes "a" ∷ codes "b" ∷ []))
replace_overlay_lem_example =
    replace_overlay_lem (codes "g") (codes "a" ∷ codes "b" ∷ []) (codes "a" ∷ codes "g" ∷ [])
      (ground arith) (ground arith)

upgrade_nodes_yaml-entries_example :
    (keys new_registry.nodes ≡ keys old_nodes.nodes)
    × ((id : Text)
        → lookup id new_registry.nodes
          ≡ (lookup id old_nodes.nodes >>= at_pointer (upgrade_node one_kernel true true)))
    × ((name : Text)
        → name ≢ default_name
        → lookup name new_registry.node_profiles ≡ (
            lookup name old_nodes.node_profiles
            >>= at_pointer (upgrade_profile one_kernel true true)))
upgrade_nodes_yaml-entries_example =
    upgrade_nodes_yaml-entries one_kernel true true nfs_exports old_nodes new_registry upgrades

numbered_panics : upgrade_nodes_yaml one_kernel true true nfs_exports numbered_nodes ≡ none
unfolding upgrade_nodes_yaml
numbered_panics = refl

upgrade_nodes_yaml-defaults_example :
    (p : Profile) × (lookup default_name new_registry.node_profiles ≡ some p)
    × IsDefault
        (nfs_fstab nfs_exports)
        (profile_or_new (
          lookup default_name old_nodes.node_profiles
          >>= at_pointer (upgrade_profile one_kernel true true)))
        p
upgrade_nodes_yaml-defaults_example =
    upgrade_nodes_yaml-defaults one_kernel true nfs_exports old_nodes new_registry upgrades

upgrade_profile-tags_example :
    UpgradesIpxe (codes "dracut") (old_tag old_profile) new_profile.ipxe new_profile.tags
upgrade_profile-tags_example =
    upgrade_profile-tags one_kernel true true old_profile new_profile keys-IsMap tags-IsMap
      upgrades_profile

abbrev old_dhcp : LegacyDhcpConf
old_dhcp = record {
  enabled = none;
  template = [];
  range_start = [];
  range_end = [];
  range6_start = [];
  range6_end = [];
  systemd_name = codes "dnsmasq";
  overlays = [];
}

abbrev old_config : LegacyWarewulfYaml
old_config = record {
  ww_internal = [];
  comment = codes "site";
  ipaddr = [];
  ipaddr6 = [];
  netmask = [];
  network = [];
  ipv6net = [];
  prefix_len6 = [];
  fqdn = [];
  warewulf = none;
  api = none;
  dhcp = some old_dhcp;
  tftp = none;
  nfs = none;
  ssh = none;
  hostfile = none;
  mounts_image = none;
  mounts_container = none;
  paths = none;
  ww_client = none;
}

abbrev no_cidr : Text → Option (Text × ℕ)
no_cidr _ = none

config_set : is_zero old_config ≡ false
unfolding is_zero
config_set = refl

upgrade_config-HasServices_example :
    HasServices true old_config (upgrade_config no_cidr true old_config)
upgrade_config-HasServices_example = upgrade_config-HasServices true no_cidr old_config config_set
