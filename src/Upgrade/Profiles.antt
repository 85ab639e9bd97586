-- ===== src/Upgrade/Profiles.antt =====
-- internal/pkg/upgrade/node.go: the upgrades of profiles and nodes. `none` is a panic.
pub mod Readable
pub mod Tags
use warewulf.Common.{
  Bool, true, false, ◌||◌, List, [], ◌∷◌, Option, none, some, if◌then◌else◌, ◌>>=◌,
}
use warewulf.Common.Text.{Text, codes, text_eq}
use warewulf.Common.Maps.{Map, lookup, insert}
use warewulf.Node.Types.{Profile, Node, IpmiConf, KernelConf, NetDev, Disk, FileSystem}
use warewulf.Node.Registry.{no_ipmi}
use warewulf.Upgrade.Types.{
  text, LegacyIpmiConf, LegacyKernelConf, LegacyNetDev, LegacyProfile, LegacyNode,
}
use warewulf.Upgrade.Slices.{replace_overlay}
use warewulf.Upgrade.Values.{
  parses_true, set_wwbool, copy_tags, delete_tags, at_pointer, upgrade_all, overlay_names,
}
use warewulf.Upgrade.Devices.{
  Host, or_text, upgrade_disk, upgrade_file_system, upgrade_kernel, upgrade_ipmi, upgrade_net_dev,
}

abbrev pub wwinit_split_overlays : List Text
wwinit_split_overlays =
    codes "wwinit"
    ∷ codes "wwclient"
    ∷ codes "fstab"
    ∷ codes "hostname"
    ∷ codes "ssh.host_keys"
    ∷ codes "issue"
    ∷ codes "resolv"
    ∷ codes "udev.netname"
    ∷ codes "systemd.netname"
    ∷ codes "ifcfg"
    ∷ codes "ifupdown"
    ∷ codes "NetworkManager"
    ∷ codes "wicked"
    ∷ codes "ignition"
    ∷ []

abbrev pub generic_split_overlays : List Text
generic_split_overlays = codes "hosts" ∷ codes "ssh.authorized_keys" ∷ codes "syncuser" ∷ []

abbrev pub ipxe_menu_entry : Text
ipxe_menu_entry = codes "IPXEMenuEntry"

-- The tags before the iPXE template is looked at: the old keys, the tags over them, less `tagsdel`.
unfoldable pub old_tags : LegacyProfile → Map Text
unfolding copy_tags delete_tags
old_tags legacy = delete_tags legacy.tags_del (copy_tags legacy.tags (copy_tags legacy.keys []))

-- The iPXE template and the tags.
unfoldable pub upgrade_ipxe : Text → Map Text → Text × Map Text
unfolding text_eq lookup insert
upgrade_ipxe ipxe tags =
    if text_eq ipxe (codes "dracut")
    then elim (lookup ipxe_menu_entry tags) [
      | none ↦ (codes "default", insert ipxe_menu_entry (codes "dracut") tags)
      | some _ ↦ (ipxe, tags)
    ]
    else (ipxe, tags)

-- A nil device panics here, and is not reached: the devices are upgraded first, and panic on it.
unfoldable pub first_primary : Map (Option LegacyNetDev) → Text
unfolding parses_true
first_primary [] = []
first_primary ((name, none) ∷ net_devs) = first_primary net_devs
first_primary ((name, some net_dev) ∷ net_devs) =
    if parses_true net_dev.primary || parses_true net_dev.default
    then name
    else first_primary net_devs

unfoldable pub upgrade_primary : LegacyProfile → Text
unfolding text_eq first_primary
upgrade_primary legacy = or_text legacy.primary_net_dev (first_primary legacy.net_devs)

unfoldable pub split_overlays : Bool → Text → List Text → List Text → List Text
unfolding replace_overlay
split_overlays replace_overlays to_replace replacements names =
    if replace_overlays then replace_overlay names to_replace replacements else names

unfoldable pub old_image_name : LegacyProfile → Text
unfolding text_eq
old_image_name legacy = or_text legacy.image_name legacy.container_name

module _ (host : Host) where
  abbrev old_ipmi : Option LegacyIpmiConf → IpmiConf
  old_ipmi none = no_ipmi
  old_ipmi (some legacy) = upgrade_ipmi host legacy

  -- The settings of the BMC, each from `ipmi` or from the older field.
  unfoldable pub inline_ipmi : LegacyProfile → IpmiConf
  unfolding upgrade_ipmi text_eq set_wwbool
  inline_ipmi legacy =
      let ipmi = old_ipmi legacy.ipmi in
      record ipmi {
        escape_char = or_text ipmi.escape_char legacy.ipmi_escape_char;
        gateway = or_text ipmi.gateway (host.parse_ip legacy.ipmi_gateway);
        interface = or_text ipmi.interface legacy.ipmi_interface;
        ipaddr = or_text ipmi.ipaddr (host.parse_ip legacy.ipmi_ipaddr);
        netmask = or_text ipmi.netmask (host.parse_ip legacy.ipmi_netmask);
        password = or_text ipmi.password legacy.ipmi_password;
        port = or_text ipmi.port legacy.ipmi_port;
        user_name = or_text ipmi.user_name legacy.ipmi_user_name;
        write =
            if text_eq ipmi.write [] then set_wwbool ipmi.write legacy.ipmi_write else ipmi.write;
      }

  -- The kernel, from `kernel` or from the older fields.
  abbrev inline_kernel : LegacyProfile → Option LegacyKernelConf → LegacyKernelConf
  inline_kernel legacy (some kernel) = kernel
  inline_kernel legacy none = record {
    args = text legacy.kernel_args;
    override = legacy.kernel_override;
    version = legacy.kernel_version;
  }

  -- The record that is filled, with what may have panicked already read.
  unfoldable pub profile_with :
      Bool
      → LegacyProfile
      → Map Disk
      → Map FileSystem
      → Map NetDev
      → List Text
      → List Text
      → Profile
  unfolding old_tags upgrade_ipxe upgrade_primary split_overlays old_image_name inline_ipmi
      upgrade_kernel
  profile_with replace_overlays legacy disks file_systems net_devs runtime system = record {
    id = [];
    profiles = legacy.profiles;
    groups = [];
    comment = legacy.comment;
    cluster_name = legacy.cluster_name;
    image_name = old_image_name legacy;
    ipxe = (upgrade_ipxe legacy.ipxe (old_tags legacy)).0;
    runtime_overlay =
        split_overlays replace_overlays (codes "generic") generic_split_overlays runtime;
    system_overlay = split_overlays replace_overlays (codes "wwinit") wwinit_split_overlays system;
    kernel =
        some (upgrade_kernel host (inline_kernel legacy legacy.kernel) (old_image_name legacy));
    ipmi = some (inline_ipmi legacy);
    init = legacy.init;
    root = legacy.root;
    net_devs = net_devs;
    tags = (upgrade_ipxe legacy.ipxe (old_tags legacy)).1;
    primary_net_dev = upgrade_primary legacy;
    disks = disks;
    file_systems = file_systems;
    resources = legacy.resources;
  }

  -- `(*Profile).Upgrade`
  unfoldable pub upgrade_profile : Bool → Bool → LegacyProfile → Option Profile
  unfolding upgrade_all upgrade_disk upgrade_file_system upgrade_net_dev overlay_names profile_with
  upgrade_profile add_defaults replace_overlays legacy = do
    disks ← upgrade_all (at_pointer upgrade_disk) legacy.disks
    file_systems ← upgrade_all (at_pointer upgrade_file_system) legacy.file_systems
    net_devs ←
        upgrade_all (at_pointer (λ dev. some (upgrade_net_dev host add_defaults dev)))
          legacy.net_devs
    runtime ← overlay_names legacy.runtime_overlay
    system ← overlay_names legacy.system_overlay
    some (profile_with replace_overlays legacy disks file_systems net_devs runtime system)

  unfoldable pub node_profiles_or_default : Bool → List Text → List Text
  node_profiles_or_default true [] = codes "default" ∷ []
  node_profiles_or_default true (p ∷ ps) = p ∷ ps
  node_profiles_or_default false ps = ps

  abbrev pub node_with : Bool → LegacyNode → Option Profile → Option Node
  node_with add_defaults legacy none = none
  node_with add_defaults legacy (some profile) = some (record {
    id = [];
    valid = false;
    discoverable = set_wwbool [] legacy.discoverable;
    asset_key = legacy.profile.asset_key;
    profile = record profile {
      profiles = node_profiles_or_default add_defaults legacy.profile.profiles;
    };
  })

  -- `(*Node).Upgrade`: its body is that of a profile without defaults for the devices.
  unfoldable pub upgrade_node : Bool → Bool → LegacyNode → Option Node
  unfolding upgrade_profile set_wwbool node_profiles_or_default
  upgrade_node add_defaults replace_overlays legacy =
      node_with add_defaults legacy (upgrade_profile false replace_overlays legacy.profile)
