-- ===== src/Upgrade/Devices.antt =====
-- internal/pkg/upgrade/node.go: the upgrades of the parts of a profile.
use warewulf.Common.{◌>>=◌, Bool, false, List, [], ◌∷◌, Option, none, some, if◌then◌else◌}
use warewulf.Common.Text.{Text, codes, text_eq}
use warewulf.Node.Types.{IpmiConf, KernelConf, NetDev, Disk, Partition, FileSystem}
use warewulf.Upgrade.Types.{
  LegacyIpmiConf, LegacyKernelConf, LegacyNetDev, LegacyDisk, LegacyPartition, LegacyFileSystem,
}
use warewulf.Upgrade.Values.{
  bool_pointer, set_wwbool, copy_tags, delete_tags, upgrade_all, at_pointer, mount_option_text,
  upgrade_args,
}

-- What the upgrade asks of the packages net and kernel and of the file system. `parse_ip` gives no
-- bytes where `net.ParseIP` gives nil. A kernel of an image is its path and its version;
-- `override_version` is the version written in the file of an old kernel, where it can be parsed.
pub record Host : Type 0 where
  pub parse_ip : Text → Text
  pub parse_cidr : Text → Option (Text × Text)
  pub find_kernels : Text → List (Text × Text)
  pub override_version : Text → Option Text
  pub is_kernel_file : Text → Text → Bool

-- `if old == "" { old = new }`
abbrev pub or_text : Text → Text → Text
or_text old new = if text_eq old [] then new else old

-- `(*Partition).Upgrade`
unfoldable pub upgrade_partition : LegacyPartition → Partition
unfolding bool_pointer
upgrade_partition legacy = record {
  id = [];
  number = legacy.number;
  size_mib = legacy.size_mib;
  start_mib = legacy.start_mib;
  type_guid = legacy.type_guid;
  guid = legacy.guid;
  wipe_partition_entry = bool_pointer legacy.wipe_partition_entry;
  should_exist = bool_pointer legacy.should_exist;
  resize = bool_pointer legacy.resize;
}

-- `(*Disk).Upgrade`
unfoldable pub upgrade_disk : LegacyDisk → Option Disk
unfolding bool_pointer upgrade_all upgrade_partition
upgrade_disk legacy = do
  partitions ← upgrade_all (at_pointer (λ p. some (upgrade_partition p))) legacy.partitions
  some (record { id = []; wipe_table = bool_pointer legacy.wipe_table; partitions = partitions })

abbrev pub file_system_with : LegacyFileSystem → Text → FileSystem
unfolding bool_pointer
file_system_with legacy mount_options = record {
  id = [];
  format = legacy.format;
  path = legacy.path;
  wipe_file_system = bool_pointer legacy.wipe_file_system;
  label = legacy.label;
  uuid = legacy.uuid;
  options = legacy.options;
  mount_options = mount_options;
}

-- `(*FileSystem).Upgrade`
unfoldable pub upgrade_file_system : LegacyFileSystem → Option FileSystem
unfolding bool_pointer mount_option_text
upgrade_file_system legacy = elim (mount_option_text legacy.mount_options) [
  | none ↦ none
  | some mount_options ↦ some (file_system_with legacy mount_options)
]

-- The path of the last kernel of the version.
unfoldable pub last_of_version : Text → List (Text × Text) → Text → Text
unfolding text_eq
last_of_version version [] found = found
last_of_version version ((path, v) ∷ kernels) found =
    last_of_version version kernels (if text_eq v version then path else found)

module _ (host : Host) where
  -- What a kernel override stands for; empty where it is not resolved.
  unfoldable pub resolve_override : Text → Text → Text
  unfolding text_eq last_of_version
  resolve_override image_name override =
      if text_eq override [] then [] else elim (host.override_version override) [
        | some version ↦ last_of_version version (host.find_kernels image_name) []
        | none ↦ if host.is_kernel_file image_name override then override else []
      ]

  -- `(*KernelConf).Upgrade`
  unfoldable pub upgrade_kernel : LegacyKernelConf → Text → KernelConf
  unfolding upgrade_args resolve_override text_eq
  upgrade_kernel legacy image_name = record {
    version = or_text (resolve_override image_name legacy.override) legacy.version;
    args = upgrade_args legacy.args;
  }

  -- `(*IpmiConf).Upgrade`
  unfoldable pub upgrade_ipmi : LegacyIpmiConf → IpmiConf
  unfolding copy_tags delete_tags set_wwbool
  upgrade_ipmi legacy = record {
    user_name = legacy.user_name;
    password = legacy.password;
    ipaddr = host.parse_ip legacy.ipaddr;
    gateway = host.parse_ip legacy.gateway;
    netmask = host.parse_ip legacy.netmask;
    port = legacy.port;
    interface = legacy.interface;
    escape_char = legacy.escape_char;
    write = set_wwbool [] legacy.write;
    template = legacy.template;
    tags = delete_tags legacy.tags_del (copy_tags legacy.tags []);
  }

  -- The address of an `ipcidr`, and its mask, are taken where the device has none of its own.
  unfoldable pub cidr_or : Text → (Text × Text → Text) → Text → Text
  unfolding text_eq
  cidr_or ip_cidr part own =
      if text_eq ip_cidr []
      then own
      else elim (host.parse_cidr ip_cidr) [ none ↦ own | some cidr ↦ or_text own (part cidr) ]

  unfoldable pub default_type : Bool → Text → Text
  unfolding text_eq
  default_type add_defaults type = if add_defaults then or_text type (codes "ethernet") else type

  unfoldable pub default_netmask : Bool → Text → Text
  unfolding text_eq
  default_netmask add_defaults netmask =
      if add_defaults then or_text netmask (255 ∷ 255 ∷ 255 ∷ 0 ∷ []) else netmask

  -- `(*NetDev).Upgrade`
  unfoldable pub upgrade_net_dev : Bool → LegacyNetDev → NetDev
  unfolding cidr_or default_type default_netmask set_wwbool copy_tags delete_tags text_eq
  upgrade_net_dev add_defaults legacy = record {
    type = default_type add_defaults legacy.type;
    on_boot = set_wwbool [] legacy.on_boot;
    device = legacy.device;
    hwaddr = legacy.hwaddr;
    ipaddr = cidr_or legacy.ip_cidr (λ c. c.0) (host.parse_ip legacy.ipaddr);
    netmask =
        default_netmask add_defaults
          (cidr_or legacy.ip_cidr (λ c. c.1) (host.parse_ip legacy.netmask));
    gateway = host.parse_ip legacy.gateway;
    ipaddr6 = host.parse_ip (if text_eq legacy.ip6addr [] then legacy.ipaddr6 else legacy.ip6addr);
    prefix_len6 = legacy.prefix_len6;
    gateway6 = host.parse_ip legacy.gateway6;
    mtu = legacy.mtu;
    tags = delete_tags legacy.tags_del (copy_tags legacy.tags []);
    primary = false;
  }
