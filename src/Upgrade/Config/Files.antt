-- ===== src/Upgrade/Config/Files.antt =====
-- internal/pkg/upgrade/config.go: the upgrade of the whole file. What `net.ParseCIDR` gives, the
-- text of the address and the length of the prefix, is an argument.
pub mod Retained
use warewulf.Common.{
  ℕ, Bool, true, false, not, ◌&&◌, List, [], ◌∷◌, Option, none, some, if◌then◌else◌, map,
}
use warewulf.Common.Text.{Text, codes, text_eq}
use warewulf.Hostlist.Numbers.{itoa}
use warewulf.Config.Types.{
  WarewulfConf, ApiConf, DhcpConf, TftpConf, NfsConf, SshConf, HostfileConf, MountEntry,
  BuildConfig, WwClientConf, WarewulfYaml,
}
use warewulf.Upgrade.Devices.{or_text}
use warewulf.Upgrade.Nodes.{LegacyNfsConf}
use warewulf.Upgrade.Config.Types.{
  LegacyWarewulfConf, LegacyApiConf, LegacyDhcpConf, LegacyTftpConf, LegacySshConf,
  LegacyHostfileConf, LegacyMountEntry, LegacyBuildConfig, LegacyWwClientConf, LegacyWarewulfYaml,
}
use warewulf.Upgrade.Config.Services.{
  upgrade_dhcp, upgrade_tftp, upgrade_nfs, upgrade_ssh, upgrade_hostfile,
  append_legacy_host_overlay,
}

-- `(*WarewulfConf).Upgrade`
unfoldable pub upgrade_warewulf_conf : LegacyWarewulfConf → WarewulfConf
upgrade_warewulf_conf legacy = record {
  port = legacy.port;
  tls_port = legacy.tls_port;
  secure = legacy.secure;
  secure_files = legacy.secure_files;
  tls_enabled = legacy.tls_enabled;
  update_interval = legacy.update_interval;
  autobuild_overlays = legacy.autobuild_overlays;
  enable_host_overlay = legacy.enable_host_overlay;
  grub_boot = legacy.grub_boot;
  systemd_name = legacy.systemd_name;
}

-- `(*APIConf).Upgrade`
unfoldable pub upgrade_api : LegacyApiConf → ApiConf
upgrade_api legacy = record {
  enabled = legacy.enabled;
  tls_enabled = legacy.tls_enabled;
  allowed_nets = legacy.allowed_nets;
}

-- `(*MountEntry).Upgrade`
unfoldable pub upgrade_mount : LegacyMountEntry → MountEntry
upgrade_mount legacy = record {
  source = legacy.source;
  dest = legacy.dest;
  read_only = legacy.read_only;
  options = legacy.options;
  copy = legacy.copy;
}

-- `(*BuildConfig).Upgrade`, which leaves the directory of systemd unset.
unfoldable pub upgrade_build_config : LegacyBuildConfig → BuildConfig
upgrade_build_config legacy = record {
  bindir = legacy.bindir;
  sysconfdir = legacy.sysconfdir;
  localstatedir = legacy.localstatedir;
  cachedir = legacy.cachedir;
  ipxesource = legacy.ipxesource;
  srvdir = legacy.srvdir;
  firewallddir = legacy.firewallddir;
  systemddir = [];
  datadir = legacy.datadir;
  ww_overlaydir = legacy.ww_overlaydir;
  ww_chrootdir = legacy.ww_chrootdir;
  ww_provisiondir = legacy.ww_provisiondir;
  ww_clientdir = legacy.ww_clientdir;
  ww_filesdir = [];
}

-- `(*WWClientConf).Upgrade`
unfoldable pub upgrade_ww_client : LegacyWwClientConf → WwClientConf
upgrade_ww_client legacy = record { port = legacy.port }

abbrev pub is_none : {A : Type 0} → Option A → Bool
is_none none = true
is_none (some a) = false

-- `reflect.ValueOf(*legacy).IsZero()`
unfoldable pub is_zero : LegacyWarewulfYaml → Bool
unfolding text_eq
is_zero y =
    text_eq y.ww_internal []
    && (text_eq y.comment []
        && (text_eq y.ipaddr []
            && (text_eq y.ipaddr6 []
                && (text_eq y.netmask []
                    && (text_eq y.network []
                        && (text_eq y.ipv6net []
                            && (text_eq y.prefix_len6 []
                                && (text_eq y.fqdn []
                                    && (is_none y.warewulf
                                        && (is_none y.api
                                            && (is_none y.dhcp
                                                && (is_none y.tftp
                                                    && (is_none y.nfs
                                                        && (is_none y.ssh
                                                            && (is_none y.hostfile
                                                            && (is_none y.mounts_image
                                                            && (is_none y.mounts_container
                                                            && (is_none y.paths
                                                            && is_none y.ww_client))))))))))))))))))

abbrev option_map : {A B : Type 0} → (A → B) → Option A → Option B
option_map f none = none
option_map f (some a) = some (f a)

-- A section that is upgraded where it is there, or the file is not empty.
abbrev pub section : {A B : Type 0} → Bool → (Option A → B) → Option A → Option B
section non_empty upgrade none = if non_empty then some (upgrade none) else none
section non_empty upgrade (some a) = some (upgrade (some a))

-- The overlays of a service, with the legacy host overlay behind them where it is retained.
abbrev pub retained : Bool → List Text → List Text
unfolding append_legacy_host_overlay
retained retain overlays = if retain then append_legacy_host_overlay overlays else overlays

abbrev mounts_or_nil : Option (List LegacyMountEntry) → List LegacyMountEntry
mounts_or_nil none = []
mounts_or_nil (some mounts) = mounts

unfoldable pub upgrade_mounts :
    Option (List LegacyMountEntry) → Option (List LegacyMountEntry) → List MountEntry
unfolding upgrade_mount
upgrade_mounts image container = elim (mounts_or_nil image) [
  | [] ↦ map upgrade_mount (mounts_or_nil container)
  | m ∷ ms ↦ upgrade_mount m ∷ map upgrade_mount ms
]

abbrev no_paths : BuildConfig
no_paths = record {
  bindir = [];
  sysconfdir = [];
  localstatedir = [];
  cachedir = [];
  ipxesource = [];
  srvdir = [];
  firewallddir = [];
  systemddir = [];
  datadir = [];
  ww_overlaydir = [];
  ww_chrootdir = [];
  ww_provisiondir = [];
  ww_clientdir = [];
  ww_filesdir = [];
}

abbrev paths_or_new : Option BuildConfig → BuildConfig
paths_or_new none = no_paths
paths_or_new (some p) = p

-- The data directory of the paths is the old data store, where they have none.
unfoldable pub with_data_store : Option LegacyWarewulfConf → Option BuildConfig → Option BuildConfig
unfolding text_eq
with_data_store none paths = paths
with_data_store (some w) paths =
    if text_eq w.data_store []
    then paths
    else let p = paths_or_new paths in some (record p { datadir = or_text p.datadir w.data_store })

module _ (parse_cidr : Text → Option (Text × ℕ)) where
  -- The address and the length of the prefix for IPv6.
  unfoldable pub upgrade_ipv6 : Text → Text → Text → Text × Text
  unfolding text_eq itoa
  upgrade_ipv6 ipv6net ipaddr6 prefix_len6 =
      if text_eq ipv6net [] then (ipaddr6, prefix_len6) else elim (parse_cidr ipv6net) [
        | none ↦ (ipaddr6, prefix_len6)
        | some (ip, prefix_len) ↦ (or_text ipaddr6 ip, or_text prefix_len6 (itoa prefix_len))
      ]

  -- `(*WarewulfYaml).Upgrade`
  unfoldable pub upgrade_config : Bool → LegacyWarewulfYaml → WarewulfYaml
  unfolding upgrade_ipv6 upgrade_warewulf_conf upgrade_api is_zero upgrade_dhcp upgrade_tftp
      upgrade_nfs upgrade_ssh upgrade_hostfile append_legacy_host_overlay upgrade_mounts
      upgrade_build_config with_data_store upgrade_ww_client
  upgrade_config retain legacy =
      let non_empty = not (is_zero legacy) in
      let ipv6 = upgrade_ipv6 legacy.ipv6net legacy.ipaddr6 legacy.prefix_len6 in
      record {
        comment = legacy.comment;
        ipaddr = legacy.ipaddr;
        netmask = legacy.netmask;
        network = legacy.network;
        fqdn = legacy.fqdn;
        ipaddr6 = ipv6.0;
        prefix_len6 = ipv6.1;
        warewulf = option_map upgrade_warewulf_conf legacy.warewulf;
        api = option_map upgrade_api legacy.api;
        dhcp =
            option_map (λ (c : DhcpConf). record c { overlays = retained retain c.overlays })
              (section non_empty upgrade_dhcp legacy.dhcp);
        tftp =
            option_map (λ (c : TftpConf). record c { overlays = retained retain c.overlays })
              (section non_empty upgrade_tftp legacy.tftp);
        nfs =
            option_map (λ (c : NfsConf). record c { overlays = retained retain c.overlays })
              (section non_empty upgrade_nfs legacy.nfs);
        ssh =
            option_map (λ (c : SshConf). record c { overlays = retained retain c.overlays })
              (section non_empty upgrade_ssh legacy.ssh);
        hostfile =
            option_map (λ (c : HostfileConf). record c { overlays = retained retain c.overlays })
              (section non_empty upgrade_hostfile legacy.hostfile);
        mounts_image = upgrade_mounts legacy.mounts_image legacy.mounts_container;
        paths = with_data_store legacy.warewulf (option_map upgrade_build_config legacy.paths);
        ww_client = option_map upgrade_ww_client legacy.ww_client;
      }
