-- ===== src/Upgrade/Config/Services.antt =====
-- internal/pkg/upgrade/config.go: the upgrades of the sections of the services.
use warewulf.Common.{List, [], ◌∷◌, ◌++◌, Option, none, some, if◌then◌else◌, map}
use warewulf.Common.Text.{Text, codes, text_eq, contains}
use warewulf.Config.Types.{DhcpConf, TftpConf, NfsConf, NfsExportConf, SshConf, HostfileConf}
use warewulf.Upgrade.Nodes.{LegacyNfsConf, LegacyNfsExportConf, or_list}
use warewulf.Upgrade.Config.Types.{
  LegacyDhcpConf, LegacyTftpConf, LegacySshConf, LegacyHostfileConf,
}

abbrev no_dhcp : LegacyDhcpConf
no_dhcp = record {
  enabled = none;
  template = [];
  range_start = [];
  range_end = [];
  range6_start = [];
  range6_end = [];
  systemd_name = [];
  overlays = [];
}

abbrev no_tftp : LegacyTftpConf
no_tftp = record {
  enabled = none;
  tftp_root = [];
  systemd_name = [];
  ipxe_binaries = [];
  overlays = [];
}

abbrev no_nfs : LegacyNfsConf
no_nfs = record {
  enabled = none;
  exports = [];
  exports_extended = [];
  systemd_name = [];
  overlays = [];
}

abbrev dhcpd_names : List Text
dhcpd_names = [] ∷ codes "dhcpd" ∷ codes "isc-dhcp-server" ∷ []

abbrev tftpd_names : List Text
tftpd_names = [] ∷ codes "tftp" ∷ codes "tftpd" ∷ codes "tftpd-hpa" ∷ []

abbrev nfsd_names : List Text
nfsd_names = [] ∷ codes "nfs-server" ∷ codes "nfsd" ∷ codes "nfs-kernel-server" ∷ []

-- The overlays recommended for a service by its name in systemd; none where it is not recognized.
unfoldable pub dhcp_overlays : Text → List Text
unfolding contains text_eq
dhcp_overlays systemd_name =
    if contains dhcpd_names systemd_name
    then codes "dhcpd" ∷ []
    else if text_eq systemd_name (codes "dnsmasq")
    then codes "dnsmasq" ∷ []
    else []

unfoldable pub tftp_overlays : Text → List Text
unfolding contains text_eq
tftp_overlays systemd_name =
    if contains tftpd_names systemd_name
    then codes "tftproot" ∷ []
    else if text_eq systemd_name (codes "dnsmasq")
    then codes "dnsmasq" ∷ codes "tftproot" ∷ []
    else []

unfoldable pub nfs_overlays : Text → List Text
unfolding contains
nfs_overlays systemd_name = if contains nfsd_names systemd_name then codes "nfsd" ∷ [] else []

abbrev given_or : {A : Type 0} → A → Option A → A
given_or new none = new
given_or new (some a) = a

abbrev dhcp_of : LegacyDhcpConf → DhcpConf
unfolding dhcp_overlays
dhcp_of legacy = record {
  enabled = legacy.enabled;
  template = legacy.template;
  range_start = legacy.range_start;
  range_end = legacy.range_end;
  range6_start = legacy.range6_start;
  range6_end = legacy.range6_end;
  systemd_name = legacy.systemd_name;
  overlays = or_list legacy.overlays (dhcp_overlays legacy.systemd_name);
}

-- `(*DHCPConf).Upgrade`; a section that is absent is one without settings.
unfoldable pub upgrade_dhcp : Option LegacyDhcpConf → DhcpConf
unfolding dhcp_overlays
upgrade_dhcp legacy = dhcp_of (given_or no_dhcp legacy)

abbrev tftp_of : LegacyTftpConf → TftpConf
unfolding tftp_overlays
tftp_of legacy = record {
  enabled = legacy.enabled;
  tftp_root = legacy.tftp_root;
  systemd_name = legacy.systemd_name;
  overlays = or_list legacy.overlays (tftp_overlays legacy.systemd_name);
  ipxe_binaries = legacy.ipxe_binaries;
}

-- `(*TFTPConf).Upgrade`
unfoldable pub upgrade_tftp : Option LegacyTftpConf → TftpConf
unfolding tftp_overlays
upgrade_tftp legacy = tftp_of (given_or no_tftp legacy)

abbrev export_of : Text → NfsExportConf
export_of path = record { path = path; export_options = [] }

-- `(*NFSExportConf).Upgrade`
unfoldable pub upgrade_nfs_export : LegacyNfsExportConf → NfsExportConf
upgrade_nfs_export legacy = record { path = legacy.path; export_options = legacy.export_options }

abbrev nfs_of : LegacyNfsConf → NfsConf
unfolding nfs_overlays upgrade_nfs_export
nfs_of legacy = record {
  enabled = legacy.enabled;
  exports_extended = map export_of legacy.exports ++ map upgrade_nfs_export legacy.exports_extended;
  systemd_name = legacy.systemd_name;
  overlays = or_list legacy.overlays (nfs_overlays legacy.systemd_name);
}

-- `(*NFSConf).Upgrade`
unfoldable pub upgrade_nfs : Option LegacyNfsConf → NfsConf
unfolding nfs_overlays upgrade_nfs_export
upgrade_nfs legacy = nfs_of (given_or no_nfs legacy)

-- `(*SSHConf).Upgrade`
unfoldable pub upgrade_ssh : Option LegacySshConf → SshConf
upgrade_ssh none = record { key_types = []; overlays = codes "ssh.wwctl" ∷ [] }
upgrade_ssh (some legacy) = record {
  key_types = legacy.key_types;
  overlays = or_list legacy.overlays (codes "ssh.wwctl" ∷ []);
}

-- `(*HostfileConf).Upgrade`
unfoldable pub upgrade_hostfile : Option LegacyHostfileConf → HostfileConf
upgrade_hostfile none = record { overlays = codes "hosts" ∷ [] }
upgrade_hostfile (some legacy) = record { overlays = or_list legacy.overlays (codes "hosts" ∷ []) }

abbrev pub legacy_host_overlay : Text
legacy_host_overlay = codes "host"

-- `appendLegacyHostOverlay`
unfoldable pub append_legacy_host_overlay : List Text → List Text
unfolding contains
append_legacy_host_overlay overlays =
    if contains overlays legacy_host_overlay then overlays else overlays ++ legacy_host_overlay ∷ []
