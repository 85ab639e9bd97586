-- ===== src/Config/Types.antt =====
-- internal/pkg/config: the structs of warewulf.conf (root.go, api.go, dhcp.go, nfs.go, ssh.go,
-- hostfile.go, mounts.go, wwclient.go, buildconfig.go.in), without defaults. A pointer is an
-- `Option`, an `int` is a `ℤ`.
use warewulf.Common.{ℕ, Bool, List, Option}
use warewulf.Common.Text.{Text}
use warewulf.Common.Maps.{Map}
use warewulf.Common.Integers.{ℤ}

-- `IPNet`: an address and a mask.
abbrev pub IpNet : Type 0
IpNet = Text × Text

pub record WarewulfConf : Type 0 where
  pub port : ℤ
  pub tls_port : ℤ
  pub secure : Option Bool
  pub secure_files : Option Bool
  pub tls_enabled : Option Bool
  pub update_interval : ℤ
  pub autobuild_overlays : Option Bool
  pub enable_host_overlay : Option Bool
  pub grub_boot : Option Bool
  pub systemd_name : Text

pub record ApiConf : Type 0 where
  pub enabled : Option Bool
  pub tls_enabled : Option Bool
  pub allowed_nets : List IpNet

pub record DhcpConf : Type 0 where
  pub enabled : Option Bool
  pub template : Text
  pub range_start : Text
  pub range_end : Text
  pub range6_start : Text
  pub range6_end : Text
  pub systemd_name : Text
  pub overlays : List Text

pub record TftpConf : Type 0 where
  pub enabled : Option Bool
  pub tftp_root : Text
  pub systemd_name : Text
  pub overlays : List Text
  pub ipxe_binaries : Map Text

pub record NfsExportConf : Type 0 where
  pub path : Text
  pub export_options : Text

pub record NfsConf : Type 0 where
  pub enabled : Option Bool
  pub exports_extended : List NfsExportConf
  pub systemd_name : Text
  pub overlays : List Text

pub record SshConf : Type 0 where
  pub key_types : List Text
  pub overlays : List Text

pub record HostfileConf : Type 0 where
  pub overlays : List Text

pub record MountEntry : Type 0 where
  pub source : Text
  pub dest : Text
  pub read_only : Option Bool
  pub options : Text
  pub copy : Option Bool

pub record BuildConfig : Type 0 where
  pub bindir : Text
  pub sysconfdir : Text
  pub localstatedir : Text
  pub cachedir : Text
  pub ipxesource : Text
  pub srvdir : Text
  pub firewallddir : Text
  pub systemddir : Text
  pub datadir : Text
  pub ww_overlaydir : Text
  pub ww_chrootdir : Text
  pub ww_provisiondir : Text
  pub ww_clientdir : Text
  pub ww_filesdir : Text

pub record WwClientConf : Type 0 where
  pub port : ℕ

pub record WarewulfYaml : Type 0 where
  pub comment : Text
  pub ipaddr : Text
  pub netmask : Text
  pub network : Text
  pub fqdn : Text
  pub ipaddr6 : Text
  pub prefix_len6 : Text
  pub warewulf : Option WarewulfConf
  pub api : Option ApiConf
  pub dhcp : Option DhcpConf
  pub tftp : Option TftpConf
  pub nfs : Option NfsConf
  pub ssh : Option SshConf
  pub hostfile : Option HostfileConf
  pub mounts_image : List MountEntry
  pub paths : Option BuildConfig
  pub ww_client : Option WwClientConf
