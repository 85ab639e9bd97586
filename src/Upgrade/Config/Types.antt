-- ===== src/Upgrade/Config/Types.antt =====
-- internal/pkg/upgrade/config.go: the structs of an old warewulf.conf. Where the upgrade asks
-- whether a slice is nil, it is an `Option`.
use warewulf.Common.{ℕ, Bool, List, Option}
use warewulf.Common.Text.{Text}
use warewulf.Common.Maps.{Map}
use warewulf.Common.Integers.{ℤ}
use warewulf.Config.Types.{IpNet}
use warewulf.Upgrade.Nodes.{LegacyNfsConf}

pub record LegacyWarewulfConf : Type 0 where
  pub port : ℤ
  pub tls_port : ℤ
  pub secure : Option Bool
  pub secure_files : Option Bool
  pub tls_enabled : Option Bool
  pub update_interval : ℤ
  pub autobuild_overlays : Option Bool
  pub enable_host_overlay : Option Bool
  pub syslog : Option Bool
  pub data_store : Text
  pub grub_boot : Option Bool
  pub systemd_name : Text

pub record LegacyApiConf : Type 0 where
  pub enabled : Option Bool
  pub tls_enabled : Option Bool
  pub allowed_nets : List IpNet

pub record LegacyDhcpConf : Type 0 where
  pub enabled : Option Bool
  pub template : Text
  pub range_start : Text
  pub range_end : Text
  pub range6_start : Text
  pub range6_end : Text
  pub systemd_name : Text
  pub overlays : List Text

pub record LegacyTftpConf : Type 0 where
  pub enabled : Option Bool
  pub tftp_root : Text
  pub systemd_name : Text
  pub ipxe_binaries : Map Text
  pub overlays : List Text

pub record LegacySshConf : Type 0 where
  pub key_types : List Text
  pub overlays : List Text

pub record LegacyHostfileConf : Type 0 where
  pub overlays : List Text

pub record LegacyMountEntry : Type 0 where
  pub source : Text
  pub dest : Text
  pub read_only : Option Bool
  pub options : Text
  pub copy : Option Bool

pub record LegacyBuildConfig : Type 0 where
  pub bindir : Text
  pub sysconfdir : Text
  pub localstatedir : Text
  pub cachedir : Text
  pub ipxesource : Text
  pub srvdir : Text
  pub firewallddir : Text
  pub systemddir : Text
  pub datadir : Text
  pub ww_overlaydir : Text
  pub ww_chrootdir : Text
  pub ww_provisiondir : Text
  pub ww_clientdir : Text

pub record LegacyWwClientConf : Type 0 where
  pub port : ℕ

pub record LegacyWarewulfYaml : Type 0 where
  pub ww_internal : Text
  pub comment : Text
  pub ipaddr : Text
  pub ipaddr6 : Text
  pub netmask : Text
  pub network : Text
  pub ipv6net : Text
  pub prefix_len6 : Text
  pub fqdn : Text
  pub warewulf : Option LegacyWarewulfConf
  pub api : Option LegacyApiConf
  pub dhcp : Option LegacyDhcpConf
  pub tftp : Option LegacyTftpConf
  pub nfs : Option LegacyNfsConf
  pub ssh : Option LegacySshConf
  pub hostfile : Option LegacyHostfileConf
  pub mounts_image : Option (List LegacyMountEntry)
  pub mounts_container : Option (List LegacyMountEntry)
  pub paths : Option LegacyBuildConfig
  pub ww_client : Option LegacyWwClientConf
