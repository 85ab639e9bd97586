-- ===== src/Upgrade/Types.antt =====
-- internal/pkg/upgrade/node.go: the structs of the old format. A pointer that a map holds is
-- `none` where it is nil, as a null in the file makes it; a nil map or slice is empty.
use warewulf.Common.{List, Option}
use warewulf.Common.Text.{Text}
use warewulf.Common.Maps.{Map}
use warewulf.Node.Types.{Resource}

-- An element of a `[]interface{}`: a string, another scalar with what `%v` prints for it, or a map
-- or list.
pub data Element : Type 0 where
  string : Text → Element
  scalar : Text → Element
  nested : Element

-- An `interface{}` that is read as a string or a list.
pub data Value : Type 0 where
  absent : Value
  text : Text → Value
  elements : List Element → Value
  other : Value

pub record LegacyIpmiConf : Type 0 where
  pub escape_char : Text
  pub gateway : Text
  pub interface : Text
  pub ipaddr : Text
  pub netmask : Text
  pub password : Text
  pub port : Text
  pub tags : Map Text
  pub tags_del : List Text
  pub template : Text
  pub user_name : Text
  pub write : Text

pub record LegacyKernelConf : Type 0 where
  pub args : Value
  pub override : Text
  pub version : Text

pub record LegacyNetDev : Type 0 where
  pub default : Text
  pub device : Text
  pub gateway : Text
  pub gateway6 : Text
  pub hwaddr : Text
  pub ip_cidr : Text
  pub ip6addr : Text
  pub ipaddr : Text
  pub ipaddr6 : Text
  pub mtu : Text
  pub netmask : Text
  pub on_boot : Text
  pub prefix : Text
  pub prefix_len6 : Text
  pub primary : Text
  pub tags : Map Text
  pub tags_del : List Text
  pub type : Text

pub record LegacyPartition : Type 0 where
  pub guid : Text
  pub number : Text
  pub resize : Text
  pub should_exist : Text
  pub size_mib : Text
  pub start_mib : Text
  pub type_guid : Text
  pub wipe_partition_entry : Text

pub record LegacyDisk : Type 0 where
  pub partitions : Map (Option LegacyPartition)
  pub wipe_table : Text

pub record LegacyFileSystem : Type 0 where
  pub format : Text
  pub label : Text
  pub mount_options : Value
  pub options : List Text
  pub path : Text
  pub uuid : Text
  pub wipe_file_system : Text

pub record LegacyProfile : Type 0 where
  pub asset_key : Text
  pub cluster_name : Text
  pub comment : Text
  pub image_name : Text
  pub container_name : Text
  pub disabled : Text
  pub disks : Map (Option LegacyDisk)
  pub file_systems : Map (Option LegacyFileSystem)
  pub init : Text
  pub ipmi : Option LegacyIpmiConf
  pub ipmi_escape_char : Text
  pub ipmi_gateway : Text
  pub ipmi_interface : Text
  pub ipmi_ipaddr : Text
  pub ipmi_netmask : Text
  pub ipmi_password : Text
  pub ipmi_port : Text
  pub ipmi_user_name : Text
  pub ipmi_write : Text
  pub ipxe : Text
  pub kernel : Option LegacyKernelConf
  pub kernel_args : Text
  pub kernel_override : Text
  pub kernel_version : Text
  pub keys : Map Text
  pub net_devs : Map (Option LegacyNetDev)
  pub primary_net_dev : Text
  pub profiles : List Text
  pub root : Text
  pub runtime_overlay : Value
  pub system_overlay : Value
  pub tags : Map Text
  pub tags_del : List Text
  pub resources : Map Resource

pub record LegacyNode : Type 0 where
  pub discoverable : Text
  pub profile : LegacyProfile

pub record LegacyNodesYaml : Type 0 where
  pub ww_internal : Text
  pub node_profiles : Map (Option LegacyProfile)
  pub nodes : Map (Option LegacyNode)
