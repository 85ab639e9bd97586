-- ===== src/Node/Types.antt =====
-- internal/pkg/node/datastructure.go: nodes and profiles as they are on disk.
-- A pointer to a struct that may be absent is an `Option`; `net.IP` is its bytes, `nil` is none.
use warewulf.Common.{Bool, List, Option}
use warewulf.Common.Text.{Text}
use warewulf.Common.Maps.{Map}

-- `interface{}`, as YAML fills it, or the `[]map[string]string` that an upgrade puts there
mutual
  pub data Resource : Type 0 where
    null : Resource
    scalar : Text → Resource
    sequence : Resources → Resource
    mapping : Entries → Resource
    mounts : List (Map Text) → Resource

  pub data Resources : Type 0 where
    end : Resources
    item : Resource → Resources → Resources

  pub data Entries : Type 0 where
    empty : Entries
    entry : Text → Resource → Entries → Entries

pub record IpmiConf : Type 0 where
  pub user_name : Text
  pub password : Text
  pub ipaddr : Text
  pub gateway : Text
  pub netmask : Text
  pub port : Text
  pub interface : Text
  pub escape_char : Text
  pub write : Text
  pub template : Text
  pub tags : Map Text

pub record KernelConf : Type 0 where
  pub version : Text
  pub args : List Text

pub record NetDev : Type 0 where
  pub type : Text
  pub on_boot : Text
  pub device : Text
  pub hwaddr : Text
  pub ipaddr : Text
  pub netmask : Text
  pub gateway : Text
  pub ipaddr6 : Text
  pub prefix_len6 : Text
  pub gateway6 : Text
  pub mtu : Text
  pub tags : Map Text
  pub primary : Bool

pub record Partition : Type 0 where
  pub id : Text
  pub number : Text
  pub size_mib : Text
  pub start_mib : Text
  pub type_guid : Text
  pub guid : Text
  pub wipe_partition_entry : Option Bool
  pub should_exist : Option Bool
  pub resize : Option Bool

pub record Disk : Type 0 where
  pub id : Text
  pub wipe_table : Option Bool
  pub partitions : Map Partition

pub record FileSystem : Type 0 where
  pub id : Text
  pub format : Text
  pub path : Text
  pub wipe_file_system : Option Bool
  pub label : Text
  pub uuid : Text
  pub options : List Text
  pub mount_options : Text

pub record Profile : Type 0 where
  pub id : Text
  pub profiles : List Text
  pub groups : List Text
  pub comment : Text
  pub cluster_name : Text
  pub image_name : Text
  pub ipxe : Text
  pub runtime_overlay : List Text
  pub system_overlay : List Text
  pub kernel : Option KernelConf
  pub ipmi : Option IpmiConf
  pub init : Text
  pub root : Text
  pub net_devs : Map NetDev
  pub tags : Map Text
  pub primary_net_dev : Text
  pub disks : Map Disk
  pub file_systems : Map FileSystem
  pub resources : Map Resource

-- The embedded `Profile` is a field; its own `id` is apart from the node's.
pub record Node : Type 0 where
  pub id : Text
  pub valid : Bool
  pub discoverable : Text
  pub asset_key : Text
  pub profile : Profile

pub record NodesYaml : Type 0 where
  pub node_profiles : Map Profile
  pub nodes : Map Node
