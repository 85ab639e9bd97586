-- ===== src/Upgrade/Nodes.antt =====
-- internal/pkg/upgrade/node.go: the upgrade of nodes.conf. `none` is a panic.
pub mod Upgraded
pub mod Panicking
pub mod Defaults
use warewulf.Common.{
  Bool, true, false, List, [], ◌∷◌, ◌++◌, Option, none, some, if◌then◌else◌, ◌>>=◌, map,
}
use warewulf.Common.Text.{Text, codes, text_eq}
use warewulf.Common.Maps.{Map, lookup, insert}
use warewulf.Node.Types.{Profile, NodesYaml, KernelConf, IpmiConf, Resource, mounts}
use warewulf.Node.Registry.{no_ipmi, no_kernel, no_profile}
use warewulf.Upgrade.Types.{LegacyNodesYaml}
use warewulf.Upgrade.Values.{at_pointer, upgrade_all}
use warewulf.Upgrade.Devices.{Host, or_text}
use warewulf.Upgrade.Profiles.{
  wwinit_split_overlays, generic_split_overlays, upgrade_profile, upgrade_node,
}

pub record LegacyNfsExportConf : Type 0 where
  pub path : Text
  pub export_options : Text
  pub mount_options : Text
  pub mount : Option Bool

pub record LegacyNfsConf : Type 0 where
  pub enabled : Option Bool
  pub exports : List Text
  pub exports_extended : List LegacyNfsExportConf
  pub systemd_name : Text
  pub overlays : List Text

abbrev pub default_name : Text
default_name = codes "default"

abbrev pub fstab_name : Text
fstab_name = codes "fstab"

-- An entry of the resource fstab for a path of the server.
unfoldable pub fstab_entry : Text → Map Text
fstab_entry path =
    (codes "spec", codes "warewulf:" ++ path)
    ∷ (codes "file", path)
    ∷ (codes "vfstype", codes "nfs")
    ∷ []

unfoldable pub mount_entry : LegacyNfsExportConf → Map Text
unfolding fstab_entry insert text_eq
mount_entry export =
    if text_eq export.mount_options []
    then fstab_entry export.path
    else insert (codes "mntops") export.mount_options (fstab_entry export.path)

abbrev is_mounted : Option Bool → Bool
is_mounted none = false
is_mounted (some mount) = mount

unfoldable pub mounted_entries : List LegacyNfsExportConf → List (Map Text)
unfolding mount_entry
mounted_entries [] = []
mounted_entries (export ∷ exports) =
    if is_mounted export.mount
    then mount_entry export ∷ mounted_entries exports
    else mounted_entries exports

-- The mounts that an old warewulf.conf asks for; `none` is no configuration, or one without NFS.
unfoldable pub nfs_fstab : Option LegacyNfsConf → List (Map Text)
unfolding fstab_entry mounted_entries
nfs_fstab none = []
nfs_fstab (some nfs) = map fstab_entry nfs.exports ++ mounted_entries nfs.exports_extended

abbrev pub profile_or_new : Option Profile → Profile
profile_or_new none = no_profile
profile_or_new (some p) = p

-- The resource fstab with the mounts added; a resource of another type is left as it is.
unfoldable pub add_mounts : List (Map Text) → Option Resource → Resource
add_mounts fstab none = mounts fstab
add_mounts fstab (some (mounts prev_fstab)) = mounts (prev_fstab ++ fstab)
add_mounts fstab (some r) = r

unfoldable pub port_mounts : List (Map Text) → Map Profile → Map Profile
unfolding lookup insert add_mounts
port_mounts [] profiles = profiles
port_mounts (entry ∷ fstab) profiles =
    let p = profile_or_new (lookup default_name profiles) in
    insert default_name
      (record p {
        resources =
            insert fstab_name (add_mounts (entry ∷ fstab) (lookup fstab_name p.resources))
              p.resources;
      })
      profiles

abbrev pub default_args : List Text
default_args = codes "quiet" ∷ codes "crashkernel=no" ∷ codes "net.ifnames=1" ∷ []

abbrev pub default_mounts : List (Map Text)
default_mounts =
    ((codes "spec", codes "warewulf:/home")
      ∷ (codes "file", codes "/home")
      ∷ (codes "vfstype", codes "nfs")
      ∷ (codes "mntops", codes "defaults,nofail")
      ∷ [])
    ∷ ((codes "spec", codes "warewulf:/opt")
        ∷ (codes "file", codes "/opt")
        ∷ (codes "vfstype", codes "nfs")
        ∷ (codes "mntops", codes "defaults,noauto,nofail,ro")
        ∷ [])
    ∷ []

-- `if len(old) == 0 { old = append(old, new...) }`
abbrev pub or_list : List Text → List Text → List Text
or_list [] new = new
or_list (x ∷ old) new = x ∷ old

abbrev kernel_or_new : Option KernelConf → KernelConf
kernel_or_new none = no_kernel
kernel_or_new (some k) = k

abbrev ipmi_or_new : Option IpmiConf → IpmiConf
ipmi_or_new none = no_ipmi
ipmi_or_new (some i) = i

unfoldable pub default_kernel : Option KernelConf → KernelConf
default_kernel kernel =
    let k = kernel_or_new kernel in record k { args = or_list k.args default_args }

unfoldable pub default_ipmi : Option IpmiConf → IpmiConf
unfolding text_eq
default_ipmi ipmi =
    let i = ipmi_or_new ipmi in record i { template = or_text i.template (codes "ipmitool.tmpl") }

unfoldable pub default_resources : Map Resource → Map Resource
unfolding lookup insert
default_resources resources = elim (lookup fstab_name resources) [
  | some _ ↦ resources
  | none ↦ insert fstab_name (mounts default_mounts) resources
]

-- The defaults that are filled into the profile `default`.
unfoldable pub fill_defaults : Profile → Profile
unfolding text_eq default_kernel default_ipmi default_resources
fill_defaults p = record p {
  system_overlay = or_list p.system_overlay wwinit_split_overlays;
  runtime_overlay = or_list p.runtime_overlay generic_split_overlays;
  kernel = some (default_kernel p.kernel);
  init = or_text p.init (codes "/sbin/init");
  root = or_text p.root (codes "initramfs");
  ipxe = or_text p.ipxe (codes "default");
  resources = default_resources p.resources;
  ipmi = some (default_ipmi p.ipmi);
}

unfoldable pub add_default_profile : Bool → Map Profile → Map Profile
unfolding lookup insert fill_defaults
add_default_profile add_defaults profiles =
    if add_defaults
    then insert default_name (fill_defaults (profile_or_new (lookup default_name profiles)))
        profiles
    else profiles

module _ (host : Host) where
  -- `(*NodesYaml).Upgrade`
  unfoldable pub upgrade_nodes_yaml :
      Bool → Bool → Option LegacyNfsConf → LegacyNodesYaml → Option NodesYaml
  unfolding upgrade_all upgrade_profile upgrade_node nfs_fstab port_mounts add_default_profile
  upgrade_nodes_yaml add_defaults replace_overlays nfs legacy = do
    profiles ←
        upgrade_all (at_pointer (upgrade_profile host add_defaults replace_overlays))
          legacy.node_profiles
    nodes ← upgrade_all (at_pointer (upgrade_node host add_defaults replace_overlays)) legacy.nodes
    some (record {
      node_profiles = add_default_profile add_defaults (port_mounts (nfs_fstab nfs) profiles);
      nodes = nodes;
    })
