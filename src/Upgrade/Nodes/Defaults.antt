-- ===== src/Upgrade/Nodes/Defaults.antt =====
-- What the upgrade makes of the profile `default`.
use warewulf.Common.{
  ℕ, ◌≡◌, ◌≢◌, refl, sym, ◌∙◌, ap, subst, Bool, true, List, [], ◌∷◌, Option, none, some, ◌>>=◌,
  arith, inl, inr, Option-cases,
}
use warewulf.Common.Text.{Text, text_eq, text_eq_iff}
use warewulf.Common.Maps.{Map, lookup, insert, lookup-insert, lookup-insert_self}
use warewulf.Node.Types.{Profile, NodesYaml, KernelConf, IpmiConf, Resource, mounts}
use warewulf.Node.Registry.{no_ipmi}
use warewulf.Upgrade.Types.{LegacyNodesYaml}
use warewulf.Upgrade.Devices.{Host, or_text}
use warewulf.Upgrade.Values.{at_pointer}
use warewulf.Upgrade.Profiles.{upgrade_profile}
use warewulf.Upgrade.Nodes.{
  LegacyNfsConf, default_name, fstab_name, nfs_fstab, profile_or_new, add_mounts, port_mounts,
  default_mounts, or_list, default_kernel, default_ipmi, default_resources, fill_defaults,
  add_default_profile, upgrade_nodes_yaml,
}
use warewulf.Upgrade.Nodes.Upgraded.{registry, upgrade_nodes_yaml-cases}

-- What was set is kept, and what was not is set.
abbrev pub Fills : {A : Type 0} → List A → List A → Type 0
Fills old new = (old ≢ [] → new ≡ old) × (new ≢ [])

or_list-Fills : (x : Text) (old new : List Text) → Fills old (or_list old (x ∷ new))
or_list-Fills x [] new = (λ h. absurd (h refl), λ q. cc)
or_list-Fills x (y ∷ old) new = (λ _. refl, λ q. cc)

or_text-Fills : (c : ℕ) (old new : Text) → Fills old (or_text old (c ∷ new))
unfolding text_eq
or_text-Fills c [] new = (λ h. absurd (h refl), λ q. cc)
or_text-Fills c (y ∷ old) new = (λ _. refl, λ q. cc)

abbrev pub version_of : Option KernelConf → Text
version_of none = []
version_of (some k) = k.version

abbrev pub ipmi_of : Option IpmiConf → IpmiConf
ipmi_of none = no_ipmi
ipmi_of (some i) = i

abbrev pub args_of : Option KernelConf → List Text
args_of none = []
args_of (some k) = k.args

abbrev pub template_of : Option IpmiConf → Text
template_of none = []
template_of (some i) = i.template

-- The resource fstab at the end: what the profile has, with the mounts of NFS added to it where the
-- upgrade itself has put it there; the mounts of NFS; or the default ones.
abbrev pub final_fstab : List (Map Text) → Option Resource → Resource
final_fstab [] none = mounts default_mounts
final_fstab [] (some r) = r
final_fstab (entry ∷ fstab) r = add_mounts (entry ∷ fstab) r

-- What the profile `default` is at the end, from what it was before defaults and mounts.
pub record IsDefault (fstab : List (Map Text)) (old new : Profile) : Type 0 where
  pub system : Fills old.system_overlay new.system_overlay
  pub runtime : Fills old.runtime_overlay new.runtime_overlay
  pub init : Fills old.init new.init
  pub root : Fills old.root new.root
  pub ipxe : Fills old.ipxe new.ipxe
  pub args : Fills (args_of old.kernel) (args_of new.kernel)
  pub template : Fills (template_of old.ipmi) (template_of new.ipmi)
  pub version : version_of new.kernel ≡ version_of old.kernel
  pub ipmi :
      (i : IpmiConf) × (new.ipmi ≡ some i)
      × (i ≡ record (ipmi_of old.ipmi) { template = i.template })
  pub mounted :
      lookup fstab_name new.resources ≡ some (final_fstab fstab (lookup fstab_name old.resources))
  pub resources :
      (name : Text) → name ≢ fstab_name → lookup name new.resources ≡ lookup name old.resources
  -- Every other field is the old one.
  pub others : new ≡ record old {
    system_overlay = new.system_overlay;
    runtime_overlay = new.runtime_overlay;
    init = new.init;
    root = new.root;
    ipxe = new.ipxe;
    kernel = new.kernel;
    ipmi = new.ipmi;
    resources = new.resources;
  }

-- The profile with the mounts of NFS.
abbrev mounted_profile : List (Map Text) → Profile → Profile
mounted_profile [] p = p
mounted_profile (entry ∷ fstab) p = record p {
  resources =
      insert fstab_name (add_mounts (entry ∷ fstab) (lookup fstab_name p.resources)) p.resources;
}

default_resources-found :
    (rs : Map Resource) (r : Resource) → lookup fstab_name rs ≡ some r → default_resources rs ≡ rs
unfolding default_resources
default_resources-found rs r e = rw (default_resources, e) refl

default_resources-missing :
    (rs : Map Resource)
    → lookup fstab_name rs ≡ none
    → default_resources rs ≡ insert fstab_name (mounts default_mounts) rs
unfolding default_resources
default_resources-missing rs e = rw (default_resources, e) refl

default_resources-other :
    (rs : Map Resource) (name : Text)
    → name ≢ fstab_name
    → lookup name (default_resources rs) ≡ lookup name rs
default_resources-other rs name apart = elim (Option-cases (lookup fstab_name rs)) [
  | inr (r, e) ↦ ap (lookup name) (default_resources-found rs r e)
  | inl e ↦
      ap (lookup name) (default_resources-missing rs e)
      ∙ lookup-insert fstab_name name (mounts default_mounts) rs
      ∙ ground (arith, text_eq_iff fstab_name name, apart)
]

default_resources-fstab :
    (rs : Map Resource)
    → lookup fstab_name (default_resources rs) ≡ some (final_fstab [] (lookup fstab_name rs))
default_resources-fstab rs = elim (Option-cases (lookup fstab_name rs)) [
  | inr (r, e) ↦ ap (lookup fstab_name) (default_resources-found rs r e) ∙ rw e refl
  | inl e ↦
      ap (lookup fstab_name) (default_resources-missing rs e)
      ∙ lookup-insert_self fstab_name (mounts default_mounts) rs
      ∙ rw e refl
]

args_of-default : (k : Option KernelConf) → Fills (args_of k) (default_kernel k).args
unfolding default_kernel
args_of-default none = or_list-Fills _ [] _
args_of-default (some k) = or_list-Fills _ k.args _

template_of-default : (i : Option IpmiConf) → Fills (template_of i) (default_ipmi i).template
unfolding default_ipmi
template_of-default none = or_text-Fills _ [] _
template_of-default (some i) = or_text-Fills _ i.template _

version_of-default : (k : Option KernelConf) → (default_kernel k).version ≡ version_of k
unfolding default_kernel
version_of-default none = refl
version_of-default (some k) = refl

ipmi_of-default :
    (o : Option IpmiConf)
    → (i : IpmiConf) × (◌≡◌ {A = Option IpmiConf} (some (default_ipmi o)) (some i))
      × (i ≡ record (ipmi_of o) { template = i.template })
unfolding default_ipmi
ipmi_of-default none = (default_ipmi none, refl, refl)
ipmi_of-default (some i) = (default_ipmi (some i), refl, refl)

fill_defaults-IsDefault :
    (fstab : List (Map Text)) (p : Profile) (rs : Map Resource)
    → lookup fstab_name (default_resources rs)
      ≡ some (final_fstab fstab (lookup fstab_name p.resources))
    → ((name : Text)
        → name ≢ fstab_name
        → lookup name (default_resources rs) ≡ lookup name p.resources)
    → IsDefault fstab p (fill_defaults (record p { resources = rs }))
unfolding fill_defaults
fill_defaults-IsDefault fstab p rs at others = record {
  system = or_list-Fills _ p.system_overlay _;
  runtime = or_list-Fills _ p.runtime_overlay _;
  init = or_text-Fills _ p.init _;
  root = or_text-Fills _ p.root _;
  ipxe = or_text-Fills _ p.ipxe _;
  args = args_of-default p.kernel;
  template = template_of-default p.ipmi;
  version = version_of-default p.kernel;
  ipmi = ipmi_of-default p.ipmi;
  mounted = at;
  resources = others;
  others = refl;
}

mounted_profile-IsDefault :
    (fstab : List (Map Text)) (p : Profile)
    → IsDefault fstab p (fill_defaults (mounted_profile fstab p))
mounted_profile-IsDefault [] p =
    fill_defaults-IsDefault [] p p.resources (default_resources-fstab p.resources)
      (default_resources-other p.resources)
mounted_profile-IsDefault (entry ∷ fstab) p =
    fill_defaults-IsDefault (entry ∷ fstab) p with_mounts
      (ap (lookup fstab_name) (default_resources-found with_mounts _ at) ∙ at)
      (λ name apart.
        default_resources-other with_mounts name apart
        ∙ lookup-insert fstab_name name _ p.resources
        ∙ ground (arith, text_eq_iff fstab_name name, apart))
  where
    with_mounts : Map Resource
    with_mounts =
        insert fstab_name (add_mounts (entry ∷ fstab) (lookup fstab_name p.resources)) p.resources

    at :
        lookup fstab_name with_mounts
        ≡ some (add_mounts (entry ∷ fstab) (lookup fstab_name p.resources))
    at = lookup-insert_self fstab_name _ p.resources

lookup-port_mounts :
    (fstab : List (Map Text)) (profiles : Map Profile)
    → profile_or_new (lookup default_name (port_mounts fstab profiles))
      ≡ mounted_profile fstab (profile_or_new (lookup default_name profiles))
unfolding port_mounts
lookup-port_mounts [] profiles = refl
lookup-port_mounts (entry ∷ fstab) profiles =
    ap profile_or_new (lookup-insert_self default_name _ profiles)

-- Where defaults are asked for, an upgrade that does not panic gives a profile `default` that keeps
-- what the upgraded old one sets, if there is one, and sets what it does not; its mounts are those
-- of NFS, or the default ones, but a resource fstab of the old file stays as it is.
pub upgrade_nodes_yaml-defaults :
    (host : Host) (replace_overlays : Bool) (nfs : Option LegacyNfsConf) (legacy : LegacyNodesYaml)
    (u : NodesYaml)
    → upgrade_nodes_yaml host true replace_overlays nfs legacy ≡ some u
    → (p : Profile) × (lookup default_name u.node_profiles ≡ some p)
      × IsDefault
          (nfs_fstab nfs)
          (profile_or_new (
            lookup default_name legacy.node_profiles
            >>= at_pointer (upgrade_profile host true replace_overlays)))
          p
unfolding add_default_profile
upgrade_nodes_yaml-defaults host replace_overlays nfs legacy u h =
    elim (upgrade_nodes_yaml-cases host true replace_overlays nfs legacy) [
      | inr (e, _) ↦ absurd (ground (arith, e, h))
      | inl (profiles, nodes, e, (_, at), _, _, _) ↦
          let built : registry host true replace_overlays nfs legacy profiles nodes ≡ u =
            cc (sym e ∙ h) in
          let old = profile_or_new (lookup default_name profiles) in
          (
            fill_defaults (mounted_profile (nfs_fstab nfs) old),
            ap (λ z. lookup default_name z.node_profiles) (sym built)
                ∙ lookup-insert_self default_name _ (port_mounts (nfs_fstab nfs) profiles)
                ∙ ap (λ z. some (fill_defaults z)) (lookup-port_mounts (nfs_fstab nfs) profiles),
            subst
                (λ z.
                  IsDefault (nfs_fstab nfs) (profile_or_new z)
                    (fill_defaults (mounted_profile (nfs_fstab nfs) old)))
                (at default_name) (mounted_profile-IsDefault (nfs_fstab nfs) old),
          )
    ]
