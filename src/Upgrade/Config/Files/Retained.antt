-- ===== src/Upgrade/Config/Files/Retained.antt =====
-- Which overlays the services have after an upgrade of warewulf.conf.
use warewulf.Common.{
  ◌≡◌, ◌≢◌, refl, sym, Bool, true, false, List, [], ◌∷◌, ◌++◌, Option, none, some, arith, inl, inr,
  ◌⊎◌, ℕ, In, Bool-cases, In-append_right, append-nil,
}
use warewulf.Common.Text.{Text, codes, contains, contains_iff}
use warewulf.Config.Types.{DhcpConf, TftpConf, NfsConf, SshConf, HostfileConf, WarewulfYaml}
use warewulf.Upgrade.Nodes.{LegacyNfsConf, or_list}
use warewulf.Upgrade.Config.Types.{
  LegacyDhcpConf, LegacyTftpConf, LegacySshConf, LegacyHostfileConf, LegacyWarewulfYaml,
}
use warewulf.Upgrade.Config.Services.{
  dhcp_overlays, tftp_overlays, nfs_overlays, upgrade_dhcp, upgrade_tftp, upgrade_nfs, upgrade_ssh,
  upgrade_hostfile, legacy_host_overlay, append_legacy_host_overlay,
}
use warewulf.Upgrade.Config.Files.{is_zero, section, option_map, retained, upgrade_config}

-- The overlays of a service: those of the old file, or the recommended ones where it names none;
-- where the old host overlay is retained, it is among them, behind the others if it was not there.
abbrev pub IsConfigured : Bool → List Text → List Text → List Text → Type 0
IsConfigured retain given recommended overlays =
    (base : List Text) × (last : List Text) × (given ≢ [] → base ≡ given)
    × (given ≡ [] → base ≡ recommended)
    × (overlays ≡ base ++ last)
    × ((last ≡ [])
        ⊎ ((retain ≡ true) × (¬ In legacy_host_overlay base) × (last ≡ legacy_host_overlay ∷ [])))
    × (retain ≡ true → In legacy_host_overlay overlays)

or_list-IsConfigured :
    (retain : Bool) (given recommended : List Text)
    → IsConfigured retain given recommended (retained retain (or_list given recommended))
unfolding append_legacy_host_overlay
or_list-IsConfigured retain given recommended =
    (base, added.0, given_kept given, none_given given, added.1, added.2, added.3)
  where
    base : List Text
    base = or_list given recommended

    given_kept : (g : List Text) → g ≢ [] → or_list g recommended ≡ g
    given_kept [] h = absurd (h refl)
    given_kept (x ∷ g) h = refl

    none_given : (g : List Text) → g ≡ [] → or_list g recommended ≡ recommended
    none_given [] e = refl
    none_given (x ∷ g) e = cc

    added :
        (last : List Text) × (retained retain base ≡ base ++ last)
        × ((last ≡ [])
            ⊎ ((retain ≡ true)
                × (¬ In legacy_host_overlay base)
                × (last ≡ legacy_host_overlay ∷ [])))
        × (retain ≡ true → In legacy_host_overlay (retained retain base))
    added = elim (Bool-cases retain) [
      | inr e ↦ rw e ([], sym (append-nil base), inl refl, λ q. absurd (ground (arith, q)))
      | inl e ↦ rw e (elim (Bool-cases (contains base legacy_host_overlay)) [
        | inl t ↦
            rw t (
              [],
              sym (append-nil base),
              inl refl,
              λ _. (contains_iff base legacy_host_overlay).0 t,
            )
        | inr f ↦ rw f (
          legacy_host_overlay ∷ [],
          refl,
          inr (
            refl,
            λ i. absurd (ground (arith, f, (contains_iff base legacy_host_overlay).1 i)),
            refl,
          ),
          λ _. In-append_right legacy_host_overlay base _ (inl refl),
        )
      ])
    ]

abbrev dhcp_given : Option LegacyDhcpConf → List Text × Text
dhcp_given none = ([], [])
dhcp_given (some c) = (c.overlays, c.systemd_name)

abbrev tftp_given : Option LegacyTftpConf → List Text × Text
tftp_given none = ([], [])
tftp_given (some c) = (c.overlays, c.systemd_name)

abbrev nfs_given : Option LegacyNfsConf → List Text × Text
nfs_given none = ([], [])
nfs_given (some c) = (c.overlays, c.systemd_name)

abbrev ssh_given : Option LegacySshConf → List Text
ssh_given none = []
ssh_given (some c) = c.overlays

abbrev hostfile_given : Option LegacyHostfileConf → List Text
hostfile_given none = []
hostfile_given (some c) = c.overlays

-- Every service has a section, with its overlays.
pub record HasServices (retain : Bool) (legacy : LegacyWarewulfYaml) (u : WarewulfYaml)
    : Type 0 where
  pub dhcp :
      (c : DhcpConf) × (u.dhcp ≡ some c)
      × IsConfigured retain
          (dhcp_given legacy.dhcp).0
          (dhcp_overlays (dhcp_given legacy.dhcp).1)
          c.overlays
  pub tftp :
      (c : TftpConf) × (u.tftp ≡ some c)
      × IsConfigured retain
          (tftp_given legacy.tftp).0
          (tftp_overlays (tftp_given legacy.tftp).1)
          c.overlays
  pub nfs :
      (c : NfsConf) × (u.nfs ≡ some c)
      × IsConfigured retain
          (nfs_given legacy.nfs).0
          (nfs_overlays (nfs_given legacy.nfs).1)
          c.overlays
  pub ssh :
      (c : SshConf) × (u.ssh ≡ some c)
      × IsConfigured retain (ssh_given legacy.ssh) (codes "ssh.wwctl" ∷ []) c.overlays
  pub hostfile :
      (c : HostfileConf) × (u.hostfile ≡ some c)
      × IsConfigured retain (hostfile_given legacy.hostfile) (codes "hosts" ∷ []) c.overlays

module _ (retain : Bool) where
  dhcp-IsConfigured :
      (d : Option LegacyDhcpConf)
      → (c : DhcpConf) × (option_map
            (λ (c : DhcpConf). record c { overlays = retained retain c.overlays })
            (section true upgrade_dhcp d)
          ≡ some c)
        × IsConfigured retain (dhcp_given d).0 (dhcp_overlays (dhcp_given d).1) c.overlays
  unfolding upgrade_dhcp append_legacy_host_overlay
  dhcp-IsConfigured none = (_, refl, or_list-IsConfigured retain [] (dhcp_overlays []))
  dhcp-IsConfigured (some d) =
      (_, refl, or_list-IsConfigured retain d.overlays (dhcp_overlays d.systemd_name))

  tftp-IsConfigured :
      (d : Option LegacyTftpConf)
      → (c : TftpConf) × (option_map
            (λ (c : TftpConf). record c { overlays = retained retain c.overlays })
            (section true upgrade_tftp d)
          ≡ some c)
        × IsConfigured retain (tftp_given d).0 (tftp_overlays (tftp_given d).1) c.overlays
  unfolding upgrade_tftp append_legacy_host_overlay
  tftp-IsConfigured none = (_, refl, or_list-IsConfigured retain [] (tftp_overlays []))
  tftp-IsConfigured (some d) =
      (_, refl, or_list-IsConfigured retain d.overlays (tftp_overlays d.systemd_name))

  nfs-IsConfigured :
      (d : Option LegacyNfsConf)
      → (c : NfsConf) × (option_map
            (λ (c : NfsConf). record c { overlays = retained retain c.overlays })
            (section true upgrade_nfs d)
          ≡ some c)
        × IsConfigured retain (nfs_given d).0 (nfs_overlays (nfs_given d).1) c.overlays
  unfolding upgrade_nfs append_legacy_host_overlay
  nfs-IsConfigured none = (_, refl, or_list-IsConfigured retain [] (nfs_overlays []))
  nfs-IsConfigured (some d) =
      (_, refl, or_list-IsConfigured retain d.overlays (nfs_overlays d.systemd_name))

  ssh-IsConfigured :
      (d : Option LegacySshConf)
      → (c : SshConf) × (option_map
            (λ (c : SshConf). record c { overlays = retained retain c.overlays })
            (section true upgrade_ssh d)
          ≡ some c)
        × IsConfigured retain (ssh_given d) (codes "ssh.wwctl" ∷ []) c.overlays
  unfolding upgrade_ssh append_legacy_host_overlay
  ssh-IsConfigured none = (_, refl, or_list-IsConfigured retain [] _)
  ssh-IsConfigured (some d) = (_, refl, or_list-IsConfigured retain d.overlays _)

  hostfile-IsConfigured :
      (d : Option LegacyHostfileConf)
      → (c : HostfileConf) × (option_map
            (λ (c : HostfileConf). record c { overlays = retained retain c.overlays })
            (section true upgrade_hostfile d)
          ≡ some c)
        × IsConfigured retain (hostfile_given d) (codes "hosts" ∷ []) c.overlays
  unfolding upgrade_hostfile append_legacy_host_overlay
  hostfile-IsConfigured none = (_, refl, or_list-IsConfigured retain [] _)
  hostfile-IsConfigured (some d) = (_, refl, or_list-IsConfigured retain d.overlays _)

  -- After an upgrade of a warewulf.conf that is not empty, every service has a section. Its overlays
  -- are those of the old file, or where it names none the recommended ones; where the old host
  -- overlay is retained it is among them, added behind the others if it was not there.
  pub upgrade_config-HasServices :
      (parse_cidr : Text → Option (Text × ℕ)) (legacy : LegacyWarewulfYaml)
      → is_zero legacy ≡ false
      → HasServices retain legacy (upgrade_config parse_cidr retain legacy)
  unfolding upgrade_config
  upgrade_config-HasServices parse_cidr legacy h = rw h (record {
    dhcp = dhcp-IsConfigured legacy.dhcp;
    tftp = tftp-IsConfigured legacy.tftp;
    nfs = nfs-IsConfigured legacy.nfs;
    ssh = ssh-IsConfigured legacy.ssh;
    hostfile = hostfile-IsConfigured legacy.hostfile;
  })
