-- ===== src/Upgrade/Profiles/Tags.antt =====
-- The tags and the iPXE template of an upgraded profile.
use warewulf.Common.{
  ◌≡◌, ◌≢◌, refl, sym, ◌∙◌, ap, subst, Bool, List, [], Option, none, some, arith, inl, inr, ◌⊎◌,
  Bool-cases, Option-cases, if◌then◌else◌,
}
use warewulf.Common.Text.{Text, codes, text_eq, text_eq_iff, contains}
use warewulf.Common.Maps.{Map, lookup, insert, lookup-insert, lookup-insert_self, IsMap}
use warewulf.Node.Types.{Profile, Disk, FileSystem, NetDev}
use warewulf.Upgrade.Types.{LegacyProfile}
use warewulf.Upgrade.Values.{copy_tags, at_pointer, upgrade_all, overlay_names}
use warewulf.Upgrade.Values.Entries.{or_else, bind-some, lookup-copy_tags, lookup-delete_tags}
use warewulf.Upgrade.Devices.{Host, upgrade_disk, upgrade_file_system, upgrade_net_dev}
use warewulf.Upgrade.Profiles.{
  ipxe_menu_entry, old_tags, upgrade_ipxe, profile_with, upgrade_profile,
}

-- A tag of the old file: not deleted, and from the tags or else from the keys.
abbrev pub old_tag : LegacyProfile → Text → Option Text
old_tag legacy k =
    if contains legacy.tags_del k
    then none
    else or_else (lookup k legacy.tags) (lookup k legacy.keys)

or_else-none : (o : Option Text) → or_else o none ≡ o
or_else-none none = refl
or_else-none (some s) = refl

lookup-old_tags :
    (legacy : LegacyProfile) (k : Text)
    → IsMap legacy.keys
    → IsMap legacy.tags
    → lookup k (old_tags legacy) ≡ old_tag legacy k
unfolding old_tags lookup
lookup-old_tags legacy k keys tags =
    lookup-delete_tags k legacy.tags_del (copy_tags legacy.tags (copy_tags legacy.keys []))
    ∙ ap (λ z. if contains legacy.tags_del k then none else z)
        (lookup-copy_tags k legacy.tags (copy_tags legacy.keys []) tags
          ∙ ap (or_else (lookup k legacy.tags))
              (lookup-copy_tags k legacy.keys [] keys ∙ or_else-none (lookup k legacy.keys)))

-- What the iPXE template and the tags are, from those of the old file.
abbrev pub UpgradesIpxe : Text → (Text → Option Text) → Text → Map Text → Type 0
UpgradesIpxe ipxe tag ipxe' tags' =
    ((k : Text) → k ≢ ipxe_menu_entry → lookup k tags' ≡ tag k)
    × (((ipxe ≡ codes "dracut")
          × (tag ipxe_menu_entry ≡ none)
          × (ipxe' ≡ codes "default")
          × (lookup ipxe_menu_entry tags' ≡ some (codes "dracut")))
        ⊎ (((ipxe ≢ codes "dracut") ⊎ (tag ipxe_menu_entry ≢ none))
            × (ipxe' ≡ ipxe)
            × (lookup ipxe_menu_entry tags' ≡ tag ipxe_menu_entry)))

upgrade_ipxe_lem :
    (ipxe : Text) (tags : Map Text)
    → UpgradesIpxe ipxe (λ k. lookup k tags) (upgrade_ipxe ipxe tags).0 (upgrade_ipxe ipxe tags).1
unfolding upgrade_ipxe
upgrade_ipxe_lem ipxe tags = elim (Bool-cases (text_eq ipxe (codes "dracut"))) [
  | inr f ↦
      rw (upgrade_ipxe, f)
        (
          λ k _. refl,
          inr (
            inl (λ q. absurd (ground (arith, f, (text_eq_iff ipxe (codes "dracut")).1 q))),
            refl,
            refl,
          ),
        )
  | inl t ↦ elim (Option-cases (lookup ipxe_menu_entry tags)) [
    | inr (v, e) ↦
        let kept : upgrade_ipxe ipxe tags ≡ (ipxe, tags) = rw (upgrade_ipxe, t, e) refl in
        rw kept (λ k _. refl, inr (inr (λ q. absurd (ground (arith, e, q))), refl, refl))
    | inl e ↦
        let set : upgrade_ipxe ipxe tags
            ≡ (codes "default", insert ipxe_menu_entry (codes "dracut") tags) =
          rw (upgrade_ipxe, t, e) refl in
        rw set (
          λ k apart.
              lookup-insert ipxe_menu_entry k (codes "dracut") tags
              ∙ ground (arith, text_eq_iff ipxe_menu_entry k, apart),
          inl (
            (text_eq_iff ipxe (codes "dracut")).0 t,
            e,
            refl,
            lookup-insert_self ipxe_menu_entry (codes "dracut") tags,
          ),
        )
  ]
]

UpgradesIpxe-tags :
    (ipxe : Text) (tag tag' : Text → Option Text) (ipxe' : Text) (tags' : Map Text)
    → ((k : Text) → tag k ≡ tag' k)
    → UpgradesIpxe ipxe tag ipxe' tags'
    → UpgradesIpxe ipxe tag' ipxe' tags'
UpgradesIpxe-tags ipxe tag tag' ipxe' tags' same (others, entry) = (
  λ k apart. others k apart ∙ same k,
  elim entry [
    | inl (d, e, f, g) ↦ inl (d, sym (same ipxe_menu_entry) ∙ e, f, g)
    | inr (inl d, f, g) ↦ inr (inl d, f, g ∙ same ipxe_menu_entry)
    | inr (inr d, f, g) ↦ inr (inr (λ q. d (same ipxe_menu_entry ∙ q)), f, g ∙ same ipxe_menu_entry)
  ],
)

module _ (host : Host) (add_defaults : Bool) (replace_overlays : Bool)
    (legacy : LegacyProfile) where
  upgrade_profile-built :
      (p : Profile)
      → upgrade_profile host add_defaults replace_overlays legacy ≡ some p
      → (disks : Map Disk) × (file_systems : Map FileSystem) × (net_devs : Map NetDev)
        × (runtime : List Text) × (system : List Text) × (profile_with host replace_overlays legacy
              disks file_systems net_devs runtime system
            ≡ p)
  unfolding upgrade_profile
  upgrade_profile-built p h =
      let (ds, h1) = bind-some (upgrade_all (at_pointer upgrade_disk) legacy.disks) _ p h in
      let (fs, h2) =
        bind-some (upgrade_all (at_pointer upgrade_file_system) legacy.file_systems) _ p h1 in
      let (nets, h3) =
        bind-some
          (upgrade_all (at_pointer (λ dev. some (upgrade_net_dev host add_defaults dev)))
            legacy.net_devs)
          _ p h2 in
      let (rs, h4) = bind-some (overlay_names legacy.runtime_overlay) _ p h3 in
      let (ss, h5) = bind-some (overlay_names legacy.system_overlay) _ p h4 in
      (ds, fs, nets, rs, ss, cc h5)

  -- If the keys and the tags of an old profile are maps, the upgraded one has a tag just as the old
  -- tags, or else the old keys, have it, and `tagsdel` does not name it; but where the iPXE template
  -- was `dracut` and no tag IPXEMenuEntry was there, this tag is `dracut`, and the template
  -- `default`. Otherwise the template is the old one.
  pub upgrade_profile-tags :
      (p : Profile)
      → IsMap legacy.keys
      → IsMap legacy.tags
      → upgrade_profile host add_defaults replace_overlays legacy ≡ some p
      → UpgradesIpxe legacy.ipxe (old_tag legacy) p.ipxe p.tags
  unfolding profile_with
  upgrade_profile-tags p keys tags h =
      let (ds, fs, nets, rs, ss, built) = upgrade_profile-built p h in
      subst (λ z. UpgradesIpxe legacy.ipxe (old_tag legacy) z.ipxe z.tags) built
        (UpgradesIpxe-tags legacy.ipxe (λ k. lookup k (old_tags legacy)) (old_tag legacy)
          (upgrade_ipxe legacy.ipxe (old_tags legacy)).0
          (upgrade_ipxe legacy.ipxe (old_tags legacy)).1 (λ k. lookup-old_tags legacy k keys tags)
          (upgrade_ipxe_lem legacy.ipxe (old_tags legacy)))
