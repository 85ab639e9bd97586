-- ===== src/Upgrade/Profiles/Readable.antt =====
-- Which profiles an upgrade panics on: those with a null in a map, or a list that holds something
-- other than strings.
use warewulf.Common.{
  ◌≡◌, ◌≢◌, refl, sym, ◌∙◌, ap, Bool, false, List, [], ◌∷◌, Option, none, some, inl, inr, ◌⊎◌, ◌↔◌,
  In, Option-cases,
}
use warewulf.Common.Text.{Text, codes, join}
use warewulf.Common.Maps.{Map}
use warewulf.Node.Types.{Profile}
use warewulf.Upgrade.Types.{
  Element, string, scalar, nested, Value, absent, text, elements, other, LegacyFileSystem,
  LegacyDisk, LegacyProfile, LegacyNode,
}
use warewulf.Upgrade.Values.{strings, overlay_names, mount_option_text, at_pointer, upgrade_all}
use warewulf.Upgrade.Values.Entries.{bind-none, bind-none_last, HoldsNullOr, upgrade_all_iff}
use warewulf.Upgrade.Devices.{
  Host, file_system_with, upgrade_file_system, upgrade_partition, upgrade_disk, upgrade_net_dev,
}
use warewulf.Upgrade.Profiles.{node_with, upgrade_profile, upgrade_node}

abbrev pub IsNoString : Element → Type 0
IsNoString (string _) = ⊥
IsNoString (scalar _) = Unit
IsNoString nested = Unit

-- A list with an element that is no string.
abbrev pub HoldsOther : Value → Type 0
HoldsOther absent = ⊥
HoldsOther (text _) = ⊥
HoldsOther (elements es) = (e : Element) × In e es × IsNoString e
HoldsOther other = ⊥

strings-cases :
    (es : List Element)
    → ((ss : List Text) × (strings es ≡ some ss) × (¬ HoldsOther (elements es)))
      ⊎ ((strings es ≡ none) × HoldsOther (elements es))
unfolding strings
strings-cases [] = inl ([], refl, λ (e, i, h). i)
strings-cases (scalar s ∷ es) = inr (refl, (scalar s, inl refl, tt))
strings-cases (nested ∷ es) = inr (refl, (nested, inl refl, tt))
strings-cases (string s ∷ es) = elim (strings-cases es) [
  | inr (e, (x, i, h)) ↦ inr (rw (strings, e) refl, (x, inr i, h))
  | inl (ss, e, calm) ↦ inl (
    s ∷ ss,
    rw (strings, e) refl,
    λ (x, i, h). elim i [ inl q ↦ absurd (is_string x (sym q) h) | inr j ↦ calm (x, j, h) ],
  )
]
  where
    is_string : (x : Element) → x ≡ string s → ¬ IsNoString x
    is_string (string _) q h = h
    is_string (scalar _) q h = cc
    is_string nested q h = cc

overlay_names-cases :
    (v : Value)
    → ((ss : List Text) × (overlay_names v ≡ some ss) × (¬ HoldsOther v))
      ⊎ ((overlay_names v ≡ none) × HoldsOther v)
unfolding overlay_names
overlay_names-cases absent = inl ([], refl, λ h. h)
overlay_names-cases (text s) = inl (_, refl, λ h. h)
overlay_names-cases (elements es) = strings-cases es
overlay_names-cases other = inl ([], refl, λ h. h)

mount_option_text-cases :
    (v : Value)
    → ((s : Text) × (mount_option_text v ≡ some s) × (¬ HoldsOther v))
      ⊎ ((mount_option_text v ≡ none) × HoldsOther v)
unfolding mount_option_text
mount_option_text-cases absent = inl ([], refl, λ h. h)
mount_option_text-cases (text s) = inl (s, refl, λ h. h)
mount_option_text-cases other = inl ([], refl, λ h. h)
mount_option_text-cases (elements es) = elim (strings-cases es) [
  | inr (e, h) ↦ inr (rw (mount_option_text, e) refl, h)
  | inl (ss, e, calm) ↦ inl (join ss (codes " "), rw (mount_option_text, e) refl, calm)
]

some-ne-none : {A : Type 0} {o : Option A} {a : A} → o ≡ some a → o ≢ none
some-ne-none e q = cc

upgrade_file_system_iff :
    (f : LegacyFileSystem) → (upgrade_file_system f ≡ none) ↔ HoldsOther f.mount_options
unfolding upgrade_file_system
upgrade_file_system_iff f = elim (mount_option_text-cases f.mount_options) [
  | inr (e, h) ↦ (λ _. h, λ _. rw (upgrade_file_system, e) refl)
  | inl (s, e, calm) ↦
      let done : upgrade_file_system f ≡ some (file_system_with f s) =
        rw (upgrade_file_system, e) refl in
      (λ q. absurd (some-ne-none done q), λ h. absurd (calm h))
]

abbrev pub HasNull : {A : Type 0} → Map (Option A) → Type 0
HasNull = HoldsNullOr (λ _. ⊥)

-- An upgrade that always gives a result panics just on a pointer that is nil.
upgrade_all-HasNull :
    {A B : Type 0} (upgrade : A → B) (m : Map (Option A))
    → (upgrade_all (at_pointer (λ a. some (upgrade a))) m ≡ none) ↔ HasNull m
upgrade_all-HasNull upgrade =
    upgrade_all_iff (λ a. some (upgrade a)) (λ _. ⊥) (λ a. (λ h. cc, λ f. absurd f))

upgrade_disk_iff : (d : LegacyDisk) → (upgrade_disk d ≡ none) ↔ HasNull d.partitions
unfolding upgrade_disk
upgrade_disk_iff d =
    bind-none_last (upgrade_all (at_pointer (λ p. some (upgrade_partition p))) d.partitions) _
      (upgrade_all-HasNull upgrade_partition d.partitions)

overlay_names_iff : (v : Value) → (overlay_names v ≡ none) ↔ HoldsOther v
overlay_names_iff v = elim (overlay_names-cases v) [
  | inr (e, h) ↦ (λ _. h, λ _. e)
  | inl (ss, e, calm) ↦ (λ q. absurd (some-ne-none e q), λ h. absurd (calm h))
]

-- The profile has a null disk, partition, file system or device, or a list of overlays or of mount
-- options that holds something other than strings.
abbrev pub IsUnreadable : LegacyProfile → Type 0
IsUnreadable p =
    HoldsNullOr (λ d. HasNull d.partitions) p.disks
    ⊎ (HoldsNullOr (λ f. HoldsOther f.mount_options) p.file_systems
        ⊎ (HasNull p.net_devs ⊎ (HoldsOther p.runtime_overlay ⊎ HoldsOther p.system_overlay)))

module _ (host : Host) (add_defaults : Bool) (replace_overlays : Bool) where
  pub upgrade_profile_iff :
      (p : LegacyProfile)
      → (upgrade_profile host add_defaults replace_overlays p ≡ none) ↔ IsUnreadable p
  unfolding upgrade_profile
  upgrade_profile_iff p =
      bind-none (upgrade_all (at_pointer upgrade_disk) p.disks) _
        (upgrade_all_iff upgrade_disk _ upgrade_disk_iff p.disks)
        (λ ds.
          bind-none (upgrade_all (at_pointer upgrade_file_system) p.file_systems) _
            (upgrade_all_iff upgrade_file_system _ upgrade_file_system_iff p.file_systems)
            (λ fs.
              bind-none _ _ (upgrade_all-HasNull (upgrade_net_dev host add_defaults) p.net_devs)
                (λ nets.
                  bind-none (overlay_names p.runtime_overlay) _
                    (overlay_names_iff p.runtime_overlay)
                    (λ runtime.
                      bind-none_last (overlay_names p.system_overlay) _
                        (overlay_names_iff p.system_overlay)))))

  not_node : (n : LegacyNode) (p : Profile) → node_with host add_defaults n (some p) ≢ none
  not_node n p q = cc

  pub upgrade_node_iff :
      (n : LegacyNode)
      → (upgrade_node host add_defaults replace_overlays n ≡ none)
        ↔ (upgrade_profile host false replace_overlays n.profile ≡ none)
  unfolding upgrade_node
  upgrade_node_iff n = elim (Option-cases (upgrade_profile host false replace_overlays n.profile)) [
    | inl e ↦ (λ _. e, λ _. rw (upgrade_node, e) refl)
    | inr (p, e) ↦ (
      λ q. absurd (not_node n p (ap (node_with host add_defaults n) (sym e) ∙ q)),
      λ q. absurd (some-ne-none e q),
    )
  ]
