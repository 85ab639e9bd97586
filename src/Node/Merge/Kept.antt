-- ===== src/Node/Merge/Kept.antt =====
-- What `MergeNode` keeps of the merged node after the merge.
use warewulf.Common.{
  ◌≡◌, refl, ◌∙◌, ap, true, List, [], ◌∷◌, none, some, arith, Option-cases, Bool-cases, inl, inr,
}
use warewulf.Common.Text.{Text, text_eq, text_eq_iff}
use warewulf.Common.Maps.{lookup, keys, lookup-insert}
use warewulf.Common.Sort.{sort_texts}
use warewulf.Node.Types.{Profile, Node, NetDev}
use warewulf.Node.Merge.{
  update_primary_net_dev, clean_lists, mark_primary, identified, finish_node, set_ids,
}

pub finish_node-discoverable :
    (id : Text) (original merged : Node)
    → (finish_node id original merged).discoverable ≡ merged.discoverable
unfolding finish_node identified set_ids
finish_node-discoverable id original merged = refl

-- The profile has the device, with this hardware address.
abbrev pub HasAddress : Text → Text → Profile → Type 0
HasAddress name hwaddr p =
    (dev : NetDev) × (lookup name p.net_devs ≡ some dev) × (dev.hwaddr ≡ hwaddr)

mark_primary-HasAddress :
    (name hwaddr first : Text) (dev : NetDev) (p : Profile)
    → lookup first p.net_devs ≡ some dev
    → HasAddress name hwaddr p
    → HasAddress name hwaddr (mark_primary first dev p)
unfolding mark_primary
mark_primary-HasAddress name hwaddr first dev p e (d, f, g) =
    elim (Bool-cases (text_eq first name)) [
      | inl t ↦
          let same : dev ≡ d =
            ground (arith, e, f, ap (λ z. lookup z p.net_devs) ((text_eq_iff first name).0 t)) in
          (
            record dev { primary = true },
            lookup-insert first name (record dev { primary = true }) p.net_devs ∙ rw t refl,
            ap (λ z. z.hwaddr) same ∙ g,
          )
      | inr u ↦ (d, lookup-insert first name (record dev { primary = true }) p.net_devs ∙ rw u f, g)
    ]

update_primary_net_dev-HasAddress :
    (name hwaddr : Text) (p : Profile)
    → HasAddress name hwaddr p
    → HasAddress name hwaddr (update_primary_net_dev p)
unfolding update_primary_net_dev
update_primary_net_dev-HasAddress name hwaddr p h =
    elim (Option-cases (lookup p.primary_net_dev p.net_devs)) [
      | inr (dev, e) ↦
          rw (e, update_primary_net_dev)
            (mark_primary-HasAddress name hwaddr p.primary_net_dev dev p e h)
      | inl e ↦ rw (e, update_primary_net_dev) (go (sort_texts (keys p.net_devs)))
    ]
  where
    chosen : List Text → Profile
    chosen [] = p
    chosen (first ∷ _) = elim (lookup first p.net_devs) [
      | none ↦ p
      | some dev ↦ mark_primary first dev p
    ]

    go : (ks : List Text) → HasAddress name hwaddr (chosen ks)
    go [] = h
    go (k ∷ ks) = elim (Option-cases (lookup k p.net_devs)) [
      | inl f ↦ rw (f, chosen) h
      | inr (dev, f) ↦ rw (f, chosen) (mark_primary-HasAddress name hwaddr k dev p f h)
    ]

pub finish_node-HasAddress :
    (id name hwaddr : Text) (original merged : Node)
    → HasAddress name hwaddr merged.profile
    → HasAddress name hwaddr (finish_node id original merged).profile
unfolding finish_node clean_lists identified set_ids
finish_node-HasAddress id name hwaddr original merged h =
    update_primary_net_dev-HasAddress name hwaddr (identified id original merged).profile h
