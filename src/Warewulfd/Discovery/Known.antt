-- ===== src/Warewulfd/Discovery/Known.antt =====
-- What is found of a node after its discovery.
use warewulf.Common.{
  ◌≡◌, ◌≢◌, refl, ◌∙◌, ap, Bool, true, false, [], Option, none, some, inl, inr, Option-cases,
  if◌then◌else◌,
}
use warewulf.Common.Text.{Text, codes}
use warewulf.Common.Maps.{Map, lookup, IsMap, insert-IsMap, lookup-insert_self}
use warewulf.Common.Results.{Result, ok}
use warewulf.Node.Types.{Profile, Node, NodesYaml, NetDev}
use warewulf.Node.Lists.{is_unset_value}
use warewulf.Node.Registry.{no_node}
use warewulf.Node.Merge.Kept.{HasAddress}
use warewulf.Node.Changes.{sent_net_dev, received_node}
use warewulf.Node.Changes.Received.{sent_or, lookup-received_map}
use warewulf.Warewulfd.Discovery.{change_devices, node_changes}

-- The registry read back has each node, with its devices that have an address; a setting that reads
-- as unset is empty.
abbrev pub Stores : NodesYaml → NodesYaml → Type 0
Stores written read =
    (id : Text) (n : Node)
    → lookup id written.nodes ≡ some n
    → (n' : Node) × (lookup id read.nodes ≡ some n')
      × (n'.discoverable ≡ (if is_unset_value n.discoverable then [] else n.discoverable))
      × ((name : Text) (dev : NetDev)
          → lookup name n.profile.net_devs ≡ some dev
          → is_unset_value dev.hwaddr ≡ false
          → HasAddress name dev.hwaddr n'.profile)

-- What is documented of mergo with its override, of net.ParseMAC, and of writing a registry and
-- reading it back.
pub record HasLaws (merge_own : Node → Node → Result Node) (parse_mac : Text → Bool)
    (persist : NodesYaml → NodesYaml × Option Text)
    (read_back : NodesYaml → NodesYaml × Option Text) : Type 0 where
  pub own_discoverable :
      (p : Profile) (original merged : Node)
      → merge_own (record no_node { profile = p }) original ≡ ok merged
      → merged.discoverable ≡ original.discoverable
  pub own_address :
      (p : Profile) (original merged : Node) (name : Text) (dev : NetDev)
      → merge_own (record no_node { profile = p }) original ≡ ok merged
      → lookup name original.profile.net_devs ≡ some dev
      → dev.hwaddr ≢ []
      → HasAddress name dev.hwaddr merged.profile
  pub address : (s : Text) → parse_mac s ≡ true → (s ≢ []) × (is_unset_value s ≡ false)
  pub stored :
      (config written read : NodesYaml)
      → persist config ≡ (written, none)
      → read_back written ≡ (read, none)
      → Stores config read

module _ (netdev hwaddr : Text) where
  -- The device of the changes.
  change_devices-HasAddress :
      (devs : Map NetDev)
      → IsMap devs
      → IsMap (change_devices netdev hwaddr devs)
        × ((dev : NetDev) × (lookup netdev (change_devices netdev hwaddr devs) ≡ some dev)
            × (dev.hwaddr ≡ hwaddr))
  unfolding change_devices
  change_devices-HasAddress devs h = elim (Option-cases (lookup netdev devs)) [
    | inl e ↦
        rw (change_devices, e)
          (unfold lookup in ((refl, tt), (_, lookup-insert_self netdev _ [], refl)))
    | inr (dev, e) ↦
        rw (change_devices, e)
          (
            insert-IsMap netdev (record dev { hwaddr = hwaddr }) devs h,
            (_, lookup-insert_self netdev (record dev { hwaddr = hwaddr }) devs, refl),
          )
  ]

  -- What the changed node is in the registry: discoverable no more, and with the address.
  pub received_node-HasAddress :
      (n old : Node)
      → IsMap n.profile.net_devs
      → ((received_node (node_changes netdev hwaddr n) old).discoverable ≡ codes "UNDEF")
        × HasAddress netdev hwaddr (received_node (node_changes netdev hwaddr n) old).profile
  unfolding received_node node_changes
  received_node-HasAddress n old h =
      let (valid, (dev, e, q)) = change_devices-HasAddress n.profile.net_devs h in
      (
        refl,
        (
          sent_net_dev dev,
          lookup-received_map sent_net_dev netdev (change_devices netdev hwaddr n.profile.net_devs)
                old.profile.net_devs valid
              ∙ ap (λ z. sent_or sent_net_dev z (lookup netdev old.profile.net_devs)) e,
          (unfold sent_net_dev in refl) ∙ q,
        ),
      )
