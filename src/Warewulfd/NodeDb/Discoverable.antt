-- ===== src/Warewulfd/NodeDb/Discoverable.antt =====
-- internal/pkg/node/constructors.go: `FindDiscoverableNode`, which discovery calls. An error of
-- `FindAllNodes` is ignored there, and the nodes found before it are used.
use warewulf.Common.{
  ◌≡◌, ◌≢◌, refl, sym, ◌∙◌, ap, true, not, List, [], ◌∷◌, Option, none, some, if◌then◌else◌, arith,
  inl, inr, ◌⊎◌, In, Bool-cases, Option-cases,
}
use warewulf.Common.Text.{Text, text_eq}
use warewulf.Common.Maps.{Map, lookup, In-lookup}
use warewulf.Common.Results.{Result}
use warewulf.Node.Types.{Profile, Node, NodesYaml, NetDev}
use warewulf.Node.Groups.{find_all_nodes}
use warewulf.Warewulfd.NodeDb.{wwbool}

-- `for netdev, dev := range node.NetDevs`
unfoldable pub first_with_hwaddr : Map NetDev → Option Text
unfolding text_eq
first_with_hwaddr [] = none
first_with_hwaddr ((name, dev) ∷ devs) =
    if not (text_eq dev.hwaddr []) then some name else first_with_hwaddr devs

-- The device that is found for a discoverable node.
unfoldable pub device_for : Node → Option Text
unfolding lookup first_with_hwaddr
device_for node = elim (lookup node.profile.primary_net_dev node.profile.net_devs) [
  | some _ ↦ some node.profile.primary_net_dev
  | none ↦ first_with_hwaddr node.profile.net_devs
]

-- The loop over the nodes; `none` is `ErrNoUnconfigured`.
unfoldable pub first_discoverable : List Node → Option (Node × Text)
unfolding wwbool device_for
first_discoverable [] = none
first_discoverable (node ∷ nodes) =
    let rest = first_discoverable nodes in
    if not (wwbool node.discoverable)
    then rest
    else elim (device_for node) [ none ↦ rest | some name ↦ some (node, name) ]

-- The node has the device, and it is the primary one where the node has that.
abbrev pub IsChosen : Node → Text → Type 0
IsChosen node name =
    (lookup name node.profile.net_devs ≢ none)
    × (lookup node.profile.primary_net_dev node.profile.net_devs ≢ none
        → name ≡ node.profile.primary_net_dev)

first_with_hwaddr-cases :
    (devs : Map NetDev)
    → ((name : Text) × (first_with_hwaddr devs ≡ some name) × (lookup name devs ≢ none))
      ⊎ (first_with_hwaddr devs ≡ none)
unfolding first_with_hwaddr lookup
first_with_hwaddr-cases [] = inr refl
first_with_hwaddr-cases ((name, dev) ∷ devs) = elim (Bool-cases (text_eq dev.hwaddr [])) [
  | inr f ↦ inl (name, rw f refl, In-lookup name dev ((name, dev) ∷ devs) (inl refl))
  | inl t ↦ elim (first_with_hwaddr-cases devs) [
    | inl (n, e, there) ↦ inl (
      n,
      rw t e,
      elim (Bool-cases (text_eq name n)) [ inl s ↦ rw s (λ q. cc) | inr s ↦ rw s there ],
    )
    | inr e ↦ inr (rw t e)
  ]
]

device_for-cases :
    (node : Node)
    → ((name : Text) × (device_for node ≡ some name) × IsChosen node name)
      ⊎ ((device_for node ≡ none)
          × (lookup node.profile.primary_net_dev node.profile.net_devs ≡ none))
unfolding device_for
device_for-cases node =
    elim (Option-cases (lookup node.profile.primary_net_dev node.profile.net_devs)) [
      | inr (dev, e) ↦ inl (
        node.profile.primary_net_dev,
        rw (device_for, e) refl,
        (λ q. absurd (ground (arith, e, q)), λ _. refl),
      )
      | inl e ↦ elim (first_with_hwaddr-cases node.profile.net_devs) [
        | inl (name, f, there) ↦ inl (name, rw (device_for, e) f, (there, λ q. absurd (q e)))
        | inr f ↦ inr (rw (device_for, e) f, e)
      ]
    ]

-- A node is found, with a device for it, or no discoverable node has its primary device.
abbrev pub FindsDiscoverable : List Node → Option (Node × Text) → Type 0
FindsDiscoverable nodes found =
    ((node : Node) × (name : Text) × (found ≡ some (node, name))
      × In node nodes
      × (wwbool node.discoverable ≡ true)
      × IsChosen node name)
    ⊎ ((found ≡ none)
        × ((node : Node)
            → In node nodes
            → wwbool node.discoverable ≡ true
            → lookup node.profile.primary_net_dev node.profile.net_devs ≡ none))

first_discoverable-Finds : (nodes : List Node) → FindsDiscoverable nodes (first_discoverable nodes)
unfolding first_discoverable
first_discoverable-Finds [] = inr (refl, λ node i. absurd i)
first_discoverable-Finds (node ∷ nodes) = elim (Bool-cases (wwbool node.discoverable)) [
  | inr f ↦ elim (first_discoverable-Finds nodes) [
    | inl (n, name, e, i, d, c) ↦ inl (n, name, rw f e, inr i, d, c)
    | inr (e, absent) ↦ inr (
      rw f e,
      λ n i d. elim i [
        | inl q ↦ absurd (ground (arith, f, d, ap (λ z. wwbool z.discoverable) q))
        | inr j ↦ absent n j d
      ],
    )
  ]
  | inl t ↦ elim (device_for-cases node) [
    | inl (name, e, c) ↦ inl (node, name, rw (t, e) refl, inl refl, t, c)
    | inr (e, missing) ↦ elim (first_discoverable-Finds nodes) [
      | inl (n, name, g, i, d, c) ↦ inl (n, name, rw (t, e) g, inr i, d, c)
      | inr (g, absent) ↦ inr (
        rw (t, e) g,
        λ n i d. elim i [
          | inl q ↦ ap (λ z. lookup z.profile.primary_net_dev z.profile.net_devs) (sym q) ∙ missing
          | inr j ↦ absent n j d
        ],
      )
    ]
  ]
]

module _ (merge_profile : Profile → Profile → Result Profile)
    (merge_own : Node → Node → Result Node) (config : NodesYaml) where
  -- `FindDiscoverableNode`
  unfoldable pub find_discoverable_node : Option (Node × Text)
  unfolding find_all_nodes first_discoverable
  find_discoverable_node = first_discoverable (find_all_nodes merge_profile merge_own config []).0

  -- `FindDiscoverableNode` gives a discoverable node that `FindAllNodes` finds, with a device that the
  -- node has, which is its primary one where it has that; or an error, and then no discoverable node
  -- that is found has its primary device.
  pub find_discoverable_node-Finds :
      FindsDiscoverable (find_all_nodes merge_profile merge_own config []).0 find_discoverable_node
  unfolding find_discoverable_node
  find_discoverable_node-Finds =
      first_discoverable-Finds (find_all_nodes merge_profile merge_own config []).0
