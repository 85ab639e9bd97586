-- ===== src/Warewulfd/Discovery/Again.antt =====
-- What `GetOrDiscoverNode` answers after a discovery.
use warewulf.Common.{
  In, ◌≡◌, refl, sym, ◌∙◌, ap, subst, Bool, true, false, [], Option, none, some, arith, inl, inr,
  Bool-cases, Option-cases, if◌then◌else◌,
}
use warewulf.Common.Text.{Text, codes, to_lower}
use warewulf.Common.Maps.{lookup, keys, IsMap, lookup-some-In, lookup-In-keys}
use warewulf.Common.Results.{Result, ok}
use warewulf.Node.Types.{Profile, Node, NodesYaml}
use warewulf.Node.Lists.{is_unset_value}
use warewulf.Node.Merge.Composed.{Merged, merge_node-Merged}
use warewulf.Node.Merge.Kept.{HasAddress, finish_node-discoverable, finish_node-HasAddress}
use warewulf.Warewulfd.NodeDb.{NodeDb, wwbool, get_node}
use warewulf.Warewulfd.NodeDb.Discoverable.{find_discoverable_node}
use warewulf.Warewulfd.NodeDb.Found.{
  Answers, get_node-found, get_node-missing, load_node_db-GetsNode,
}
use warewulf.Warewulfd.Access.{configured}
use warewulf.Warewulfd.Discovery.{answer, configure, discover, get_or_discover_node}
use warewulf.Warewulfd.Discovery.Known.{HasLaws}
use warewulf.Warewulfd.Discovery.Configured.{Configured, configure-Configured}

is_unset_undef : is_unset_value (codes "UNDEF") ≡ true
unfolding is_unset_value
is_unset_undef = refl

unset_wwbool : (s : Text) → s ≡ [] → wwbool s ≡ false
unfolding wwbool
unset_wwbool s e = rw e refl

module _ (merge_profile : Profile → Profile → Result Profile)
    (merge_own : Node → Node → Result Node) (parse_mac : Text → Bool)
    (persist : NodesYaml → NodesYaml × Option Text)
    (read_back : NodesYaml → NodesYaml × Option Text)
    (laws : HasLaws merge_own parse_mac persist read_back) (hwaddr : Text)
    (lower : to_lower hwaddr ≡ hwaddr) where
  -- The node that is composed of the registry read back answers to the address.
  Configured-Answers :
      (id netdev : Text) (n : Node) (db' : NodeDb)
      → parse_mac hwaddr ≡ true
      → Configured merge_profile merge_own parse_mac persist read_back hwaddr id netdev n db'
      → Answers hwaddr n × In id (keys db'.yml.nodes)
  Configured-Answers id netdev n db' mac c =
      let (some_address, set_address) = laws.address hwaddr mac in
      let stored =
        laws.stored c.config c.written c.read c.persisted c.read_again id c.node c.there in
      let (m, found, unset, addresses) = stored in
      let (dev, at, q) = c.address in
      let (dev', at', q') = addresses netdev dev at (ap is_unset_value q ∙ set_address) in
      let composed : Merged merge_profile merge_own c.read id n =
        merge_node-Merged merge_profile merge_own c.read id n c.merged in
      let original : composed.original ≡ m = cc (sym composed.found ∙ found) in
      let empty : n.discoverable ≡ [] =
        sym (ap (λ z. z.discoverable) composed.finished)
        ∙ finish_node-discoverable id composed.original composed.merged
        ∙ laws.own_discoverable composed.profile composed.original composed.merged composed.own
        ∙ ap (λ z. z.discoverable) original
        ∙ unset
        ∙ ap (λ (z : Text). if is_unset_value z then [] else z) c.discoverable
        ∙ rw is_unset_undef refl in
      let own_dev : lookup netdev composed.original.profile.net_devs ≡ some dev' =
        ap (λ z. lookup netdev z.profile.net_devs) original ∙ at' in
      let named : dev'.hwaddr ≡ hwaddr = q' ∙ q in
      let (dev'', at'', q'') : HasAddress netdev dev'.hwaddr n.profile =
        subst (λ z. HasAddress netdev dev'.hwaddr z.profile) composed.finished
          (finish_node-HasAddress id netdev dev'.hwaddr composed.original composed.merged (
            laws.own_address composed.profile composed.original composed.merged netdev dev'
              composed.own own_dev (λ e. some_address (sym named ∙ e)))) in
      (
        (
          unset_wwbool n.discoverable empty,
          (
            netdev,
            dev'',
            lookup-some-In netdev dev'' n.profile.net_devs at'',
            ap to_lower (q'' ∙ named) ∙ lower,
          ),
        ),
        lookup-In-keys id db'.yml.nodes
            (λ e. absurd (ground (arith, ap (λ z. lookup id z.nodes) c.yml, e, found))),
      )

  -- A known address is looked up, and nothing changes.
  get_or_discover_node-known :
      (db : NodeDb) (m : Node)
      → get_node merge_profile merge_own hwaddr db ≡ ok m
      → get_or_discover_node merge_profile merge_own parse_mac persist read_back hwaddr db
        ≡ (configured m, db)
  unfolding get_or_discover_node
  get_or_discover_node-known db m h = elim (Option-cases (lookup hwaddr db.node_info)) [
    | inl e ↦ absurd (ground (arith, get_node-missing merge_profile merge_own hwaddr db e, h))
    | inr (id, e) ↦
        rw (get_or_discover_node, e)
          (ap (λ z. (answer z, db))
            (sym (get_node-found merge_profile merge_own hwaddr id db e) ∙ h))
  ]

  Configured-known :
      (id netdev : Text) (n : Node) (db' : NodeDb)
      → parse_mac hwaddr ≡ true
      → Configured merge_profile merge_own parse_mac persist read_back hwaddr id netdev n db'
      → (m : Node) × (get_node merge_profile merge_own hwaddr db' ≡ ok m) × Answers hwaddr m
  Configured-known id netdev n db' mac c =
      let (answers, there) = Configured-Answers id netdev n db' mac c in
      elim (load_node_db-GetsNode merge_profile merge_own c.read none c.before db' none
        c.loaded).1 [
          | inr (e, _) ↦ absurd (e refl)
          | inl (_, _, gets) ↦ elim (gets hwaddr) [
            | inl found ↦ found
            | inr (_, nobody) ↦
                absurd
                  (nobody id n (subst (λ z. In id (keys z.nodes)) c.yml there) c.merged answers)
          ]
        ]

  -- A call of GetOrDiscoverNode with an unknown address in lower case that gives a node without an
  -- error has configured one: GetNode then finds a node that is not discoverable and has a device
  -- with the address, and asking again gives this node and changes nothing. The maps of devices
  -- hold a name once, and mergo, net.ParseMAC and the file do what is documented of them.
  pub get_or_discover_node-configures :
      (db db' : NodeDb) (n : Node)
      → ((k : Text) (m : Node) → lookup k db.yml.nodes ≡ some m → IsMap m.profile.net_devs)
      → lookup hwaddr db.node_info ≡ none
      → get_or_discover_node merge_profile merge_own parse_mac persist read_back hwaddr db
        ≡ (configured n, db')
      → (m : Node) × (get_node merge_profile merge_own hwaddr db' ≡ ok m)
        × Answers hwaddr m
        × (get_or_discover_node merge_profile merge_own parse_mac persist read_back hwaddr db'
            ≡ (configured m, db'))
  unfolding get_or_discover_node discover
  get_or_discover_node-configures db db' n maps unknown h = elim (Bool-cases (parse_mac hwaddr)) [
    | inr f ↦ absurd (ground (arith, unknown, f, h))
    | inl t ↦ elim (Option-cases (find_discoverable_node merge_profile merge_own db.yml)) [
      | inl e ↦ absurd (ground (arith, unknown, t, e, h))
      | inr ((found, netdev), e) ↦
          let step : get_or_discover_node merge_profile merge_own parse_mac persist read_back hwaddr
                db
              ≡ configure merge_profile merge_own parse_mac persist read_back hwaddr found.id netdev
                  db =
            rw (get_or_discover_node, unknown, t, discover, e) refl in
          let c =
            configure-Configured merge_profile merge_own parse_mac persist read_back laws hwaddr
              found.id netdev db n db' maps (sym step ∙ h) in
          let (m, gets, answers) = Configured-known found.id netdev n db' t c in
          (m, gets, answers, get_or_discover_node-known db' m gets)
    ]
  ]
