-- ===== src/Warewulfd/NodeDb/Found.antt =====
-- Which node `GetNode` gives after a load.
use warewulf.Common.{
  ◌≡◌, ◌≢◌, ◌↔◌, ◌++◌, refl, sym, ◌∙◌, ap, subst, true, false, List, [], ◌∷◌, Option, none, some,
  arith, inl, inr, ◌⊎◌, In, Bool-cases, Option-cases,
}
use warewulf.Common.Text.{Text, codes, text_eq, text_eq_iff, to_lower}
use warewulf.Common.Maps.{Map, lookup, insert, lookup-insert, keys}
use warewulf.Common.Results.{Result, ok, err}
use warewulf.Node.Types.{Profile, Node, NodesYaml, NetDev}
use warewulf.Node.Merge.{merge_node}
use warewulf.Node.Merge.Composed.{merge_node_lem}
use warewulf.Node.Groups.Found.{Stands, find_all_nodes_lem}
use warewulf.Node.Groups.{find_all_nodes}
use warewulf.Warewulfd.NodeDb.{
  NodeDb, wwbool, add_devices, add_nodes, set_node_info, load_node_db, get_node,
}

-- Some device has the hardware address, in lower case.
abbrev pub HasDevice : Text → Map NetDev → Type 0
HasDevice h devs = (name : Text) × (dev : NetDev) × In (name, dev) devs × (to_lower dev.hwaddr ≡ h)

-- The node can be found by the hardware address.
abbrev pub Answers : Text → Node → Type 0
Answers h n = (wwbool n.discoverable ≡ false) × HasDevice h n.profile.net_devs

add_devices_sound :
    (h id x : Text) (devs : Map NetDev) (info : Map Text)
    → lookup h (add_devices id devs info) ≡ some x
    → ((x ≡ id) × HasDevice h devs) ⊎ (lookup h info ≡ some x)
unfolding add_devices
add_devices_sound h id x [] info e = inr e
add_devices_sound h id x ((name, dev) ∷ devs) info e =
    elim (add_devices_sound h id x devs (insert (to_lower dev.hwaddr) id info) e) [
      | inl (q, (n, d, i, f)) ↦ inl (q, (n, d, inr i, f))
      | inr f ↦ elim (Bool-cases (text_eq (to_lower dev.hwaddr) h)) [
        | inl t ↦ inl (
          ground (arith, f, t, lookup-insert (to_lower dev.hwaddr) h id info),
          (name, dev, inl refl, (text_eq_iff (to_lower dev.hwaddr) h).0 t),
        )
        | inr t ↦ inr (ground (arith, f, t, lookup-insert (to_lower dev.hwaddr) h id info))
      ]
    ]

add_devices_kept :
    (h id : Text) (devs : Map NetDev) (info : Map Text)
    → (HasDevice h devs ⊎ (lookup h info ≢ none))
    → lookup h (add_devices id devs info) ≢ none
unfolding add_devices
add_devices_kept h id [] info (inl (n, d, i, e)) = absurd i
add_devices_kept h id [] info (inr f) = f
add_devices_kept h id ((name, dev) ∷ devs) info c =
    add_devices_kept h id devs (insert (to_lower dev.hwaddr) id info) (elim c [
      | inl (n, d, inl q, e) ↦
          let same : dev ≡ d = ap (λ z. z.1) q in
          let here : text_eq (to_lower dev.hwaddr) h ≡ true =
            (text_eq_iff (to_lower dev.hwaddr) h).1 (ap (λ z. to_lower z.hwaddr) same ∙ e) in
          inr (λ f. absurd (ground (arith, f, here, lookup-insert (to_lower dev.hwaddr) h id info)))
      | inl (n, d, inr i, e) ↦ inl (n, d, i, e)
      | inr f ↦
          inr (λ g. absurd (f (ground (arith, g, lookup-insert (to_lower dev.hwaddr) h id info))))
    ])

add_nodes_sound :
    (h x : Text) (nodes : List Node) (info : Map Text)
    → lookup h (add_nodes nodes info) ≡ some x
    → ((n : Node) × In n nodes × (x ≡ n.id) × Answers h n) ⊎ (lookup h info ≡ some x)
unfolding add_nodes
add_nodes_sound h x [] info e = inr e
add_nodes_sound h x (n ∷ nodes) info e = elim (Bool-cases (wwbool n.discoverable)) [
  | inl d ↦ elim (add_nodes_sound h x nodes info (rw d at e)) [
    | inl (m, i, q, a) ↦ inl (m, inr i, q, a)
    | inr f ↦ inr f
  ]
  | inr d ↦
      elim (add_nodes_sound h x nodes (add_devices n.id n.profile.net_devs info) (rw d at e)) [
        | inl (m, i, q, a) ↦ inl (m, inr i, q, a)
        | inr f ↦ elim (add_devices_sound h n.id x n.profile.net_devs info f) [
          | inl (q, dev) ↦ inl (n, inl refl, q, (d, dev))
          | inr g ↦ inr g
        ]
      ]
]

add_nodes_kept :
    (h : Text) (nodes : List Node) (info : Map Text)
    → (((n : Node) × In n nodes × Answers h n) ⊎ (lookup h info ≢ none))
    → lookup h (add_nodes nodes info) ≢ none
unfolding add_nodes
add_nodes_kept h [] info (inl (n, i, a)) = absurd i
add_nodes_kept h [] info (inr f) = f
add_nodes_kept h (n ∷ nodes) info c = elim (Bool-cases (wwbool n.discoverable)) [
  | inl d ↦ rw d (
      add_nodes_kept h nodes info (elim c [
        | inl (m, inl q, a) ↦
            let there : wwbool m.discoverable ≡ true =
              subst (λ z. wwbool z.discoverable ≡ true) q d in
            absurd (ground (arith, there, a.0))
        | inl (m, inr i, a) ↦ inl (m, i, a)
        | inr f ↦ inr f
      ]))
  | inr d ↦ rw d (
      add_nodes_kept h nodes (add_devices n.id n.profile.net_devs info) (elim c [
        | inl (m, inl q, a) ↦ inr (
            add_devices_kept h n.id n.profile.net_devs info
              (inl (subst (λ z. HasDevice h z.profile.net_devs) (sym q) a.1)))
        | inl (m, inr i, a) ↦ inl (m, i, a)
        | inr f ↦ inr (add_devices_kept h n.id n.profile.net_devs info (inr f))
      ]))
]

module _ (merge_profile : Profile → Profile → Result Profile)
    (merge_own : Node → Node → Result Node) where
  -- What `GetNode` gives by a hardware address: a node that answers to it, or an error where no
  -- node of the registry does.
  abbrev pub GetsNode : NodesYaml → NodeDb → Text → Type 0
  GetsNode yml db h =
      ((n : Node) × (get_node merge_profile merge_own h db ≡ ok n) × Answers h n)
      ⊎ ((get_node merge_profile merge_own h db ≡ err (codes "no node configured for hwaddr " ++ h))
          × ((id : Text) (n : Node)
              → In id (keys yml.nodes)
              → merge_node merge_profile merge_own yml id ≡ ok n
              → ¬ Answers h n))

  pub get_node-found :
      (h id : Text) (db : NodeDb)
      → lookup h db.node_info ≡ some id
      → get_node merge_profile merge_own h db ≡ merge_node merge_profile merge_own db.yml id
  unfolding get_node
  get_node-found h id db e = rw (get_node, e) refl

  pub get_node-missing :
      (h : Text) (db : NodeDb)
      → lookup h db.node_info ≡ none
      → get_node merge_profile merge_own h db ≡ err (codes "no node configured for hwaddr " ++ h)
  unfolding get_node
  get_node-missing h db e = rw (get_node, e) refl

  -- The node database that a load gives when it finds these nodes.
  abbrev loaded : NodesYaml → List Node → NodeDb
  loaded yml nodes = record { node_info = add_nodes nodes []; yml = yml }

  loaded-GetsNode :
      (yml : NodesYaml) (nodes : List Node) (h : Text)
      → ((n : Node) → In n nodes ↔ Stands merge_profile merge_own yml (keys yml.nodes) n)
      → GetsNode yml (loaded yml nodes) h
  loaded-GetsNode yml nodes h exact = elim (Option-cases (lookup h (add_nodes nodes []))) [
    | inl e ↦ inr (
      get_node-missing h (loaded yml nodes) e,
      λ id n i m a. add_nodes_kept h nodes [] (inl (n, (exact n).1 (id, i, m), a)) e,
    )
    | inr (x, e) ↦ elim (add_nodes_sound h x nodes [] e) [
      | inl (n, i, q, a) ↦
          let (id, k, m) = (exact n).0 i in
          let (_, _, own, _, _, _, _) = merge_node_lem merge_profile merge_own yml id n m in
          inl (
            n,
            get_node-found h x (loaded yml nodes) e
                ∙ ap (merge_node merge_profile merge_own yml) (q ∙ own)
                ∙ m,
            a,
          )
      | inr f ↦ absurd (unfold lookup in ground (arith, f))
    ]
  ]

  read-GetsNode :
      (yml : NodesYaml) (db db' : NodeDb) (e : Option Text)
      → load_node_db merge_profile merge_own (yml, none) db ≡ (db', e)
      → ((e ≡ none) × ((h : Text) → GetsNode yml db' h))
        ⊎ ((e ≢ none) × (db'.node_info ≡ db.node_info))
  unfolding load_node_db set_node_info
  read-GetsNode yml db db' e h = elim (find_all_nodes_lem merge_profile merge_own yml []) [
    | inl (nodes, f, _, _, exact) ↦
        let result : (loaded yml nodes, none) ≡ (db', e) =
          sym (ap (set_node_info merge_profile merge_own (record db { yml = yml })) f) ∙ h in
        inl (
          sym (ap (λ z. z.1) result),
          λ a.
              subst (λ z. GetsNode yml z a) (ap (λ z. z.0) result)
                (loaded-GetsNode yml nodes a exact),
        )
    | inr (nodes, x, f, _) ↦
        let result : (record db { yml = yml }, some x) ≡ (db', e) =
          sym (ap (set_node_info merge_profile merge_own (record db { yml = yml })) f) ∙ h in
        inr (
          λ g. absurd (ground (arith, ap (λ z. z.1) result, g)),
          sym (ap (λ z. z.0.node_info) result),
        )
  ]

  -- Whether or not node.New gives an error with its registry: after a load that succeeds, `GetNode`
  -- gives a node that is not discoverable and has a device with the hardware address, or an error,
  -- and then no node of the registry that is not discoverable has such a device. A load that fails,
  -- in node.New or later, keeps the map of hardware addresses. The registry is replaced either way.
  pub load_node_db-GetsNode :
      (yml : NodesYaml) (read_error : Option Text) (db db' : NodeDb) (e : Option Text)
      → load_node_db merge_profile merge_own (yml, read_error) db ≡ (db', e)
      → (db'.yml ≡ yml)
        × (((read_error ≡ none) × (e ≡ none) × ((h : Text) → GetsNode yml db' h))
            ⊎ ((e ≢ none) × (db'.node_info ≡ db.node_info)))
  unfolding load_node_db set_node_info
  load_node_db-GetsNode yml (some x) db db' e h = (
    sym (ap (λ z. z.0.yml) h),
    inr (λ g. absurd (ground (arith, ap (λ z. z.1) h, g)), sym (ap (λ z. z.0.node_info) h)),
  )
  load_node_db-GetsNode yml none db db' e h = (
    replaced (find_all_nodes merge_profile merge_own yml []) h,
    elim (read-GetsNode yml db db' e h) [
      | inl (q, gets) ↦ inl (refl, q, gets)
      | inr kept ↦ inr kept
    ],
  )
    where
      replaced :
          (found : List Node × Option Text)
          → set_node_info merge_profile merge_own (record db { yml = yml }) found ≡ (db', e)
          → db'.yml ≡ yml
      replaced (nodes, none) q = sym (ap (λ z. z.0.yml) q)
      replaced (nodes, some x) q = sym (ap (λ z. z.0.yml) q)
