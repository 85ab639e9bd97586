-- ===== src/Node/Registry/Steps.antt =====
-- The registry as a state machine: what the changes keep.
use warewulf.Common.{
  ◌≡◌, ◌≢◌, refl, sym, ◌∙◌, ap, List, [], ◌∷◌, Option, none, some, arith, inl, inr, Option-cases,
  Bool, Bool-cases, if◌then◌else◌, true, false, ◌↔◌, ◌⊎◌, In,
}
use warewulf.Common.Text.{Text, text_eq, text_eq_iff, text_eq_refl}
use warewulf.Common.Maps.{
  Map, lookup, insert, delete, IsMap, lookup-insert, lookup-delete, insert-IsMap, delete-IsMap,
}
use warewulf.Common.Results.{Result, ok, err}
use warewulf.Node.Types.{Node, NodesYaml}
use warewulf.Node.Queries.{list_all_nodes}
use warewulf.Node.Queries.Answers.{list_all_nodes-Answers}
use warewulf.Node.Registry.{add_node, del_node, add_profile, del_profile, get_node_only, new_node}

delete-insert :
    {V : Type 0} (k : Text) (v : V) (m : Map V) → lookup k m ≡ none → delete k (insert k v m) ≡ m
unfolding lookup insert delete
delete-insert k v [] h = rw (text_eq_refl k) refl
delete-insert k v ((j, w) ∷ m) h = elim (Bool-cases (text_eq j k)) [
  | inl e ↦ absurd (ground (arith, e, h))
  | inr e ↦ rw e (rw e (ap (λ z. (j, w) ∷ z) (delete-insert k v m (ground (arith, e, h)))))
]

-- What the calls on the node `id` give in a registry, its name being free or taken.
abbrev pub AddsAndDeletes : Text → NodesYaml → Type 0
AddsAndDeletes id config =
    ((lookup id config.nodes ≡ none)
      × ((config' : NodesYaml) × (add_node id config ≡ ok (new_node id, config'))
          × (get_node_only id config' ≡ ok (new_node id))
          × (del_node id config' ≡ ok config)
          × ((message : Text) × (add_node id config' ≡ err message))
          × ((message : Text) × (del_node id config ≡ err message))))
    ⊎ ((lookup id config.nodes ≢ none) × ((message : Text) × (add_node id config ≡ err message)))

-- Where no node has the name, `AddNode` gives a new node that is then found; deleting it again gives
-- the registry as it was; adding it twice is an error, and so is deleting it before. Where some node
-- has the name, adding is an error.
pub del_node-add_node : (id : Text) (config : NodesYaml) → AddsAndDeletes id config
unfolding add_node del_node get_node_only
del_node-add_node id config = elim (Option-cases (lookup id config.nodes)) [
  | inl e ↦ inl (
    e,
    (
      record config { nodes = insert id (new_node id) config.nodes },
      rw (e, add_node) refl,
      rw (found e, get_node_only) refl,
      rw (found e, del_node)
          (ap (λ z. ok (record config { nodes = z })) (delete-insert id _ config.nodes e)),
      rw (found e, add_node) (_, refl),
      rw (e, del_node) (_, refl),
    ),
  )
  | inr (n, e) ↦ inr (λ f. absurd (ground (arith, e, f)), rw (e, add_node) (_, refl))
]
  where
    found :
        lookup id config.nodes ≡ none
        → lookup id (insert id (new_node id) config.nodes) ≡ some (new_node id)
    found e = lookup-insert id id (new_node id) config.nodes ∙ rw (text_eq_refl id) refl

pub data Op : Type 0 where
  node_added : Text → Op
  node_deleted : Text → Op
  profile_added : Text → Op
  profile_deleted : Text → Op

abbrev after_added : {A : Type 0} → NodesYaml → Result (A × NodesYaml) → NodesYaml
after_added config (ok (_, config')) = config'
after_added config (err _) = config

abbrev after_deleted : NodesYaml → Result NodesYaml → NodesYaml
after_deleted config (ok config') = config'
after_deleted config (err _) = config

-- The registry after a call, whether or not it succeeds.
abbrev pub run_op : Op → NodesYaml → NodesYaml
run_op (node_added id) config = after_added config (add_node id config)
run_op (node_deleted id) config = after_deleted config (del_node id config)
run_op (profile_added id) config = after_added config (add_profile id config)
run_op (profile_deleted id) config = after_deleted config (del_profile id config)

abbrev pub run_ops : List Op → NodesYaml → NodesYaml
run_ops [] config = config
run_ops (o ∷ ops) config = run_ops ops (run_op o config)

-- Whether a node is there at the end: the last call that names it decides.
abbrev pub present : List Op → Text → Bool → Bool
present [] x there = there
present (node_added id ∷ ops) x there = present ops x (if text_eq id x then true else there)
present (node_deleted id ∷ ops) x there = present ops x (if text_eq id x then false else there)
present (_ ∷ ops) x there = present ops x there

abbrev pub is_some : {A : Type 0} → Option A → Bool
is_some none = false
is_some (some _) = true

module _ (id : Text) (config : NodesYaml) where
  add_node-fresh :
      lookup id config.nodes ≡ none
      → run_op (node_added id) config
        ≡ record config { nodes = insert id (new_node id) config.nodes }
  unfolding add_node
  add_node-fresh e = rw (e, run_op, after_added) refl

  add_node-taken :
      {n : Node} → lookup id config.nodes ≡ some n → run_op (node_added id) config ≡ config
  unfolding add_node
  add_node-taken e = rw (e, run_op, after_added) refl

  del_node-taken :
      {n : Node}
      → lookup id config.nodes ≡ some n
      → run_op (node_deleted id) config ≡ record config { nodes = delete id config.nodes }
  unfolding del_node
  del_node-taken e = rw (e, run_op, after_deleted) refl

  del_node-fresh : lookup id config.nodes ≡ none → run_op (node_deleted id) config ≡ config
  unfolding del_node
  del_node-fresh e = rw (e, run_op, after_deleted) refl

  add_profile-nodes : (run_op (profile_added id) config).nodes ≡ config.nodes
  unfolding add_profile
  add_profile-nodes = elim (Option-cases (lookup id config.node_profiles)) [
    | inl e ↦ rw (e, run_op, after_added) refl
    | inr (n, e) ↦ rw (e, run_op, after_added) refl
  ]

  del_profile-nodes : (run_op (profile_deleted id) config).nodes ≡ config.nodes
  unfolding del_profile
  del_profile-nodes = elim (Option-cases (lookup id config.node_profiles)) [
    | inl e ↦ rw (e, run_op, after_deleted) refl
    | inr (n, e) ↦ rw (e, run_op, after_deleted) refl
  ]

module _ (x : Text) (config : NodesYaml) where
  run_op-present :
      (o : Op)
      → is_some (lookup x (run_op o config).nodes)
        ≡ present (o ∷ []) x (is_some (lookup x config.nodes))
  run_op-present (node_added id) = elim (Option-cases (lookup id config.nodes)) [
    | inl e ↦
        rw (add_node-fresh id config e, lookup-insert id x (new_node id) config.nodes)
          (ground arith)
    | inr (n, e) ↦ rw (add_node-taken id config e) (ground (arith, text_eq_iff id x, e))
  ]
  run_op-present (node_deleted id) = elim (Option-cases (lookup id config.nodes)) [
    | inl e ↦ rw (del_node-fresh id config e) (ground (arith, text_eq_iff id x, e))
    | inr (n, e) ↦ rw (del_node-taken id config e, lookup-delete id x config.nodes) (ground arith)
  ]
  run_op-present (profile_added id) = rw (add_profile-nodes id config) refl
  run_op-present (profile_deleted id) = rw (del_profile-nodes id config) refl

module _ (config : NodesYaml) where
  run_op-IsMap : (o : Op) → IsMap config.nodes → IsMap (run_op o config).nodes
  run_op-IsMap (node_added id) h = elim (Option-cases (lookup id config.nodes)) [
    | inl e ↦ rw (add_node-fresh id config e) (insert-IsMap id (new_node id) config.nodes h)
    | inr (n, e) ↦ rw (add_node-taken id config e) h
  ]
  run_op-IsMap (node_deleted id) h = elim (Option-cases (lookup id config.nodes)) [
    | inl e ↦ rw (del_node-fresh id config e) h
    | inr (n, e) ↦ rw (del_node-taken id config e) (delete-IsMap id config.nodes h)
  ]
  run_op-IsMap (profile_added id) h = rw (add_profile-nodes id config) h
  run_op-IsMap (profile_deleted id) h = rw (del_profile-nodes id config) h

present-step :
    (o : Op) (ops : List Op) (x : Text) (there : Bool)
    → present ops x (present (o ∷ []) x there) ≡ present (o ∷ ops) x there
present-step (node_added id) ops x there = refl
present-step (node_deleted id) ops x there = refl
present-step (profile_added id) ops x there = refl
present-step (profile_deleted id) ops x there = refl

run_ops-present :
    (ops : List Op) (x : Text) (config : NodesYaml)
    → is_some (lookup x (run_ops ops config).nodes)
      ≡ present ops x (is_some (lookup x config.nodes))
run_ops-present [] x config = refl
run_ops-present (o ∷ ops) x config =
    run_ops-present ops x (run_op o config)
    ∙ ap (present ops x) (run_op-present x config o)
    ∙ present-step o ops x _

run_ops-IsMap :
    (ops : List Op) (config : NodesYaml) → IsMap config.nodes → IsMap (run_ops ops config).nodes
run_ops-IsMap [] config h = h
run_ops-IsMap (o ∷ ops) config h = run_ops-IsMap ops (run_op o config) (run_op-IsMap config o h)

is_some_iff :
    (x : Text) (config : NodesYaml)
    → IsMap config.nodes
    → In x (list_all_nodes config) ↔ (is_some (lookup x config.nodes) ≡ true)
is_some_iff x config h =
    let listed = (list_all_nodes-Answers config h).1 in
    elim (Option-cases (lookup x config.nodes)) [
      | inl e ↦ rw e (
        λ i. let (v, f, _) = (listed x).0 i in absurd (ground (arith, e, f)),
        λ f. absurd (ground (arith, f)),
      )
      | inr (n, e) ↦ rw e (λ _. refl, λ _. (listed x).1 (n, e, tt))
    ]

-- After any calls that add and delete nodes and profiles, failing ones among them, a map of nodes
-- is still one, and `ListAllNodes` names a node just if the last call that changes this node adds it, or no
-- call does and it was there before.
pub run_ops_lem :
    (ops : List Op) (config : NodesYaml)
    → IsMap config.nodes
    → IsMap (run_ops ops config).nodes
      × ((x : Text)
          → In x (list_all_nodes (run_ops ops config))
            ↔ (present ops x (is_some (lookup x config.nodes)) ≡ true))
run_ops_lem ops config h = (
  run_ops-IsMap ops config h,
  λ x. (
    λ i.
        sym (run_ops-present ops x config)
        ∙ (is_some_iff x (run_ops ops config) (run_ops-IsMap ops config h)).0 i,
    λ e.
        (is_some_iff x (run_ops ops config) (run_ops-IsMap ops config h)).1
          (run_ops-present ops x config ∙ e),
  ),
)
