-- ===== src/Node/Changes/Received.antt =====
-- What `SetNode` leaves at one key of a map that is sent, and in the registry.
use warewulf.Common.{◌≡◌, refl, ◌∙◌, ap, sym, [], ◌∷◌, Option, none, some, inl, inr, Bool-cases}
use warewulf.Common.Text.{Text, text_eq, text_eq_iff}
use warewulf.Common.Maps.{Map, lookup, insert, IsMap, lookup-insert}
use warewulf.Common.Results.{ok}
use warewulf.Node.Types.{Node, NodesYaml}
use warewulf.Node.Changes.{received_map, received_node, set_node}

abbrev pub sent_or : {V : Type 0} → (V → V) → Option V → Option V → Option V
sent_or send none old = old
sent_or send (some v) old = some (send v)

pub lookup-received_map :
    {V : Type 0} (send : V → V) (k : Text) (new old : Map V)
    → IsMap new
    → lookup k (received_map send new old) ≡ sent_or send (lookup k new) (lookup k old)
unfolding received_map lookup
lookup-received_map send k [] old h = refl
lookup-received_map send k ((j, v) ∷ new) old (fresh, h) = elim (Bool-cases (text_eq j k)) [
  | inl t ↦
      let absent : lookup k new ≡ none =
        ap (λ z. lookup z new) (sym ((text_eq_iff j k).0 t)) ∙ fresh in
      rw t (
        lookup-received_map send k new (insert j (send v) old) h
        ∙ ap (λ z. sent_or send z (lookup k (insert j (send v) old))) absent
        ∙ lookup-insert j k (send v) old
        ∙ rw t refl)
  | inr f ↦ rw f (
      lookup-received_map send k new (insert j (send v) old) h
      ∙ ap (sent_or send (lookup k new)) (lookup-insert j k (send v) old ∙ rw f refl))
]

-- A node that is there is replaced by what it receives.
pub set_node_found :
    (id : Text) (vals : Node) (config : NodesYaml) (old : Node)
    → lookup id config.nodes ≡ some old
    → set_node id vals config
      ≡ ok (record config { nodes = insert id (received_node vals old) config.nodes })
unfolding set_node
set_node_found id vals config old e = rw (set_node, e) refl
