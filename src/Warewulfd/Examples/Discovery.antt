-- ===== src/Warewulfd/Examples/Discovery.antt =====
-- The theorem on discovery, at a registry with one discoverable node.
use warewulf.Common.{
  ◌≡◌, ◌≢◌, refl, sym, ◌∙◌, ap, subst, Bool, false, [], ◌∷◌, Option, none, some, ◌>>=◌, arith, inl,
  inr, Bool-cases, if◌then◌else◌,
}
use warewulf.Common.Text.{Text, codes, text_eq, text_eq_iff, to_lower}
use warewulf.Common.Maps.{Map, lookup, IsMap}
use warewulf.Common.Results.{Result, ok}
use warewulf.Node.Types.{Profile, Node, NodesYaml, NetDev}
use warewulf.Node.Lists.{is_unset_value}
use warewulf.Node.Registry.{no_node, no_profile}
use warewulf.Warewulfd.NodeDb.{NodeDb, get_node}
use warewulf.Warewulfd.NodeDb.Found.{Answers}
use warewulf.Warewulfd.Access.{NodeAnswer, configured, no_unconfigured, unavailable}
use warewulf.Warewulfd.Discovery.{no_net_dev, get_or_discover_node}
use warewulf.Warewulfd.Discovery.Known.{Stores, HasLaws}
use warewulf.Warewulfd.Discovery.Again.{get_or_discover_node-configures}

abbrev last_profile : Profile → Profile → Result Profile
last_profile a b = ok b

abbrev last_node : Node → Node → Result Node
last_node a b = ok b

abbrev new_address : Text
new_address = codes "aa:bb:cc:dd:ee:ff"

abbrev one_address : Text → Bool
unfolding text_eq
one_address s = text_eq s new_address

-- What is not set is empty once it is read back.
abbrev read_node : Node → Node
unfolding is_unset_value
read_node n = record n {
  discoverable = if is_unset_value n.discoverable then [] else n.discoverable;
}

abbrev written : NodesYaml → NodesYaml × Option Text
written config = (config, none)

abbrev read_each : {A B : Type 0} → (A → B) → Map A → Map B
read_each read [] = []
read_each read ((name, a) ∷ m) = (name, read a) ∷ read_each read m

lookup-read_each :
    {A B : Type 0} (read : A → B) (k : Text) (m : Map A)
    → lookup k (read_each read m) ≡ (lookup k m >>= λ a. some (read a))
unfolding lookup
lookup-read_each read k [] = refl
lookup-read_each read k ((j, a) ∷ m) = elim (Bool-cases (text_eq j k)) [
  | inl t ↦ rw t refl
  | inr f ↦ rw f (lookup-read_each read k m)
]

abbrev read_nodes : NodesYaml → NodesYaml × Option Text
unfolding is_unset_value
read_nodes config = (record config { nodes = read_each read_node config.nodes }, none)

stored : (config : NodesYaml) → Stores config (read_nodes config).0
unfolding is_unset_value
stored config id n e = (
  read_node n,
  lookup-read_each read_node id config.nodes ∙ ap (λ z. z >>= λ a. some (read_node a)) e,
  refl,
  λ name dev at _. (dev, at, refl),
)

address_set : (s : Text) → s ≡ new_address → (s ≢ []) × (is_unset_value s ≡ false)
unfolding is_unset_value
address_set s e = rw e (λ q. cc, refl)

laws : HasLaws last_node one_address written read_nodes
unfolding text_eq is_unset_value
laws = record {
  own_discoverable = λ p original merged e. sym (ap (λ z. z.discoverable) (ok_eq e));
  own_address = λ p original merged name dev e at _.
      (dev, ap (λ z. lookup name z.profile.net_devs) (sym (ok_eq e)) ∙ at, refl);
  address = λ s e. address_set s ((text_eq_iff s new_address).0 e);
  stored = λ config w r p q.
      subst (Stores config) (ap (λ z. (read_nodes z).0) (ap (λ z. z.0) p) ∙ ap (λ z. z.0) q)
        (stored config);
}
  where
    ok_eq : {a b : Node} → ◌≡◌ {A = Result Node} (ok a) (ok b) → a ≡ b
    ok_eq e = cc

abbrev old_device : NetDev
old_device = record no_net_dev { hwaddr = codes "11:11:11:11:11:11" }

abbrev unconfigured_node : Node
unconfigured_node = record no_node {
  discoverable = codes "true";
  profile = record no_profile { net_devs = (codes "eth0", old_device) ∷ [] };
}

abbrev old_db : NodeDb
old_db = record {
  node_info = [];
  yml = record { node_profiles = []; nodes = (codes "n1", unconfigured_node) ∷ [] };
}

abbrev after : NodeAnswer × NodeDb
unfolding get_or_discover_node text_eq is_unset_value
after =
    get_or_discover_node last_profile last_node one_address written read_nodes new_address old_db

abbrev answer_node : NodeAnswer → Node
answer_node (configured n) = n
answer_node (no_unconfigured n) = n
answer_node (unavailable _) = no_node

discovers :
    get_or_discover_node last_profile last_node one_address written read_nodes new_address old_db
    ≡ (configured (answer_node after.0), after.1)
unfolding get_or_discover_node text_eq is_unset_value
discovers = refl

lower : to_lower new_address ≡ new_address
unfolding to_lower
lower = refl

unknown : lookup new_address old_db.node_info ≡ none
unfolding lookup
unknown = refl

nodes-IsMap : (k : Text) (m : Node) → lookup k old_db.yml.nodes ≡ some m → IsMap m.profile.net_devs
unfolding lookup text_eq
nodes-IsMap k m e = elim (Bool-cases (text_eq (codes "n1") k)) [
  | inl t ↦
      let is_old : ◌≡◌ {A = Option Node} (some unconfigured_node) (some m) = rw t refl ∙ e in
      let same_node : unconfigured_node ≡ m = cc in
      subst (λ z. IsMap z.profile.net_devs) same_node (refl, tt)
  | inr f ↦ absurd (ground (arith, f, e))
]

get_or_discover_node-configures_example :
    (m : Node) × (get_node last_profile last_node new_address after.1 ≡ ok m)
    × Answers new_address m
    × (get_or_discover_node last_profile last_node one_address written read_nodes new_address
          after.1
        ≡ (configured m, after.1))
get_or_discover_node-configures_example =
    get_or_discover_node-configures last_profile last_node one_address written read_nodes laws
      new_address lower old_db after.1 (answer_node after.0) nodes-IsMap unknown discovers
