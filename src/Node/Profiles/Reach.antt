-- ===== src/Node/Profiles/Reach.antt =====
-- Which profiles `getNodeProfiles` gives.
use warewulf.Common.{
  ◌≡◌, refl, true, false, List, [], ◌∷◌, In, inl, inr, ◌↔◌, Bool-cases, some, length, keep, In-keep,
  Distinct, Bool,
}
use warewulf.Common.Text.{Text}
use warewulf.Common.Maps.{Map, lookup}
use warewulf.Node.Types.{Profile, Node, NodesYaml}
use warewulf.Node.Lists.{is_negated, clean_list, neg_list, not_negate}
use warewulf.Node.Lists.Clean.{negation, In-clean_list}
use warewulf.Node.Profiles.{get_profiles_profiles, get_node_profiles}
use warewulf.Node.Profiles.Explored.{Reaches, here, through, Settled, Explored, Once}
use warewulf.Node.Profiles.Visit.{Returns, get_profiles_profiles-Returns}

module _ (node_profiles : Map Profile) (input output v : List Text)
    (e : Explored node_profiles input [] output v) where
  Settled-In : (x : Text) → Settled output v x → In x output
  Settled-In x s = elim (Bool-cases (is_negated x)) [
    | inl n ↦ s.0 n
    | inr n ↦ e.written x (s.1 n) (λ i. i)
  ]

  -- From tokens that are dealt with, every token that they reach is dealt with.
  Reaches-output :
      {x : Text} {from : List Text}
      → Reaches node_profiles x from
      → ((y : Text) → In y from → Settled output v y)
      → In x output
  Reaches-output (here i) all = Settled-In _ (all _ i)
  Reaches-output (through id i n r) all =
      Reaches-output r (λ y j. e.closed id y ((all id i).1 n) (λ z. z) j)

  pub In-output : (x : Text) → In x output ↔ Reaches node_profiles x input
  In-output x = (e.reached x, λ r. Reaches-output r e.covers)

Once-keep :
    (p : Text → Bool) (xs : List Text)
    → Once xs
    → ((x : Text) → In x xs → p x ≡ true → is_negated x ≡ false)
    → Distinct (keep p xs)
Once-keep p [] h plain = tt
Once-keep p (x ∷ xs) h plain = elim (Bool-cases (p x)) [
  | inl e ↦ rw e (
    λ i. h.0 (plain x (inl refl) e) ((In-keep p x xs).0 i).0,
    Once-keep p xs h.1 (λ y i. plain y (inr i)),
  )
  | inr e ↦ rw e (Once-keep p xs h.1 (λ y i. plain y (inr i)))
]

clean_list-Distinct : (xs : List Text) → Once xs → Distinct (clean_list xs)
unfolding clean_list
clean_list-Distinct xs h =
    Once-keep (not_negate (neg_list xs)) xs h
      (λ x i e. ((In-clean_list x xs).0 ((In-keep (not_negate (neg_list xs)) x xs).1 (i, e))).1)

-- For a node of the registry the call ends, cycles among the profiles included; it gives each
-- profile once, and a name just if the node names it, or some profile does that is itself reached
-- without a negation, and neither the node nor such a profile names it with a `~` in front.
pub get_node_profiles_lem :
    (config : NodesYaml) (id : Text) (node : Node)
    → lookup id config.nodes ≡ some node
    → (profiles : List Text) × (get_node_profiles config id ≡ some profiles)
      × Distinct profiles
      × ((x : Text)
          → In x profiles ↔ (
              Reaches config.node_profiles x node.profile.profiles
              × (is_negated x ≡ false)
              × (¬ Reaches config.node_profiles (negation x) node.profile.profiles)))
get_node_profiles_lem config id node found = (
  clean_list output,
  run,
  clean_list-Distinct output all.3.once,
  λ x. (
    λ i.
        let (j, plain, absent) = (In-clean_list x output).0 i in
        (
          (In-output _ input output v all.3 x).0 j,
          plain,
          λ r. absent ((In-output _ input output v all.3 (negation x)).1 r),
        ),
    λ (r, plain, absent). (In-clean_list x output).1 (
      (In-output _ input output v all.3 x).1 r,
      plain,
      λ j. absent ((In-output _ input output v all.3 (negation x)).0 j),
    ),
  ),
)
  where
    input : List Text
    input = node.profile.profiles

    all :
        Returns config.node_profiles
          (get_profiles_profiles config.node_profiles (length config.node_profiles) input [])
          input
          []
    all = get_profiles_profiles-Returns config.node_profiles input

    output : List Text
    output = all.0

    v : List Text
    v = all.1

    run : get_node_profiles config id ≡ some (clean_list output)
    run = unfold get_node_profiles in rw (found, get_node_profiles) (rw all.2)
