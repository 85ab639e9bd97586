-- ===== src/Node/Profiles/Visit.antt =====
-- How `getProfilesProfiles` explores, also profiles that name one another in a cycle.
use Prim.Native.Nat.{◌≤◌, ◌<◌}
use warewulf.Common.{
  ℕ, zero, suc, ◌≡◌, ◌≢◌, refl, true, false, List, [], ◌∷◌, ◌++◌, In, ◌⊎◌, inl, inr, arith,
  Bool-cases, Option-cases, none, some, if◌then◌else◌, length, subst, sym,
}
use warewulf.Common.Text.{Text, contains, contains-In, In-contains}
use warewulf.Common.Maps.{Map, lookup, keys, lookup-In-keys}
use warewulf.Node.Types.{Profile}
use warewulf.Node.Lists.{is_negated}
use warewulf.Node.Profiles.{Visited, children, expand_profile, expand_input, get_profiles_profiles}
use warewulf.Node.Profiles.Explored.{
  Explored, Explored-nil, Explored-negated, Explored-visited, Explored-new,
}

-- The keys that are still to be visited.
abbrev left : List Text → List Text → ℕ
left [] v = 0
left (k ∷ ks) v = if contains v k then left ks v else suc (left ks v)

left_mono : (ks v v' : List Text) → ((x : Text) → In x v → In x v') → left ks v' ≤ left ks v
left_mono [] v v' sub = omega arith
left_mono (k ∷ ks) v v' sub = elim (Bool-cases (contains v k)) [
  | inl e ↦
      let e' : contains v' k ≡ true = In-contains v' k (sub k (contains-In v k e)) in
      rw (e, e') (left_mono ks v v' sub)
  | inr e ↦ ground (arith, left_mono ks v v' sub)
]

left-lt : (ks v : List Text) (id : Text) → In id ks → ¬ In id v → left ks (id ∷ v) < left ks v
left-lt [] v id i n = absurd i
left-lt (k ∷ ks) v id (inl q) n =
    let old : contains v k ≡ false = not_seen (Bool-cases (contains v k)) in
    let now : contains (id ∷ v) k ≡ true = In-contains (id ∷ v) k (inl (sym q)) in
    rw (old, now) (omega (arith, left_mono ks v (id ∷ v) (λ x j. inr j)))
  where
    not_seen : (contains v k ≡ true) ⊎ (contains v k ≡ false) → contains v k ≡ false
    not_seen (inr e) = e
    not_seen (inl e) = absurd (n (subst (λ t. In t v) q (contains-In v k e)))
left-lt (k ∷ ks) v id (inr i) n = elim (Bool-cases (contains v k)) [
  | inl e ↦
      let e' : contains (id ∷ v) k ≡ true = In-contains (id ∷ v) k (inr (contains-In v k e)) in
      rw (e, e') (left-lt ks v id i n)
  | inr e ↦ ground (arith, left-lt ks v id i n)
]

module _ (node_profiles : Map Profile) where
  abbrev unseen : List Text → ℕ
  unseen v = left (keys node_profiles) v

  -- The call returns, and what it returns explores.
  abbrev pub Returns : Visited → List Text → List Text → Type 0
  Returns r input v =
      (output v' : List Text) × (r ≡ some (output, v')) × Explored node_profiles input v output v'

  abbrev Works : (List Text → List Text → Visited) → ℕ → Type 0
  Works f n = (input v : List Text) → unseen v < n → Returns (f input v) input v

  -- What a new profile names is explored: with one profile fewer to be visited.
  expand_profile-Returns :
      (nested : List Text → List Text → Visited) (n : ℕ) (id : Text) (v : List Text)
      → Works nested n
      → unseen v ≤ n
      → ¬ In id v
      → Returns
          (expand_profile node_profiles nested id (id ∷ v))
          (children node_profiles id)
          (id ∷ v)
  expand_profile-Returns nested n id v works bound new =
      elim (Option-cases (lookup id node_profiles)) [
        | inl e ↦
            unfold expand_profile in
            rw (e, expand_profile, children) ([], id ∷ v, refl, Explored-nil node_profiles (id ∷ v))
        | inr (p, e) ↦
            unfold expand_profile in
            rw (e, expand_profile, children)
              (works p.profiles (id ∷ v) (omega (arith, fewer (λ z. cc))))
      ]
    where
      fewer : lookup id node_profiles ≢ none → unseen (id ∷ v) < unseen v
      fewer known = left-lt (keys node_profiles) v id (lookup-In-keys id node_profiles known) new

  expand_input-Returns :
      (nested : List Text → List Text → Visited) (n : ℕ) (input v : List Text)
      → Works nested n
      → unseen v ≤ n
      → Returns (expand_input node_profiles nested input v) input v
  unfolding expand_input
  expand_input-Returns nested n [] v works bound = ([], v, refl, Explored-nil node_profiles v)
  expand_input-Returns nested n (id ∷ input) v works bound = elim (Bool-cases (is_negated id)) [
    | inl neg ↦
        let (output, v', e, x) = expand_input-Returns nested n input v works bound in
        (id ∷ output, v', rw neg (rw e), Explored-negated node_profiles id input v output v' neg x)
    | inr plain ↦ elim (Bool-cases (contains v id)) [
      | inl old ↦
          let (output, v', e, x) = expand_input-Returns nested n input v works bound in
          (
            output,
            v',
            rw (plain, old) e,
            Explored-visited node_profiles id input v output v' plain (contains-In v id old) x,
          )
      | inr fresh ↦
          let new : ¬ In id v = λ i. absurd (ground (arith, In-contains v id i)) in
          let (below, v₁, e, x) = expand_profile-Returns nested n id v works bound new in
          let smaller : unseen v₁ ≤ unseen v =
            left_mono (keys node_profiles) v v₁ (λ y i. x.grows y (inr i)) in
          let (output, v₂, e', x') = expand_input-Returns nested n input v₁ works (omega arith) in
          (
            below ++ id ∷ output,
            v₂,
            rw (plain, fresh) (rw e (rw e')),
            Explored-new node_profiles id input v below v₁ output v₂ plain new x x',
          )
    ]
  ]

  get_profiles_profiles-Works :
      (f : ℕ) (input v : List Text)
      → unseen v ≤ f
      → Returns (get_profiles_profiles node_profiles f input v) input v
  unfolding get_profiles_profiles
  get_profiles_profiles-Works zero input v bound =
      expand_input-Returns (λ _ _. none) zero input v (λ i w h. absurd (omega arith)) bound
  get_profiles_profiles-Works (suc f) input v bound =
      expand_input-Returns (get_profiles_profiles node_profiles f) (suc f) input v
        (λ i w h. get_profiles_profiles-Works f i w (omega arith)) bound

  left-le : (ks v : List Text) → left ks v ≤ length ks
  left-le [] v = omega arith
  left-le (k ∷ ks) v = ground (arith, left-le ks v)

length-keys : (node_profiles : Map Profile) → length (keys node_profiles) ≡ length node_profiles
unfolding keys
length-keys [] = refl
length-keys ((k, p) ∷ m) = omega (arith, length-keys m)

-- The fuel is enough for every input: one level for each profile.
pub get_profiles_profiles-Returns :
    (node_profiles : Map Profile) (input : List Text)
    → Returns node_profiles
        (get_profiles_profiles node_profiles (length node_profiles) input [])
        input
        []
get_profiles_profiles-Returns node_profiles input =
    get_profiles_profiles-Works node_profiles (length node_profiles) input []
      (omega (arith, left-le node_profiles (keys node_profiles) [], length-keys node_profiles))
