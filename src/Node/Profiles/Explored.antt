-- ===== src/Node/Profiles/Explored.antt =====
-- What a call of `getProfilesProfiles` gives: an exploration of the graph of profiles.
use warewulf.Common.{
  ◌≡◌, refl, sym, subst, ap, true, false, List, [], ◌∷◌, ◌++◌, In, ◌⊎◌, inl, inr, arith, Bool-cases,
  In-append_left, In-append_right, In-append_inv,
}
use warewulf.Common.Text.{Text, contains, contains-In, In-contains}
use warewulf.Common.Maps.{Map}
use warewulf.Node.Types.{Profile}
use warewulf.Node.Lists.{is_negated}
use warewulf.Node.Profiles.{children}

-- A token that is no negation stands once.
abbrev pub Once : List Text → Type 0
Once [] = Unit
Once (x ∷ xs) = (is_negated x ≡ false → ¬ In x xs) × Once xs

Once-append :
    (xs ys : List Text)
    → Once xs
    → Once ys
    → ((x : Text) → In x xs → is_negated x ≡ false → ¬ In x ys)
    → Once (xs ++ ys)
Once-append [] ys h k apart = k
Once-append (x ∷ xs) ys h k apart = (
  λ n i. elim (In-append_inv x xs ys i) [ inl j ↦ h.0 n j | inr j ↦ apart x (inl refl) n j ],
  Once-append xs ys h.1 k (λ z i. apart z (inr i)),
)

-- A token is dealt with: a negation in the output, another in the visited set.
abbrev pub Settled : List Text → List Text → Text → Type 0
Settled output visited tok =
    (is_negated tok ≡ true → In tok output) × (is_negated tok ≡ false → In tok visited)

-- Membership in a list of texts is decided by `contains`.
In-cases : (x : Text) (xs : List Text) → In x xs ⊎ (¬ In x xs)
In-cases x xs = elim (Bool-cases (contains xs x)) [
  | inl e ↦ inl (contains-In xs x e)
  | inr e ↦ inr (λ i. absurd (ground (arith, In-contains xs x i)))
]

module _ (node_profiles : Map Profile) where
  -- `tok` is named by `input`, or by a profile that is reached from `input` without a negation.
  pub data Reaches (tok : Text) : List Text → Type 0 where
    here : {input : List Text} → In tok input → Reaches tok input
    through :
        {input : List Text} (id : Text)
        → In id input
        → is_negated id ≡ false
        → Reaches tok (children node_profiles id)
        → Reaches tok input

  pub Reaches-mono :
      {tok : Text} {input input' : List Text}
      → ((x : Text) → In x input → In x input')
      → Reaches tok input
      → Reaches tok input'
  Reaches-mono f (here i) = here (f _ i)
  Reaches-mono f (through id i n r) = through id (f id i) n r

  pub record Explored (input visited output visited' : List Text) : Type 0 where
    pub grows : (x : Text) → In x visited → In x visited'
    pub covers : (x : Text) → In x input → Settled output visited' x
    pub closed :
        (x y : Text)
        → In x visited'
        → ¬ In x visited
        → In y (children node_profiles x)
        → Settled output visited' y
    pub reached : (x : Text) → In x output → Reaches x input
    pub fresh : (x : Text) → In x output → is_negated x ≡ false → In x visited' × (¬ In x visited)
    pub once : Once output
    pub written : (x : Text) → In x visited' → ¬ In x visited → In x output

  pub Explored-nil : (visited : List Text) → Explored [] visited [] visited
  Explored-nil visited = record {
    grows = λ x i. i;
    covers = λ x i. absurd i;
    closed = λ x y i n j. absurd (n i);
    reached = λ x i. absurd i;
    fresh = λ x i n. absurd i;
    once = tt;
    written = λ x i n. absurd (n i);
  }

  -- A negation is written and nothing more.
  pub Explored-negated :
      (id : Text) (input v output v' : List Text)
      → is_negated id ≡ true
      → Explored input v output v'
      → Explored (id ∷ input) v (id ∷ output) v'
  Explored-negated id input v output v' neg e = record {
    grows = e.grows;
    covers = λ x i. elim i [
      | inl q ↦ (λ _. inl q, λ n. absurd (ground (arith, ap is_negated q)))
      | inr j ↦ (λ n. inr ((e.covers x j).0 n), (e.covers x j).1)
    ];
    closed = λ x y i n j. (λ m. inr ((e.closed x y i n j).0 m), (e.closed x y i n j).1);
    reached = λ x i. elim i [
      | inl q ↦ here (inl q)
      | inr j ↦ Reaches-mono (λ _ k. inr k) (e.reached x j)
    ];
    fresh = λ x i n. elim i [
      | inl q ↦ absurd (ground (arith, ap is_negated q))
      | inr j ↦ e.fresh x j n
    ];
    once = (λ n. absurd (ground arith), e.once);
    written = λ x i n. inr (e.written x i n);
  }

  -- A profile that was visited before is passed over.
  pub Explored-visited :
      (id : Text) (input v output v' : List Text)
      → is_negated id ≡ false
      → In id v
      → Explored input v output v'
      → Explored (id ∷ input) v output v'
  Explored-visited id input v output v' plain old e = record {
    grows = e.grows;
    covers = λ x i. elim i [
      | inl q ↦ (
        λ n. absurd (ground (arith, ap is_negated q)),
        λ n. e.grows x (subst (λ t. In t v) q old),
      )
      | inr j ↦ e.covers x j
    ];
    closed = e.closed;
    reached = λ x i. Reaches-mono (λ _ k. inr k) (e.reached x i);
    fresh = e.fresh;
    once = e.once;
    written = e.written;
  }

  module _ (id : Text) (input v below v₁ output v₂ : List Text) (plain : is_negated id ≡ false)
      (new : ¬ In id v) (e : Explored (children node_profiles id) (id ∷ v) below v₁)
      (e' : Explored input v₁ output v₂) where
    settle_below : (y : Text) → Settled below v₁ y → Settled (below ++ id ∷ output) v₂ y
    settle_below y s = (λ n. In-append_left y below (id ∷ output) (s.0 n), λ n. e'.grows y (s.1 n))

    settle_after : (y : Text) → Settled output v₂ y → Settled (below ++ id ∷ output) v₂ y
    settle_after y s = (λ n. In-append_right y below (id ∷ output) (inr (s.0 n)), s.1)

    -- What is new in the end is the profile itself, or was found below it, or comes after it.
    Origin : Text → Type 0
    Origin x = (id ≡ x) ⊎ ((In x v₁ × (¬ In x (id ∷ v))) ⊎ (¬ In x v₁))

    origin : (x : Text) → ¬ In x v → Origin x
    unfolding Origin
    origin x n = elim (In-cases x v₁) [
      | inr m ↦ inr (inr m)
      | inl i ↦ elim (In-cases x (id ∷ v)) [
        | inl (inl q) ↦ inl q
        | inl (inr j) ↦ absurd (n j)
        | inr m ↦ inr (inl (i, m))
      ]
    ]

    closed_new :
        (x y : Text)
        → In x v₂
        → ¬ In x v
        → In y (children node_profiles x)
        → Origin x
        → Settled (below ++ id ∷ output) v₂ y
    unfolding Origin
    closed_new x y i n j (inl q) =
        settle_below y (e.covers y (subst (λ t. In y (children node_profiles t)) (sym q) j))
    closed_new x y i n j (inr (inl (k, m))) = settle_below y (e.closed x y k m j)
    closed_new x y i n j (inr (inr m)) = settle_after y (e'.closed x y i m j)

    written_new : (x : Text) → In x v₂ → Origin x → In x (below ++ id ∷ output)
    unfolding Origin
    written_new x i (inl q) = In-append_right x below (id ∷ output) (inl q)
    written_new x i (inr (inl (k, m))) = In-append_left x below (id ∷ output) (e.written x k m)
    written_new x i (inr (inr m)) = In-append_right x below (id ∷ output) (inr (e'.written x i m))

    reached_new : (x : Text) → In x below ⊎ In x (id ∷ output) → Reaches x (id ∷ input)
    reached_new x (inl i) = through id (inl refl) plain (e.reached x i)
    reached_new x (inr (inl q)) = here (inl q)
    reached_new x (inr (inr i)) = Reaches-mono (λ _ k. inr k) (e'.reached x i)

    id_visited : In id v₁
    id_visited = e.grows id (inl refl)

    fresh_new :
        (x : Text) → is_negated x ≡ false → In x below ⊎ In x (id ∷ output) → In x v₂ × (¬ In x v)
    fresh_new x n (inl i) = (e'.grows x (e.fresh x i n).0, λ j. (e.fresh x i n).1 (inr j))
    fresh_new x n (inr (inl q)) =
        (e'.grows x (subst (λ t. In t v₁) q id_visited), λ j. new (subst (λ t. In t v) (sym q) j))
    fresh_new x n (inr (inr i)) = ((e'.fresh x i n).0, λ j. (e'.fresh x i n).1 (e.grows x (inr j)))

    apart : (x : Text) → In x below → is_negated x ≡ false → ¬ In x (id ∷ output)
    apart x i n (inl q) = (e.fresh x i n).1 (inl q)
    apart x i n (inr j) = (e'.fresh x j n).1 (e.fresh x i n).0

    -- A new profile: what it names first, then the profile, then the rest of the input.
    pub Explored-new : Explored (id ∷ input) v (below ++ id ∷ output) v₂
    Explored-new = record {
      grows = λ x i. e'.grows x (e.grows x (inr i));
      covers = λ x i. elim i [
        | inl q ↦ (
          λ n. absurd (ground (arith, ap is_negated q)),
          λ n. e'.grows x (subst (λ t. In t v₁) q id_visited),
        )
        | inr j ↦ settle_after x (e'.covers x j)
      ];
      closed = λ x y i n j. closed_new x y i n j (origin x n);
      reached = λ x i. reached_new x (In-append_inv x below (id ∷ output) i);
      fresh = λ x i n. fresh_new x n (In-append_inv x below (id ∷ output) i);
      once =
          Once-append below (id ∷ output) e.once (λ n i. (e'.fresh id i n).1 id_visited, e'.once)
            apart;
      written = λ x i n. written_new x i (origin x n);
    }
