-- ===== src/Overlaydiff/Includes/Covered.antt =====
-- Which paths the roots that `dedupeTopLevelIncludes` keeps hold: a root holds itself and what
-- begins with it and a slash, which is the test of the code.
use warewulf.Common.{
  ◌≤◌, ◌≡◌, refl, sym, ◌∙◌, subst, true, false, List, [], ◌∷◌, ◌++◌, leb, length, any, arith,
  Bool-cases, inl, inr, ◌⊎◌, ◌↔◌, In, In-any, any-In, In-append_left, In-append_right,
  In-append_inv, All-In,
}
use warewulf.Common.Text.{Text, text_le_total, text_le_trans}
use warewulf.Common.Sort.{sort, IsSorted, sort-IsSorted, In-sort, sort-In}
use warewulf.Overlaydiff.Paths.{is_under}
use warewulf.Overlaydiff.Includes.{shorter_le, dedupe_loop, dedupe_top_level_includes}
use warewulf.Overlaydiff.Includes.Under.{Under, is_under_iff, Under-trans, Under-length}

-- Some root of the list is the path, or the path begins with it and a slash.
abbrev pub Covers : List Text → Text → Type 0
Covers roots path = (root : Text) × In root roots × Under path root

dedupe_loop-Covers :
    (path : Text) (ordered result : List Text)
    → Covers (dedupe_loop ordered result) path ↔ (Covers result path ⊎ Covers ordered path)
unfolding dedupe_loop
dedupe_loop-Covers path [] result = (inl, λ c. elim c [ inl d ↦ d | inr (root, i, u) ↦ absurd i ])
dedupe_loop-Covers path (include ∷ ordered) result =
    elim (Bool-cases (any (is_under include) result)) [
      | inl e ↦
          let rest = dedupe_loop-Covers path ordered result in
          let (kept, i, t) = any-In (is_under include) result e in
          rw e (
            λ c. elim (rest.0 c) [ inl d ↦ inl d | inr (root, j, u) ↦ inr (root, inr j, u) ],
            λ c. rest.1 (elim c [
              | inl d ↦ inl d
              | inr (root, inl q, u) ↦ inl (
                kept,
                i,
                Under-trans path include kept (subst (Under path) (sym q) u)
                    ((is_under_iff include kept).0 t),
              )
              | inr (root, inr j, u) ↦ inr (root, j, u)
            ]),
          )
      | inr e ↦
          let rest = dedupe_loop-Covers path ordered (result ++ include ∷ []) in
          rw e (
            λ c. elim (rest.0 c) [
              | inl (root, i, u) ↦ elim (In-append_inv root result (include ∷ []) i) [
                | inl j ↦ inl (root, j, u)
                | inr (inl q) ↦ inr (root, inl q, u)
                | inr (inr f) ↦ absurd f
              ]
              | inr (root, j, u) ↦ inr (root, inr j, u)
            ],
            λ c. rest.1 (elim c [
              | inl (root, i, u) ↦ inl (root, In-append_left root result _ i, u)
              | inr (root, inl q, u) ↦ inl (root, In-append_right root result _ (inl q), u)
              | inr (root, inr j, u) ↦ inr (root, j, u)
            ]),
          )
    ]

-- No root of the list begins with another one and a slash.
abbrev pub Apart : List Text → Type 0
Apart roots = (a b : Text) → In a roots → In b roots → Under a b → a ≡ b

shorter_le-length : (a b : Text) → shorter_le a b ≡ true → length a ≤ length b
unfolding shorter_le
shorter_le-length a b h = ground (arith, h)

shorter_le_total : (a b : Text) → shorter_le a b ≡ false → shorter_le b a ≡ true
unfolding shorter_le
shorter_le_total a b h = ground (arith, h, text_le_total a b)

shorter_le_trans :
    (a b c : Text) → shorter_le a b ≡ true → shorter_le b c ≡ true → shorter_le a c ≡ true
unfolding shorter_le
shorter_le_trans a b c h k = ground (arith, h, k, text_le_trans a b c)

dedupe_loop-Apart :
    (ordered result : List Text)
    → IsSorted shorter_le ordered
    → ((kept include : Text) → In kept result → In include ordered → length kept ≤ length include)
    → Apart result
    → Apart (dedupe_loop ordered result)
unfolding dedupe_loop
dedupe_loop-Apart [] result sorted longer apart = apart
dedupe_loop-Apart (include ∷ ordered) result sorted longer apart =
    elim (Bool-cases (any (is_under include) result)) [
      | inl e ↦
          rw e (dedupe_loop-Apart ordered result sorted.1 (λ k i j l. longer k i j (inr l)) apart)
      | inr e ↦
          rw e (
            dedupe_loop-Apart ordered (result ++ include ∷ []) sorted.1 (grown sorted) (separate e))
    ]
  where
    grown :
        IsSorted shorter_le (include ∷ ordered)
        → (kept i : Text) → In kept (result ++ include ∷ [])
        → In i ordered
        → length kept ≤ length i
    grown sorted kept i j l = elim (In-append_inv kept result (include ∷ []) j) [
      | inl k ↦ longer kept i k (inr l)
      | inr (inl q) ↦
          subst (λ z. length z ≤ length i) q
            (shorter_le-length include i
              (All-In (λ y. shorter_le include y ≡ true) ordered sorted.0 l))
      | inr (inr f) ↦ absurd f
    ]

    not_under : any (is_under include) result ≡ false → (b : Text) → In b result → ¬ Under include b
    not_under e b i u =
        absurd
          (ground (arith, e, In-any (is_under include) b result i ((is_under_iff include b).1 u)))

    new_above :
        any (is_under include) result ≡ false
        → (a : Text) → In a result
        → Under a include
        → a ≡ include
    new_above e a i u = Under-length a include u (longer a include i (inl refl))

    separate : any (is_under include) result ≡ false → Apart (result ++ include ∷ [])
    separate e a b i j u = elim (In-append_inv a result (include ∷ []) i) [
      | inl k ↦ elim (In-append_inv b result (include ∷ []) j) [
        | inl l ↦ apart a b k l u
        | inr (inl q) ↦ new_above e a k (subst (Under a) (sym q) u) ∙ q
        | inr (inr f) ↦ absurd f
      ]
      | inr (inl p) ↦ elim (In-append_inv b result (include ∷ []) j) [
        | inl l ↦ absurd (not_under e b l (subst (λ z. Under z b) (sym p) u))
        | inr (inl q) ↦ sym p ∙ q
        | inr (inr f) ↦ absurd f
      ]
      | inr (inr f) ↦ absurd f
    ]

-- A path is held by a root if it is the root or begins with the root and a slash, so that `/` holds
-- only itself and paths that begin with two slashes. The roots kept hold just the paths that the
-- roots given hold, and none of them is held by another one.
pub dedupe_top_level_includes_lem :
    (includes : List Text)
    → ((path : Text) → Covers (dedupe_top_level_includes includes) path ↔ Covers includes path)
      × Apart (dedupe_top_level_includes includes)
unfolding dedupe_top_level_includes
dedupe_top_level_includes_lem [] = (λ path. (λ c. c, λ c. c), λ a b i. absurd i)
dedupe_top_level_includes_lem (one ∷ []) = (λ path. (λ c. c, λ c. c), alone)
  where
    alone : Apart (one ∷ [])
    alone a b (inl p) (inl q) u = sym p ∙ q
    alone a b (inl p) (inr f) u = absurd f
    alone a b (inr f) j u = absurd f
dedupe_top_level_includes_lem (one ∷ two ∷ more) = rw several (
  λ path. (
    λ c. elim ((dedupe_loop-Covers path (sort shorter_le (one ∷ two ∷ more)) []).0 c) [
      | inl (root, i, u) ↦ absurd i
      | inr (root, i, u) ↦ (root, sort-In shorter_le root (one ∷ two ∷ more) i, u)
    ],
    λ (root, i, u).
        (dedupe_loop-Covers path (sort shorter_le (one ∷ two ∷ more)) []).1
          (inr (root, In-sort shorter_le root (one ∷ two ∷ more) i, u)),
  ),
  dedupe_loop-Apart (sort shorter_le (one ∷ two ∷ more)) []
      (sort-IsSorted shorter_le shorter_le_total shorter_le_trans (one ∷ two ∷ more))
      (λ k i j. absurd j) (λ a b i. absurd i),
)
  where
    several : leb (length (one ∷ two ∷ more)) 1 ≡ false
    several = ground arith
