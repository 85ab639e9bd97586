-- ===== src/Overlaydiff/Compare/Refine.antt =====
-- `Compare` against its promise: the source, up to what it does not compare.
use warewulf.Common.{
  ◌≡◌, ◌≢◌, refl, sym, subst, ap, ◌∙◌, Bool, ◌++◌, Option, none, some, In, any, In-any, any-In, inl,
  inr, ◌⊎◌, arith, Bool-cases, In-append_left, In-append_right, In-append_inv,
}
use warewulf.Common.Text.{Text, text_eq, text_eq_iff, text_le_total, text_le_trans}
use warewulf.Common.Maps.{Map, lookup, IsMap, lookup-some-In, In-lookup-some}
use warewulf.Common.Sort.{In-sort, sort-In, IsSorted, sort-IsSorted}
use warewulf.Overlaydiff.Types.{Entry, Change}
use warewulf.Overlaydiff.Compare.{compare_source, compare_baseline, compare_trees, path_le}
use warewulf.Overlaydiff.Compare.Apply.{
  Same, Same-refl, apply_all, lookup-apply_all, lookup-untouched,
}
use warewulf.Overlaydiff.Compare.Listed.{
  compare_source-In, compare_source-listed, compare_baseline-In, compare_baseline-listed,
}

In-compare_trees :
    (source baseline : Map Entry) (c : Change)
    → In c (compare_source source baseline) ⊎ In c (compare_baseline source baseline)
    → In c (compare_trees source baseline)
unfolding compare_trees
In-compare_trees source baseline c (inl i) =
    In-sort path_le c _ (In-append_left c (compare_source source baseline) _ i)
In-compare_trees source baseline c (inr i) =
    In-sort path_le c _ (In-append_right c (compare_source source baseline) _ i)

compare_trees-In :
    (source baseline : Map Entry) (c : Change)
    → In c (compare_trees source baseline)
    → In c (compare_source source baseline) ⊎ In c (compare_baseline source baseline)
unfolding compare_trees
compare_trees-In source baseline c i =
    In-append_inv c (compare_source source baseline) _ (sort-In path_le c _ i)

module _ (source baseline : Map Entry) (valid : IsMap source) where
  -- A change carries what the source holds at its path.
  compare_trees-source :
      (c : Change) → In c (compare_trees source baseline) → c.source ≡ lookup c.path source
  compare_trees-source c i = elim (compare_trees-In source baseline c i) [
    | inl j ↦
        let (s, m, e, n) = compare_source-In source baseline c j in
        e ∙ sym (In-lookup-some c.path s source valid m)
    | inr j ↦ let (b, m, n, e) = compare_baseline-In source baseline c j in e ∙ sym n
  ]

  -- A path with no change holds the same in both.
  unlisted :
      (k : Text) (o p : Option Entry)
      → lookup k source ≡ o
      → lookup k baseline ≡ p
      → ((c : Change) → In c (compare_trees source baseline) → c.path ≢ k)
      → Same p o
  unlisted k (some s) p e f no_change =
      elim (compare_source-listed source baseline k s (lookup-some-In k s source e)) [
        | inl (c, i, q) ↦ absurd (no_change c (In-compare_trees source baseline c (inl i)) q)
        | inr a ↦ subst (λ x. Same x (some s)) f a
      ]
  unlisted k none none e f no_change = tt
  unlisted k none (some b) e f no_change =
      let (c, i, q) =
        compare_baseline-listed source baseline k b (lookup-some-In k b baseline f) e in
      absurd (no_change c (In-compare_trees source baseline c (inr i)) q)

  abbrev listed : Text → Bool
  listed k = any (λ c. text_eq c.path k) (compare_trees source baseline)

  -- Applied to the baseline, in the order of the list, the changes give at every path the entry of
  -- the source, up to what `Compare` does not compare: the type, the mode, and the hash of a file
  -- or the target of a link agree, and a path of one is a path of the other. The source must be a
  -- map.
  pub compare_trees-Same :
      (k : Text)
      → Same (lookup k (apply_all (compare_trees source baseline) baseline)) (lookup k source)
  compare_trees-Same k = elim (Bool-cases (listed k)) [
    | inl e ↦
        let (c, i, t) =
          any-In (λ (c : Change). text_eq c.path k) (compare_trees source baseline) e in
        rw
          (lookup-apply_all (compare_trees source baseline) baseline k (lookup k source)
            (λ d j q. compare_trees-source d j ∙ ap (λ x. lookup x source) q)
            (inr (c, i, (text_eq_iff c.path k).0 t)))
          (Same-refl (lookup k source))
    | inr e ↦
        let no_change : (c : Change) → In c (compare_trees source baseline) → c.path ≢ k = λ c i q.
          absurd (
            ground (
              arith,
              e,
              text_eq_iff c.path k,
              In-any (λ (c : Change). text_eq c.path k) c (compare_trees source baseline) i,
            )) in
        rw (lookup-untouched (compare_trees source baseline) baseline k no_change)
          (unlisted k (lookup k source) (lookup k baseline) refl refl no_change)
  ]

  -- A change is listed only for a path at which the trees differ; both must be maps.
  pub compare_trees-differ :
      (valid_baseline : IsMap baseline) (c : Change)
      → In c (compare_trees source baseline)
      → ¬ Same (lookup c.path baseline) (lookup c.path source)
  compare_trees-differ valid_baseline c i = elim (compare_trees-In source baseline c i) [
    | inl j ↦
        let (s, m, e, n) = compare_source-In source baseline c j in
        rw (In-lookup-some c.path s source valid m) n
    | inr j ↦
        let (b, m, n, e) = compare_baseline-In source baseline c j in
        rw (n, In-lookup-some c.path b baseline valid_baseline m) (λ z. z)
  ]

-- The list is sorted by path.
pub compare_trees-IsSorted :
    (source baseline : Map Entry) → IsSorted path_le (compare_trees source baseline)
unfolding compare_trees
compare_trees-IsSorted source baseline =
    sort-IsSorted path_le (λ a b. text_le_total a.path b.path)
      (λ a b c. text_le_trans a.path b.path c.path)
      (compare_source source baseline ++ compare_baseline source baseline)
