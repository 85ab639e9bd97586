-- ===== src/Overlaydiff/Artifact/Selected.antt =====
-- The paths that `BuildArtifactManifest` writes, and the test of `ValidateArtifact` on their form.
use warewulf.Common.{
  ℕ, ◌≡◌, refl, sym, ◌∙◌, ap, subst, true, List, [], ◌∷◌, ◌++◌, arith, Bool-cases, inl, inr, ◌⊎◌,
  ◌↔◌, In, if◌then◌else◌, In-append_left, In-append_right, In-append_inv, ◌==◌,
}
use warewulf.Common.Text.{Text, text_eq_iff, contains, contains_iff, has_prefix, text_le}
use warewulf.Common.Sort.{sort_texts, IsSorted, sort_texts-IsSorted, In-sort_texts, sort_texts-In}
use warewulf.Overlaydiff.Paths.{trim_space, trim_left, trim_right, is_space, normalize_rel_path}
use warewulf.Overlaydiff.Artifact.{
  DecisionSummary, ArtifactManifest, normalize_selected, build_artifact_manifest, is_normalized,
}

trim_right-cons :
    (c : ℕ) (s : Text)
    → trim_right (c ∷ s)
      ≡ (elim (trim_right s) [ [] ↦ if is_space c then [] else c ∷ [] | d ∷ r ↦ c ∷ d ∷ r ])
unfolding trim_right
trim_right-cons c s = refl

trim_right_idem : (s : Text) → trim_right (trim_right s) ≡ trim_right s
unfolding trim_right
trim_right_idem [] = refl
trim_right_idem (c ∷ s) = go (trim_right s) refl (trim_right_idem s)
  where
    go :
        (t : Text)
        → trim_right s ≡ t
        → trim_right (trim_right s) ≡ trim_right s
        → trim_right (trim_right (c ∷ s)) ≡ trim_right (c ∷ s)
    go [] e ih = elim (Bool-cases (is_space c)) [
      | inl f ↦ rw (trim_right-cons c s, e, f) refl
      | inr f ↦ rw (trim_right-cons c s, e, f) (rw f refl)
    ]
    go (d ∷ r) e ih =
        let below : trim_right (d ∷ r) ≡ d ∷ r = subst (λ z. trim_right z ≡ z) e ih in
        rw (trim_right-cons c s, e) (trim_right-cons c (d ∷ r) ∙ rw below refl)

-- A path that ends with no space, made absolute, is left alone by the trimming.
trim_space-rooted :
    (p : Text) → trim_right p ≡ p → trim_space (normalize_rel_path p) ≡ normalize_rel_path p
unfolding trim_space trim_left trim_right normalize_rel_path has_prefix
trim_space-rooted [] h = refl
trim_space-rooted (c ∷ s) h = elim (Bool-cases (c == b'/')) [
  | inl e ↦
      let same : c ≡ b'/' = ground (arith, e) in
      let kept : trim_right (b'/' ∷ s) ≡ b'/' ∷ s =
        subst (λ z. trim_right (z ∷ s) ≡ z ∷ s) same h in
      subst (λ z. trim_space (normalize_rel_path (z ∷ s)) ≡ normalize_rel_path (z ∷ s)) (sym same)
        kept
  | inr e ↦ rw e (rw h refl)
]

normalize_rel_path_idem :
    (p : Text) → normalize_rel_path (normalize_rel_path p) ≡ normalize_rel_path p
unfolding normalize_rel_path has_prefix
normalize_rel_path_idem [] = refl
normalize_rel_path_idem (c ∷ s) = elim (Bool-cases (c == b'/')) [
  | inl e ↦ rw e (rw e refl)
  | inr e ↦ rw e refl
]

selected-normalized : (value : Text) → is_normalized (normalize_rel_path (trim_space value)) ≡ true
unfolding is_normalized
selected-normalized value = (text_eq_iff _ _).1 (
    ap normalize_rel_path (trim_space-rooted (trim_space value) (fixed value))
    ∙ normalize_rel_path_idem (trim_space value))
  where
    fixed : (value : Text) → trim_right (trim_space value) ≡ trim_space value
    fixed value = unfold trim_space in trim_right_idem (trim_left value)

abbrev pub Normalizes : List Text → Text → Type 0
Normalizes selected p =
    (value : Text) × In value selected × (normalize_rel_path (trim_space value) ≡ p)

normalize_selected-In :
    (p : Text) (selected normalized : List Text)
    → In p (normalize_selected selected normalized) ↔ (In p normalized ⊎ Normalizes selected p)
unfolding normalize_selected
normalize_selected-In p [] normalized = (inl, λ i. elim i [ inl j ↦ j | inr (v, f, e) ↦ absurd f ])
normalize_selected-In p (value ∷ selected) normalized =
    elim (Bool-cases (contains normalized path)) [
      | inl e ↦
          let rest = normalize_selected-In p selected normalized in
          rw e (
            λ i. elim (rest.0 i) [ inl j ↦ inl j | inr (v, j, q) ↦ inr (v, inr j, q) ],
            λ i. rest.1 (elim i [
              | inl j ↦ inl j
              | inr (v, inl q, r) ↦ inl (
                  subst (λ z. In z normalized) (ap (λ z. normalize_rel_path (trim_space z)) q ∙ r)
                    ((contains_iff normalized path).0 e))
              | inr (v, inr j, q) ↦ inr (v, j, q)
            ]),
          )
      | inr e ↦
          let rest = normalize_selected-In p selected (normalized ++ path ∷ []) in
          rw e (
            λ i. elim (rest.0 i) [
              | inl j ↦ elim (In-append_inv p normalized (path ∷ []) j) [
                | inl k ↦ inl k
                | inr (inl q) ↦ inr (value, inl refl, q)
                | inr (inr f) ↦ absurd f
              ]
              | inr (v, j, q) ↦ inr (v, inr j, q)
            ],
            λ i. rest.1 (elim i [
              | inl j ↦ inl (In-append_left p normalized _ j)
              | inr (v, inl q, r) ↦ inl (
                  In-append_right p normalized _
                    (inl (ap (λ z. normalize_rel_path (trim_space z)) q ∙ r)))
              | inr (v, inr j, q) ↦ inr (v, j, q)
            ]),
          )
    ]
  where
    path : Text
    path = normalize_rel_path (trim_space value)

abbrev pub SelectedFits : List Text → ArtifactManifest → Type 0
SelectedFits selected manifest =
    IsSorted text_le manifest.selected_paths
    × ((p : Text) → In p manifest.selected_paths ↔ Normalizes selected p)
    × ((p : Text) → In p manifest.selected_paths → is_normalized p ≡ true)

-- The paths in the manifest of `BuildArtifactManifest` are sorted, they are just the paths given,
-- trimmed and made absolute, and each passes the test of `ValidateArtifact` on its form.
pub build_artifact_manifest_lem :
    (now : ℕ) (overlay_name source_root node_source : Text) (selected : List Text)
    (summary : DecisionSummary)
    → SelectedFits selected
        (build_artifact_manifest now overlay_name source_root node_source selected summary)
unfolding build_artifact_manifest
build_artifact_manifest_lem now overlay_name source_root node_source selected summary = (
  sort_texts-IsSorted (normalize_selected selected []),
  exact,
  λ p i.
      let (v, j, e) = (exact p).0 i in
      subst (λ z. is_normalized z ≡ true) e (selected-normalized v),
)
  where
    exact : (p : Text) → In p (sort_texts (normalize_selected selected [])) ↔ Normalizes selected p
    exact p = (
      λ i. elim ((normalize_selected-In p selected []).0 (sort_texts-In p _ i)) [
        | inl j ↦ absurd j
        | inr n ↦ n
      ],
      λ n. In-sort_texts p _ ((normalize_selected-In p selected []).1 (inr n)),
    )
