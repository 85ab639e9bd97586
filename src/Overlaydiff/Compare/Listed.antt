-- ===== src/Overlaydiff/Compare/Listed.antt =====
-- Which changes `Compare` lists.
use warewulf.Common.{
  ◌≡◌, refl, sym, subst, subst₂, ap, ◌∙◌, false, [], ◌∷◌, Option, none, some, ◌==◌, ==_iff, In, inl,
  inr, ◌⊎◌, arith, Bool-cases, Option-cases, In-append_left, In-append_right, In-append_inv,
}
use warewulf.Common.Text.{Text, text_eq, text_eq_iff}
use warewulf.Common.Maps.{Map, lookup}
use warewulf.Overlaydiff.Types.{
  Entry, Change, entry_file, entry_symlink, change_type_changed, change_modified,
  change_mode_changed, change_added, change_removed,
}
use warewulf.Overlaydiff.Compare.{
  entry_modified, new_change, compare_entry, compare_source, compare_baseline,
}
use warewulf.Overlaydiff.Compare.Apply.{Alike, Same}

-- The content differs just where `entryModified` says so, for entries of one type.
entry_modified-Alike :
    (s b : Entry) → s.type ≡ b.type → entry_modified s b ≡ false → s.mode ≡ b.mode → Alike b s
unfolding entry_modified
entry_modified-Alike s b t m e = record {
  type = sym t;
  mode = sym e;
  hash = λ f. ground (arith, text_eq_iff s.type entry_file, text_eq_iff s.hash b.hash);
  link_target = λ f. ground (
    arith,
    text_eq_iff s.type entry_file,
    text_eq_iff s.type entry_symlink,
    text_eq_iff s.link_target b.link_target,
  );
}

Alike-entry_modified : (s b : Entry) → Alike b s → entry_modified s b ≡ false
unfolding entry_modified
Alike-entry_modified s b a = ground (
  arith,
  text_eq_iff s.type entry_file,
  text_eq_iff s.type entry_symlink,
  text_eq_iff s.hash b.hash,
  text_eq_iff s.link_target b.link_target,
  a.hash,
  a.link_target,
  a.type,
)

-- Of two entries at one path: one change and a difference, or no change and none.
compare_entry-cases :
    (k : Text) (s b : Entry)
    → ((ct : Text) × (compare_entry k s (some b) ≡ new_change k ct (some s) (some b) ∷ [])
        × (¬ Alike b s))
      ⊎ ((compare_entry k s (some b) ≡ []) × Alike b s)
unfolding compare_entry
compare_entry-cases k s b = elim (Bool-cases (text_eq s.type b.type)) [
  | inr t ↦
      inl
        (change_type_changed, rw t, λ a. absurd (ground (arith, text_eq_iff s.type b.type, a.type)))
  | inl t ↦ elim (Bool-cases (entry_modified s b)) [
    | inl m ↦
        inl (change_modified, rw (t, m), λ a. absurd (ground (arith, Alike-entry_modified s b a)))
    | inr m ↦ elim (Bool-cases (s.mode == b.mode)) [
      | inr e ↦ inl (change_mode_changed, rw (t, m, e), λ a. absurd (ground (arith, a.mode)))
      | inl e ↦ inr (
        rw (t, m, e),
        entry_modified-Alike s b ((text_eq_iff s.type b.type).0 t) m ((==_iff s.mode b.mode).0 e),
      )
    ]
  ]
]

new_change-path : (k ct : Text) (s b : Option Entry) → (new_change k ct s b).path ≡ k
unfolding new_change
new_change-path k ct (some s) b = refl
new_change-path k ct none (some b) = refl
new_change-path k ct none none = refl

new_change-source : (k ct : Text) (s b : Option Entry) → (new_change k ct s b).source ≡ s
unfolding new_change
new_change-source k ct (some s) b = refl
new_change-source k ct none (some b) = refl
new_change-source k ct none none = refl

only_change :
    (k ct : Text) (s b : Option Entry) (c : Change)
    → In c (new_change k ct s b ∷ [])
    → (c.path ≡ k) × (c.source ≡ s)
only_change k ct s b c (inl q) = (
  ap (λ (x : Change). x.path) (sym q) ∙ new_change-path k ct s b,
  ap (λ (x : Change). x.source) (sym q) ∙ new_change-source k ct s b,
)
only_change k ct s b c (inr i) = absurd i

compare_entry-In :
    (k : Text) (s : Entry) (o : Option Entry) (c : Change)
    → In c (compare_entry k s o)
    → (c.path ≡ k) × (c.source ≡ some s) × (¬ Same o (some s))
compare_entry-In k s none c i =
    let (p, e) = only_change k change_added (some s) none c (unfold compare_entry in i) in
    (p, e, λ z. z)
compare_entry-In k s (some b) c i = elim (compare_entry-cases k s b) [
  | inl (ct, e, n) ↦
      let (p, q) = only_change k ct (some s) (some b) c (subst (In c) e i) in (p, q, n)
  | inr (e, a) ↦ absurd (subst (In c) e i)
]

compare_entry-nil :
    (k : Text) (s : Entry) (o : Option Entry)
    → ((c : Change) × In c (compare_entry k s o) × (c.path ≡ k)) ⊎ Same o (some s)
compare_entry-nil k s none = inl (
  new_change k change_added (some s) none,
  unfold compare_entry in inl refl,
  new_change-path k change_added (some s) none,
)
compare_entry-nil k s (some b) = elim (compare_entry-cases k s b) [
  | inl (ct, e, n) ↦ inl (
    new_change k ct (some s) (some b),
    subst (In _) (sym e) (inl refl),
    new_change-path k ct (some s) (some b),
  )
  | inr (e, a) ↦ inr a
]

pub compare_source-In :
    (source baseline : Map Entry) (c : Change)
    → In c (compare_source source baseline)
    → (s : Entry) × In (c.path, s) source
      × (c.source ≡ some s)
      × (¬ Same (lookup c.path baseline) (some s))
unfolding compare_source
compare_source-In [] baseline c i = absurd i
compare_source-In ((k, s) ∷ source) baseline c i =
    elim (In-append_inv c (compare_entry k s (lookup k baseline)) _ i) [
      | inl j ↦
          let (p, e, n) = compare_entry-In k s (lookup k baseline) c j in
          (s, inl (ap (λ t. (t, s)) (sym p)), e, rw p n)
      | inr j ↦ let (s', j', e, n) = compare_source-In source baseline c j in (s', inr j', e, n)
    ]

pub compare_source-listed :
    (source baseline : Map Entry) (k : Text) (s : Entry)
    → In (k, s) source
    → ((c : Change) × In c (compare_source source baseline) × (c.path ≡ k))
      ⊎ Same (lookup k baseline) (some s)
unfolding compare_source
compare_source-listed [] baseline k s i = absurd i
compare_source-listed ((j, t) ∷ source) baseline k s (inr i) =
    elim (compare_source-listed source baseline k s i) [
      | inl (c, m, p) ↦ inl (c, In-append_right c (compare_entry j t (lookup j baseline)) _ m, p)
      | inr a ↦ inr a
    ]
compare_source-listed ((j, t) ∷ source) baseline k s (inl q) =
    let jk : j ≡ k = ap (λ (x : Text × Entry). x.0) q in
    let ts : t ≡ s = ap (λ (x : Text × Entry). x.1) q in
    elim (compare_entry-nil j t (lookup j baseline)) [
      | inl (c, m, p) ↦
          inl (c, In-append_left c (compare_entry j t (lookup j baseline)) _ m, p ∙ jk)
      | inr a ↦ inr (subst₂ (λ x y. Same (lookup x baseline) (some y)) jk ts a)
    ]

-- One round of the second loop.
compare_baseline_known :
    (source baseline : Map Entry) (k : Text) (b s : Entry)
    → lookup k source ≡ some s
    → compare_baseline source ((k, b) ∷ baseline) ≡ compare_baseline source baseline
unfolding compare_baseline
compare_baseline_known source baseline k b s e = rw (e, compare_baseline)

compare_baseline_lost :
    (source baseline : Map Entry) (k : Text) (b : Entry)
    → lookup k source ≡ none
    → compare_baseline source ((k, b) ∷ baseline)
      ≡ new_change k change_removed none (some b) ∷ compare_baseline source baseline
unfolding compare_baseline
compare_baseline_lost source baseline k b e = rw (e, compare_baseline)

pub compare_baseline-In :
    (source baseline : Map Entry) (c : Change)
    → In c (compare_baseline source baseline)
    → (b : Entry) × In (c.path, b) baseline × (lookup c.path source ≡ none) × (c.source ≡ none)
compare_baseline-In source [] c i = absurd (unfold compare_baseline in i)
compare_baseline-In source ((k, b) ∷ baseline) c i = elim (Option-cases (lookup k source)) [
  | inr (s, e) ↦
      let (b', j, n, o) =
        compare_baseline-In source baseline c
          (subst (In c) (compare_baseline_known source baseline k b s e) i) in
      (b', inr j, n, o)
  | inl e ↦
      let i' : In c (new_change k change_removed none (some b) ∷ compare_baseline source baseline) =
        subst (In c) (compare_baseline_lost source baseline k b e) i in
      elim i' [
        | inl q ↦
            let (p, o) = only_change k change_removed none (some b) c (inl q) in
            (b, inl (ap (λ t. (t, b)) (sym p)), rw p e, o)
        | inr j ↦ let (b', j', n, o) = compare_baseline-In source baseline c j in (b', inr j', n, o)
      ]
]

pub compare_baseline-listed :
    (source baseline : Map Entry) (k : Text) (b : Entry)
    → In (k, b) baseline
    → lookup k source ≡ none
    → (c : Change) × In c (compare_baseline source baseline) × (c.path ≡ k)
compare_baseline-listed source [] k b i n = absurd i
compare_baseline-listed source ((j, b') ∷ baseline) k b (inl q) n =
    let jk : j ≡ k = ap (λ (x : Text × Entry). x.0) q in
    let e : lookup j source ≡ none = rw jk n in
    rw (compare_baseline_lost source baseline j b' e) (
      new_change j change_removed none (some b'),
      inl refl,
      new_change-path j change_removed none (some b') ∙ jk,
    )
compare_baseline-listed source ((j, b') ∷ baseline) k b (inr i) n =
    let (c, m, p) = compare_baseline-listed source baseline k b i n in
    elim (Option-cases (lookup j source)) [
      | inr (s, e) ↦ rw (compare_baseline_known source baseline j b' s e) (c, m, p)
      | inl e ↦ rw (compare_baseline_lost source baseline j b' e) (c, inr m, p)
    ]
