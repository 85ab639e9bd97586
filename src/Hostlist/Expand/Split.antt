-- ===== src/Hostlist/Expand/Split.antt =====
-- Where `splitTopLevel` cuts.
use warewulf.Common.{
  ℕ, ◌+◌, ◌-◌, ◌≡◌, refl, sym, false, List, [], ◌∷◌, ◌++◌, append_assoc, append-nil, arith, ◌==◌,
  All, All-append, Bool-cases, inl, inr, ◌∙◌, ◌&&◌, Bool, if◌then◌else◌, subst,
}
use warewulf.Common.Text.{Text, codes, join}
use warewulf.Hostlist.Expand.{split_loop, split_top_level}

join_last :
    (ps : List Text) (p q sep : Text)
    → join (ps ++ p ∷ q ∷ []) sep ≡ join (ps ++ (p ++ (sep ++ q)) ∷ []) sep
unfolding join
join_last [] p q sep = refl
join_last (x ∷ []) p q sep = refl
join_last (x ∷ y ∷ ps) p q sep = rw (join_last (y ∷ ps) p q sep)

join-split_loop :
    (s : Text) (depth : ℕ) (cur : Text) (parts : List Text)
    → join (split_loop s depth cur parts) (b',' ∷ []) ≡ join (parts ++ (cur ++ s) ∷ []) (b',' ∷ [])
unfolding split_loop
join-split_loop [] depth cur parts = rw append-nil
join-split_loop (c ∷ s) depth cur parts = ground (
  arith,
  join-split_loop s (depth + 1) (cur ++ c ∷ []) parts,
  join-split_loop s (depth - 1) (cur ++ c ∷ []) parts,
  join-split_loop s depth (cur ++ c ∷ []) parts,
  join-split_loop s depth [] (parts ++ cur ∷ []),
  append_assoc cur (c ∷ []) s,
  append_assoc parts (cur ∷ []) (s ∷ []),
  join_last parts cur s (b',' ∷ []),
)

-- The parts joined with commas spell the whole pattern list again, for every text.
pub join-split_top_level : (s : Text) → join (split_top_level s) (codes ",") ≡ s
unfolding split_top_level
join-split_top_level s = join-split_loop s 0 [] [] ∙ unfold join in refl

-- Reading `cur` from the start leads to the depth `depth`, with no cut on the way.
abbrev Uncut : ℕ → Text → Type 0
Uncut depth cur = (t : Text) → split_loop (cur ++ t) 0 [] [] ≡ split_loop t depth cur []

Uncut-all : (depth : ℕ) (cur : Text) → Uncut depth cur → split_loop cur 0 [] [] ≡ cur ∷ []
unfolding split_loop
Uncut-all depth cur u = rw append-nil at (u [])

-- One round of the loop: a cut, or one more byte in the part and perhaps another depth.
abbrev cuts : ℕ → ℕ → Bool
cuts c depth = c == b',' && depth == 0

abbrev next_depth : ℕ → ℕ → ℕ
next_depth c depth = if c == b'[' then depth + 1 else if c == b']' then depth - 1 else depth

split_loop_step :
    (c : ℕ) (s : Text) (depth : ℕ) (cur : Text) (parts : List Text)
    → split_loop (c ∷ s) depth cur parts ≡ (
        if cuts c depth
        then split_loop s depth [] (parts ++ cur ∷ [])
        else split_loop s (next_depth c depth) (cur ++ c ∷ []) parts)
unfolding split_loop
split_loop_step c s depth cur parts = ground arith

Uncut-step :
    (c depth : ℕ) (cur : Text)
    → Uncut depth cur
    → cuts c depth ≡ false
    → Uncut (next_depth c depth) (cur ++ c ∷ [])
Uncut-step c depth cur u e t = rw append_assoc (u (c ∷ t) ∙ split_loop_step c t depth cur [] ∙ rw e)

split_loop_end :
    (depth : ℕ) (cur : Text) (parts : List Text) → split_loop [] depth cur parts ≡ parts ++ cur ∷ []
unfolding split_loop
split_loop_end depth cur parts = refl

abbrev IsPart : Text → Type 0
IsPart p = split_loop p 0 [] [] ≡ p ∷ []

Uncut-start : (depth : ℕ) → depth ≡ 0 → Uncut depth []
Uncut-start depth z t = rw z

split_loop-All :
    (s : Text) (depth : ℕ) (cur : Text) (parts : List Text)
    → Uncut depth cur
    → All IsPart parts
    → All IsPart (split_loop s depth cur parts)
split_loop-All [] depth cur parts u h =
    let last : All IsPart (cur ∷ []) = (Uncut-all depth cur u, tt) in
    let whole : All IsPart (parts ++ cur ∷ []) = All-append IsPart parts (cur ∷ []) h last in
    subst (All IsPart) (sym (split_loop_end depth cur parts)) whole
split_loop-All (c ∷ s) depth cur parts u h = elim (Bool-cases (cuts c depth)) [
  | inl e ↦ subst (All IsPart) (sym (split_loop_step c s depth cur parts ∙ rw e)) (
      split_loop-All s depth [] (parts ++ cur ∷ []) (Uncut-start depth (ground arith))
        (All-append IsPart parts (cur ∷ []) h (Uncut-all depth cur u, tt)))
  | inr e ↦
      subst (All IsPart) (sym (split_loop_step c s depth cur parts ∙ rw e))
        (split_loop-All s (next_depth c depth) (cur ++ c ∷ []) parts (Uncut-step c depth cur u e) h)
]

-- No part holds another comma outside brackets: splitting it gives itself alone.
pub split_top_level-All : (s : Text) → All (λ p. split_top_level p ≡ p ∷ []) (split_top_level s)
unfolding split_top_level
split_top_level-All s = split_loop-All s 0 [] [] (λ t. refl) tt
