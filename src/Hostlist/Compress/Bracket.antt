-- ===== src/Hostlist/Compress/Bracket.antt =====
-- How `Expand` reads the brackets of a group that `Compress` writes.
use warewulf.Common.{
  ◌+◌, ◌-◌, ◌≡◌, ◌≢◌, true, List, [], ◌∷◌, ◌++◌, arith, length, some, none, take, drop, All-append,
  ◌∙◌, length-append, append_assoc, append-nil, ltb,
}
use warewulf.Common.Text.{Text, codes, split}
use warewulf.Hostlist.Expand.{
  split_loop, split_top_level, index, bracket_span, expand_host, expand_ranges, opens,
}
use warewulf.Hostlist.Compress.Plain.{
  IsInner, IsPlain, IsPlain-IsInner, split_loop-IsPlain, split_loop-IsInner, Lacks,
  IsInner-Lacks_open, IsInner-Lacks_close, index-Lacks, index-append, opens-Lacks, take-length,
  drop-suc_length,
}

-- `prefix[mid]`
abbrev pub bracketed : Text → Text → Text
bracketed prefix mid = prefix ++ (b'[' ∷ (mid ++ codes "]"))

module _ (prefix mid : Text) (plain : IsPlain prefix) (inner : IsInner mid) where
  split_loop_inside :
      (cur : Text)
      → split_loop (b'[' ∷ (mid ++ codes "]")) 0 cur [] ≡ (cur ++ (b'[' ∷ (mid ++ codes "]"))) ∷ []
  split_loop_inside cur =
      unfold split_loop in
      split_loop-IsInner mid (codes "]") (cur ++ b'[' ∷ []) [] inner
      ∙ rw (append_assoc, append_assoc)

  -- The brackets keep the group together.
  pub split_top_level-bracketed : split_top_level (bracketed prefix mid) ≡ bracketed prefix mid ∷ []
  unfolding split_top_level
  split_top_level-bracketed =
      split_loop-IsPlain prefix (b'[' ∷ (mid ++ codes "]")) [] [] plain ∙ split_loop_inside prefix

  regrouped : bracketed prefix mid ≡ (prefix ++ (b'[' ∷ mid)) ++ (b']' ∷ [])
  regrouped = rw append_assoc

  Lacks-before_close : Lacks b']' (prefix ++ (b'[' ∷ mid))
  Lacks-before_close =
      All-append (λ c. c ≢ b']') prefix (b'[' ∷ mid)
        (IsInner-Lacks_close prefix (IsPlain-IsInner prefix plain))
        (omega arith, IsInner-Lacks_close mid inner)

  index-open : index (bracketed prefix mid) b'[' ≡ some (length prefix)
  index-open =
      index-append prefix (mid ++ codes "]") b'['
        (IsInner-Lacks_open prefix (IsPlain-IsInner prefix plain))

  index-close : index (bracketed prefix mid) b']' ≡ some (length (prefix ++ (b'[' ∷ mid)))
  index-close = rw regrouped (index-append (prefix ++ (b'[' ∷ mid)) [] b']' Lacks-before_close)

  bracket_span-bracketed :
      bracket_span (bracketed prefix mid) ≡ some (length prefix, length (prefix ++ (b'[' ∷ mid)))
  unfolding bracket_span
  bracket_span-bracketed =
      let longer : ltb (length prefix) (length (prefix ++ (b'[' ∷ mid))) ≡ true =
        ground (arith, length-append prefix (b'[' ∷ mid)) in
      rw (index-open, bracket_span) (rw (index-close, longer))

  -- What stands between the brackets.
  between :
      take
        (length (prefix ++ (b'[' ∷ mid)) - (length prefix + 1))
        (drop (length prefix + 1) (bracketed prefix mid))
      ≡ mid
  between =
      let count : length (prefix ++ (b'[' ∷ mid)) - (length prefix + 1) ≡ length mid =
        omega (arith, length-append prefix (b'[' ∷ mid)) in
      rw (count, drop-suc_length prefix (mid ++ codes "]") b'[') (take-length mid (codes "]"))

  behind : drop (length (prefix ++ (b'[' ∷ mid)) + 1) (bracketed prefix mid) ≡ []
  behind = rw regrouped (drop-suc_length (prefix ++ (b'[' ∷ mid)) [] b']')

  pub expand_host-bracketed :
      (result : List Text)
      → expand_host (bracketed prefix mid) result
        ≡ some (expand_ranges prefix [] (split mid b',') result)
  unfolding expand_host
  expand_host-bracketed result =
      rw (bracket_span-bracketed, expand_host)
        (rw (take-length prefix (b'[' ∷ (mid ++ codes "]")), between, behind))

-- A text without brackets is kept.
abbrev pub IsKept : Text → Type 0
IsKept s = (split_top_level s ≡ s ∷ []) × (bracket_span s ≡ none) × (opens s ≡ 0)

pub IsPlain-IsKept : (s : Text) → IsPlain s → IsKept s
IsPlain-IsKept s h = (one_part, whole, opens-Lacks s (IsInner-Lacks_open s (IsPlain-IsInner s h)))
  where
    one_part : split_top_level s ≡ s ∷ []
    one_part =
        unfold split_top_level split_loop in rw append-nil at (split_loop-IsPlain s [] [] [] h)

    whole : bracket_span s ≡ none
    whole =
        unfold bracket_span in
        rw (index-Lacks s b'[' (IsInner-Lacks_open s (IsPlain-IsInner s h)), bracket_span)
