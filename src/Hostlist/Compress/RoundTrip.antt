-- ===== src/Hostlist/Compress/RoundTrip.antt =====
-- What `Expand` makes of a group of numbered names that `Compress` writes.
use warewulf.Common.{
  ℕ, suc, ◌+◌, ◌≡◌, ◌≢◌, refl, List, [], ◌∷◌, ◌++◌, arith, ◌==◌, some, none, All, All-append, ◌∙◌,
  ap, append_assoc, append-nil, map, Bool-cases, inl, inr,
}
use warewulf.Common.Text.{Text, codes, split, join}
use warewulf.Hostlist.Numbers.{pad}
use warewulf.Hostlist.Expand.{
  bracket_span, expand_hosts, expand_once, more, expand_ranges, add_numbers, opens, opens_all,
  pre_list, expand_loop, expand_brackets, done,
}
use warewulf.Hostlist.Expand.Bracket.{opens-append}
use warewulf.Hostlist.Expand.Loop.{expand_hosts-Whole}
use warewulf.Hostlist.Compress.{collapse, flush, render_nums}
use warewulf.Hostlist.Compress.Ranges.{Fits, expand_ranges-collapse}
use warewulf.Hostlist.Compress.Plain.{
  IsInner, IsPlain, IsPlain-IsInner, pad-IsPlain, Lacks, IsPlain-Lacks_comma, split-join,
  IsInner-Lacks_open, opens-Lacks,
}
use warewulf.Hostlist.Compress.Bracket.{
  bracketed, split_top_level-bracketed, expand_host-bracketed, IsKept, IsPlain-IsKept,
}

-- The names of a group, a number each.
abbrev pub names : Text → ℕ → List ℕ → List Text
names prefix w nums = map (λ k. prefix ++ pad w k) nums

add_numbers-names :
    (prefix : Text) (w : ℕ) (nums : List ℕ) (r : List Text)
    → add_numbers prefix [] w nums r ≡ r ++ names prefix w nums
unfolding add_numbers
add_numbers-names prefix w [] r = rw append-nil
add_numbers-names prefix w (k ∷ nums) r =
    add_numbers-names prefix w nums (r ++ (prefix ++ (pad w k ++ [])) ∷ [])
    ∙ rw (append-nil (pad w k)) (append_assoc r ((prefix ++ pad w k) ∷ []) (names prefix w nums))

flush-All :
    (w start prev : ℕ) (ranges : List Text)
    → All IsPlain ranges
    → All IsPlain (flush w start prev ranges)
unfolding flush
flush-All w start prev ranges h = elim (Bool-cases (start == prev)) [
  | inl e ↦ rw e (All-append IsPlain ranges _ h (pad-IsPlain w start, tt))
  | inr e ↦ rw e (
      All-append IsPlain ranges _ h
        (All-append _ (pad w start) _ (pad-IsPlain w start) (omega arith, pad-IsPlain w prev), tt))
]

collapse-All :
    (w start prev : ℕ) (vs : List ℕ) (ranges : List Text)
    → All IsPlain ranges
    → All IsPlain (collapse w start prev vs ranges)
unfolding collapse
collapse-All w start prev [] ranges h = flush-All w start prev ranges h
collapse-All w start prev (v ∷ vs) ranges h = elim (Bool-cases (v == prev + 1)) [
  | inl e ↦ rw e (collapse-All w start v vs ranges h)
  | inr e ↦ rw e (collapse-All w v v vs _ (flush-All w start prev ranges h))
]

flush-ne-nil : (w start prev : ℕ) (ranges : List Text) → flush w start prev ranges ≢ []
unfolding flush
flush-ne-nil w start prev [] = ground arith
flush-ne-nil w start prev (r ∷ ranges) = ground arith

collapse-ne-nil :
    (w start prev : ℕ) (vs : List ℕ) (ranges : List Text) → collapse w start prev vs ranges ≢ []
unfolding collapse
collapse-ne-nil w start prev [] ranges = flush-ne-nil w start prev ranges
collapse-ne-nil w start prev (v ∷ vs) ranges = ground (
  arith,
  collapse-ne-nil w start v vs ranges,
  collapse-ne-nil w v v vs (flush w start prev ranges),
)

join-IsInner : (rs : List Text) → All IsPlain rs → IsInner (join rs (codes ","))
unfolding join
join-IsInner [] h = tt
join-IsInner (r ∷ []) h = IsPlain-IsInner r h.0
join-IsInner (r ∷ q ∷ rs) h =
    All-append _ r _ (IsPlain-IsInner r h.0) (omega arith, join-IsInner (q ∷ rs) h.1)

All-Lacks : (rs : List Text) → All IsPlain rs → All (Lacks b',') rs
All-Lacks [] h = tt
All-Lacks (r ∷ rs) h = (IsPlain-Lacks_comma r h.0, All-Lacks rs h.1)

split-join_ranges :
    (rs : List Text) → rs ≢ [] → All IsPlain rs → split (join rs (codes ",")) b',' ≡ rs
split-join_ranges [] n h = absurd (n refl)
split-join_ranges (r ∷ rs) n h = split-join r rs b',' (All-Lacks (r ∷ rs) h)

names-Kept :
    (prefix : Text) (w : ℕ) (nums : List ℕ) → IsPlain prefix → All IsKept (names prefix w nums)
names-Kept prefix w [] h = tt
names-Kept prefix w (k ∷ nums) h = (
  IsPlain-IsKept _ (All-append _ prefix (pad w k) h (pad-IsPlain w k)),
  names-Kept prefix w nums h,
)

Kept-Whole : (hs : List Text) → All IsKept hs → All (λ h. bracket_span h ≡ none) hs
Kept-Whole [] h = tt
Kept-Whole (x ∷ hs) h = (h.0.1, Kept-Whole hs h.1)

-- On names without brackets the loop stops at once, on any fuel but none.
expand_loop-Kept : (f : ℕ) (hs : List Text) → All IsKept hs → expand_loop (suc f) hs ≡ done hs
unfolding expand_loop expand_once
expand_loop-Kept f hs h =
    rw (expand_hosts-Whole hs [] 0 (Kept-Whole hs h), expand_loop, expand_once)

-- A single name is written plainly and read back as it is.
expand_brackets-Kept : (s : Text) → IsKept s → expand_brackets (s ∷ []) ≡ done (s ∷ [])
unfolding expand_brackets pre_list
expand_brackets-Kept s h = rw (h.0, pre_list) (expand_loop-Kept _ (s ∷ []) (h, tt))

opens-bracketed :
    (prefix mid : Text) → IsPlain prefix → IsInner mid → opens (bracketed prefix mid) ≡ 1
unfolding opens
opens-bracketed prefix mid p i = omega (
  arith,
  opens-append prefix (b'[' ∷ (mid ++ codes "]")),
  opens-append mid (codes "]"),
  opens-Lacks prefix (IsInner-Lacks_open prefix (IsPlain-IsInner prefix p)),
  opens-Lacks mid (IsInner-Lacks_open mid i),
)

-- One round takes the brackets away, and the next one ends the loop.
expand_loop-bracketed :
    (f : ℕ) (prefix mid : Text) (hs : List Text)
    → IsPlain prefix
    → IsInner mid
    → expand_ranges prefix [] (split mid b',') [] ≡ more hs
    → All IsKept hs
    → expand_loop (suc (suc f)) (bracketed prefix mid ∷ []) ≡ done hs
unfolding expand_loop expand_once expand_hosts
expand_loop-bracketed f prefix mid hs p i e k =
    rw (expand_host-bracketed prefix mid p i [], expand_loop, expand_once, expand_hosts)
      (rw (e, expand_loop, expand_once, expand_hosts) (expand_loop-Kept f hs k))

-- A group of numbered names that `Compress` writes is expanded by `Expand` to those names, in the
-- order of the numbers given: if the prefix holds no bracket and no comma, and each number is
-- below the largest `int` and no wider than the group.
pub expand_brackets-render_nums :
    (prefix : Text) (w n : ℕ) (nums : List ℕ)
    → IsPlain prefix
    → All (Fits w) (n ∷ nums)
    → (part : Text) × (render_nums prefix w (n ∷ nums) ≡ some part)
      × (expand_brackets (part ∷ []) ≡ done (names prefix w (n ∷ nums)))
expand_brackets-render_nums prefix w n [] p h = (
  prefix ++ pad w n,
  unfold render_nums in refl,
  expand_brackets-Kept _ (IsPlain-IsKept _ (All-append _ prefix (pad w n) p (pad-IsPlain w n))),
)
expand_brackets-render_nums prefix w n (m ∷ nums) p h =
    (bracketed prefix mid, unfold render_nums in refl, run)
  where
    ranges : List Text
    ranges = collapse w n n (m ∷ nums) []

    mid : Text
    mid = join ranges (codes ",")

    inner : IsInner mid
    inner = join-IsInner ranges (collapse-All w n n (m ∷ nums) [] tt)

    back : expand_ranges prefix [] (split mid b',') [] ≡ more (names prefix w (n ∷ m ∷ nums))
    back =
        rw
          (split-join_ranges ranges (collapse-ne-nil w n n (m ∷ nums) [])
            (collapse-All w n n (m ∷ nums) [] tt))
          (expand_ranges-collapse prefix [] w n (m ∷ nums) [] h
            ∙ ap more (add_numbers-names prefix w (n ∷ m ∷ nums) []))

    run : expand_brackets (bracketed prefix mid ∷ []) ≡ done (names prefix w (n ∷ m ∷ nums))
    run =
        unfold expand_brackets pre_list opens_all in
        rw (split_top_level-bracketed prefix mid p inner) (
          rw (opens-bracketed prefix mid p inner) (
            expand_loop-bracketed 0 prefix mid _ p inner back
              (names-Kept prefix w (n ∷ m ∷ nums) p)))
