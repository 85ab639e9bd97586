-- ===== src/Hostlist/Compress/Ranges.antt =====
-- What `expandOnce` makes of the ranges that `Compress` writes for a group.
use Prim.Native.Nat.{◌≤◌, ◌<◌}
use warewulf.Common.{
  ℕ, zero, suc, ◌+◌, ◌-◌, ◌≡◌, refl, true, List, [], ◌∷◌, ◌++◌, arith, length, ◌==◌, ltb, ==_iff,
  All, Bool-cases, inl, inr, ◌∙◌, ap, append_assoc, append-nil,
}
use warewulf.Common.Text.{Text, split}
use warewulf.Hostlist.Numbers.{max_int, is_digit, pad}
use warewulf.Hostlist.Numbers.Decimal.{is_digit-pad, to_int-pad}
use warewulf.Hostlist.Expand.{
  Progress, more, abort, hang, numbers, add_numbers, count_range, expand_parts, expand_ranges,
}
use warewulf.Hostlist.Compress.{flush, collapse}

-- A text of digits holds no dash.
split-digits : (s : Text) → is_digit s ≡ true → split s b'-' ≡ s ∷ []
unfolding split is_digit
split-digits [] h = refl
split-digits (c ∷ s) h = ground (arith, split-digits s)

split-dash :
    (s t : Text) → is_digit s ≡ true → is_digit t ≡ true → split (s ++ (b'-' ∷ t)) b'-' ≡ s ∷ t ∷ []
unfolding split is_digit
split-dash [] t h k = ground (arith, split-digits t k)
split-dash (c ∷ s) t h k = ground (arith, split-dash s t)

module _ (prefix suffix : Text) where
  add_numbers-append :
      (w : ℕ) (xs ys : List ℕ) (r : List Text)
      → add_numbers prefix suffix w (xs ++ ys) r
        ≡ add_numbers prefix suffix w ys (add_numbers prefix suffix w xs r)
  unfolding add_numbers
  add_numbers-append w [] ys r = refl
  add_numbers-append w (x ∷ xs) ys r = add_numbers-append w xs ys _

  expand_ranges-append :
      (rs : List Text) (t : Text) (res r : List Text)
      → expand_ranges prefix suffix rs res ≡ more r
      → expand_ranges prefix suffix (rs ++ t ∷ []) res ≡ expand_ranges prefix suffix (t ∷ []) r
  unfolding expand_ranges
  expand_ranges-append [] t res r e = cc_more e
    where
      cc_more :
          more res ≡ more r
          → expand_ranges prefix suffix (t ∷ []) res ≡ expand_ranges prefix suffix (t ∷ []) r
      cc_more h = cc
  expand_ranges-append (rng ∷ rs) t res r e =
      go (expand_parts prefix suffix (split rng b'-') res) e (expand_ranges-append rs t)
    where
      go :
          (p : Progress)
          → elim p [ more q ↦ expand_ranges prefix suffix rs q | abort q ↦ abort q | hang ↦ hang ]
            ≡ more r
          → ((res' r' : List Text)
              → expand_ranges prefix suffix rs res' ≡ more r'
              → expand_ranges prefix suffix (rs ++ t ∷ []) res'
                ≡ expand_ranges prefix suffix (t ∷ []) r')
          → elim p [
            | more q ↦ expand_ranges prefix suffix (rs ++ t ∷ []) q
            | abort q ↦ abort q
            | hang ↦ hang
          ]
            ≡ expand_ranges prefix suffix (t ∷ []) r
      go (more q) e ih = ih q r e
      go (abort q) e ih = cc
      go hang e ih = cc

  expand_single :
      (w k : ℕ) (r : List Text)
      → expand_ranges prefix suffix (pad w k ∷ []) r
        ≡ more (add_numbers prefix suffix w (numbers 1 k) r)
  unfolding expand_ranges expand_parts add_numbers numbers
  expand_single w k r =
      rw (split-digits (pad w k) (is_digit-pad w k), expand_ranges) (rw (is_digit-pad w k))

  expand_span :
      (w start prev : ℕ) (r : List Text)
      → prev < max_int
      → start ≤ prev
      → length (pad w start) ≡ w
      → expand_ranges prefix suffix ((pad w start ++ (b'-' ∷ pad w prev)) ∷ []) r
        ≡ more (add_numbers prefix suffix w (numbers (prev + 1 - start) start) r)
  unfolding expand_ranges expand_parts count_range
  expand_span w start prev r lt le len =
      let fits : ltb prev max_int ≡ true = ground arith in
      rw
        (
          split-dash (pad w start) (pad w prev) (is_digit-pad w start) (is_digit-pad w prev),
          expand_ranges,
        )
        (rw (
          is_digit-pad w start,
          is_digit-pad w prev,
          to_int-pad w start (omega arith),
          to_int-pad w prev (omega arith),
          len,
          fits,
        ))

  -- Reading back the one range from `start` to `prev`.
  expand_ranges-flush :
      (w start prev : ℕ) (ranges res r : List Text)
      → start ≤ prev
      → prev < max_int
      → length (pad w start) ≡ w
      → expand_ranges prefix suffix ranges res ≡ more r
      → expand_ranges prefix suffix (flush w start prev ranges) res
        ≡ more (add_numbers prefix suffix w (numbers (prev + 1 - start) start) r)
  unfolding flush
  expand_ranges-flush w start prev ranges res r le lt len e = elim (Bool-cases (start == prev)) [
    | inl s ↦
        let one : prev + 1 - start ≡ 1 = ground arith in
        rw (s, one) (expand_ranges-append ranges _ res r e ∙ expand_single w start r)
    | inr s ↦ rw s (expand_ranges-append ranges _ res r e ∙ expand_span w start prev r lt le len)
  ]

numbers_last : (n i : ℕ) → numbers (suc n) i ≡ numbers n i ++ (i + n) ∷ []
unfolding numbers
numbers_last zero i = let e : i ≡ i + 0 = omega arith in rw (← e)
numbers_last (suc n) i =
    let e : i + 1 + n ≡ i + suc n = omega arith in
    ap (λ (t : List ℕ). i ∷ t) (numbers_last n (i + 1) ∙ rw e)

numbers_one : (v : ℕ) → numbers (v + 1 - v) v ≡ v ∷ []
unfolding numbers
numbers_one v = let e : v + 1 - v ≡ 1 = omega arith in rw e

numbers_grow :
    (start prev v : ℕ) (vs : List ℕ)
    → start ≤ prev
    → v ≡ prev + 1
    → numbers (v + 1 - start) start ++ vs ≡ numbers (prev + 1 - start) start ++ v ∷ vs
numbers_grow start prev v vs le e =
    let count : v + 1 - start ≡ suc (prev + 1 - start) = omega arith in
    let last : start + (prev + 1 - start) ≡ v = omega arith in
    rw (count, numbers_last (prev + 1 - start) start, last, append_assoc)

-- A number that the width fits and that a range can end with.
abbrev pub Fits : ℕ → ℕ → Type 0
Fits w k = (k < max_int) × (length (pad w k) ≡ w)

module _ (prefix suffix : Text) (w : ℕ) where
  expand_ranges-collapse_from :
      (start prev : ℕ) (vs : List ℕ) (ranges res r : List Text)
      → start ≤ prev
      → prev < max_int
      → length (pad w start) ≡ w
      → All (Fits w) vs
      → expand_ranges prefix suffix ranges res ≡ more r
      → expand_ranges prefix suffix (collapse w start prev vs ranges) res
        ≡ more (add_numbers prefix suffix w (numbers (prev + 1 - start) start ++ vs) r)
  unfolding collapse
  expand_ranges-collapse_from start prev [] ranges res r le lt len h e =
      rw append-nil (expand_ranges-flush prefix suffix w start prev ranges res r le lt len e)
  expand_ranges-collapse_from start prev (v ∷ vs) ranges res r le lt len h e =
      elim (Bool-cases (v == prev + 1)) [
        | inl s ↦ rw s (
            expand_ranges-collapse_from start v vs ranges res r (ground arith) h.0.0 len h.1 e
            ∙ ap (λ t. more (add_numbers prefix suffix w t r))
                (numbers_grow start prev v vs le ((==_iff v (prev + 1)).0 s)))
        | inr s ↦ rw s (
            expand_ranges-collapse_from v v vs (flush w start prev ranges) res
              (add_numbers prefix suffix w (numbers (prev + 1 - start) start) r) (omega arith) h.0.0
              h.0.1 h.1 (expand_ranges-flush prefix suffix w start prev ranges res r le lt len e)
            ∙ rw
                (
                  numbers_one v,
                  add_numbers-append prefix suffix w (numbers (prev + 1 - start) start) (v ∷ vs),
                )
                (rw (add_numbers-append prefix suffix w (v ∷ []) vs)))
      ]

  -- `expandOnce` reads the ranges of a group back as its numbers, in their order, whatever the
  -- order is and whether or not a number comes twice, if each is below the largest `int` and is
  -- no wider than the group.
  pub expand_ranges-collapse :
      (n : ℕ) (nums : List ℕ) (result : List Text)
      → All (Fits w) (n ∷ nums)
      → expand_ranges prefix suffix (collapse w n n nums []) result
        ≡ more (add_numbers prefix suffix w (n ∷ nums) result)
  expand_ranges-collapse n nums result h =
      expand_ranges-collapse_from n n nums [] result result (omega arith) h.0.0 h.0.1 h.1
        (unfold expand_ranges in refl)
      ∙ rw (numbers_one n)
