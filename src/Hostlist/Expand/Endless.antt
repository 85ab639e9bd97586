-- ===== src/Hostlist/Expand/Endless.antt =====
-- Where the loop of `Expand` ends: on a list that a round leaves as it is, or in a range that ends
-- at the largest `int`.
use warewulf.Common.{
  ℕ, zero, suc, ◌+◌, ◌-◌, ◌≡◌, refl, true, false, List, [], ◌∷◌, ◌++◌, Option, some, none, arith,
  take, drop, ◌==◌, ltb, Bool-cases, Option-cases, inl, inr, ◌&&◌, In,
}
use warewulf.Common.Text.{Text, split}
use warewulf.Hostlist.Numbers.{is_digit, to_int, max_int}
use warewulf.Hostlist.Expand.{
  bracket_span, expand_host, Progress, more, abort, hang, count_range, expand_parts, expand_ranges,
  Round, counted, stuck, expand_hosts, expand_once, Run, done, hung, out_of_fuel, expand_loop,
}

-- The second list is there after `n` rounds that each count an expansion.
abbrev pub Reaches : ℕ → List Text → List Text → Type 0
Reaches zero a b = a ≡ b
Reaches (suc n) a b =
    (once : List Text) × (k : ℕ) × (expand_once a ≡ counted once (suc k)) × Reaches n once b

-- Two numbers, of which the second one reads as the largest `int`.
abbrev pub IsEndless : Text → Type 0
IsEndless rng =
    (p : Text) × (q : Text) × (split rng b'-' ≡ p ∷ q ∷ [])
    × (is_digit p ≡ true)
    × (is_digit q ≡ true)
    × (to_int q ≡ max_int)

-- Among the ranges in the brackets of the host is such a range.
abbrev pub HoldsEndless : Text → Type 0
HoldsEndless host =
    (start : ℕ) × (end : ℕ) × (rng : Text) × (bracket_span host ≡ some (start, end))
    × In rng (split (take (end - (start + 1)) (drop (start + 1) host)) b',')
    × IsEndless rng

-- How the loop ends that starts with these hosts.
abbrev pub EndsSettled : List Text → Run → Type 0
EndsSettled hosts (done r) =
    ((n : ℕ) × Reaches n hosts r) × ((r' : List Text) × (expand_once r ≡ counted r' 0))
EndsSettled hosts hung =
    (n : ℕ) × (last : List Text) × (host : Text) × Reaches n hosts last
    × In host last
    × HoldsEndless host
EndsSettled hosts out_of_fuel = Unit

to_int_full : (s : Text) → ltb (to_int s) max_int ≡ false → to_int s ≡ max_int
unfolding to_int
to_int_full s h = ground (arith, h)

module _ (prefix suffix : Text) where
  expand_parts-hang :
      (parts result : List Text)
      → expand_parts prefix suffix parts result ≡ hang
      → (p : Text) × (q : Text) × (parts ≡ p ∷ q ∷ [])
        × (is_digit p ≡ true)
        × (is_digit q ≡ true)
        × (to_int q ≡ max_int)
  unfolding expand_parts count_range
  expand_parts-hang [] result h = absurd (ground (arith, h))
  expand_parts-hang (p ∷ []) result h = absurd (ground (arith, h))
  expand_parts-hang (p ∷ q ∷ []) result h = elim (Bool-cases (is_digit p && is_digit q)) [
    | inr f ↦ absurd (ground (arith, f, h))
    | inl t ↦ elim (Bool-cases (ltb (to_int q) max_int)) [
      | inl l ↦ absurd (ground (arith, t, l, h))
      | inr l ↦ (p, q, refl, ground (arith, t), ground (arith, t), to_int_full q l)
    ]
  ]
  expand_parts-hang (p ∷ q ∷ r ∷ parts) result h = absurd (ground (arith, h))

  expand_ranges-hang :
      (ranges result : List Text)
      → expand_ranges prefix suffix ranges result ≡ hang
      → (rng : Text) × In rng ranges × IsEndless rng
  unfolding expand_ranges
  expand_ranges-hang [] result h = absurd (ground (arith, h))
  expand_ranges-hang (rng ∷ ranges) result h =
      go (expand_parts prefix suffix (split rng b'-') result) refl (expand_ranges-hang ranges)
    where
      go :
          (p : Progress)
          → expand_parts prefix suffix (split rng b'-') result ≡ p
          → ((r : List Text)
              → expand_ranges prefix suffix ranges r ≡ hang
              → (rng' : Text) × In rng' ranges × IsEndless rng')
          → (rng' : Text) × In rng' (rng ∷ ranges) × IsEndless rng'
      go (more r) e ih =
          let (rng', i, endless) = ih r (rw (expand_ranges, e) at h) in (rng', inr i, endless)
      go (abort r) e ih = absurd (ground (arith, rw (expand_ranges, e) at h))
      go hang e ih = (rng, inl refl, expand_parts-hang (split rng b'-') result e)

expand_host-hang :
    (host : Text) (result : List Text) → expand_host host result ≡ some hang → HoldsEndless host
unfolding expand_host
expand_host-hang host result h = elim (Option-cases (bracket_span host)) [
  | inl e ↦ absurd (ground (arith, e, h))
  | inr ((start, end), e) ↦
      let given : ◌≡◌ {A = Option Progress}
          (some (
            expand_ranges (take start host) (drop (end + 1) host)
              (split (take (end - (start + 1)) (drop (start + 1) host)) b',') result))
          (some hang) =
        rw (expand_host, e) at h in
      let (rng, i, endless) =
        expand_ranges-hang (take start host) (drop (end + 1) host)
          (split (take (end - (start + 1)) (drop (start + 1) host)) b',') result cc in
      (start, end, rng, e, i, endless)
]

expand_hosts-stuck :
    (hosts result : List Text) (k : ℕ)
    → expand_hosts hosts result k ≡ stuck
    → (host : Text) × In host hosts × HoldsEndless host
unfolding expand_hosts
expand_hosts-stuck [] result k h = absurd (ground (arith, h))
expand_hosts-stuck (host ∷ hosts) result k h =
    go (expand_host host result) refl (expand_hosts-stuck hosts)
  where
    go :
        (o : Option Progress)
        → expand_host host result ≡ o
        → ((r : List Text) (j : ℕ)
            → expand_hosts hosts r j ≡ stuck
            → (host' : Text) × In host' hosts × HoldsEndless host')
        → (host' : Text) × In host' (host ∷ hosts) × HoldsEndless host'
    go none e ih =
        let (x, i, c) = ih (result ++ host ∷ []) k (rw (expand_hosts, e) at h) in (x, inr i, c)
    go (some (more r)) e ih =
        let (x, i, c) = ih r (k + 1) (rw (expand_hosts, e) at h) in (x, inr i, c)
    go (some (abort r)) e ih = absurd (ground (arith, rw (expand_hosts, e) at h))
    go (some hang) e ih = (host, inl refl, expand_host-hang host result e)

later :
    (hosts once : List Text) (k : ℕ) (r : Run)
    → expand_once hosts ≡ counted once (suc k)
    → EndsSettled once r
    → EndsSettled hosts r
later hosts once k (done r) e ((n, reached), settled) = ((suc n, (once, k, e, reached)), settled)
later hosts once k hung e (n, last, host, reached, i, c) =
    (suc n, last, host, (once, k, e, reached), i, c)
later hosts once k out_of_fuel e h = tt

pub expand_loop-EndsSettled : (f : ℕ) (hosts : List Text) → EndsSettled hosts (expand_loop f hosts)
unfolding expand_loop
expand_loop-EndsSettled zero hosts = tt
expand_loop-EndsSettled (suc f) hosts = go (expand_once hosts) refl (expand_loop-EndsSettled f)
  where
    go :
        (r : Round)
        → expand_once hosts ≡ r
        → ((hs : List Text) → EndsSettled hs (expand_loop f hs))
        → EndsSettled hosts (elim r [
          | counted once count ↦ elim (count == 0) [
            | true ↦ done hosts
            | false ↦ expand_loop f once
          ]
          | stuck ↦ hung
        ])
    go (counted once zero) e ih = ((zero, refl), (once, e))
    go (counted once (suc k)) e ih =
        let more_to_do : (suc k == 0) ≡ false = ground arith in
        rw more_to_do (later hosts once k (expand_loop f once) e (ih once))
    go stuck e ih =
        let (host, i, c) = expand_hosts-stuck hosts [] 0 (unfold expand_once in e) in
        (zero, hosts, host, refl, i, c)
