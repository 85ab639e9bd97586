-- ===== src/Hostlist/Expand/Loop.antt =====
-- How the loop of `Expand` ends.
use Prim.Native.Nat.{◌≤◌}
use warewulf.Common.{
  ℕ, zero, suc, ◌+◌, ◌-◌, ◌≡◌, ◌≢◌, ◌∙◌, append-nil, append_assoc, refl, true, false, List, [], ◌∷◌,
  ◌++◌, Option, some, none, arith, take, drop, ◌==◌, length, ltb, All, All-append, Option-cases,
  Bool-cases, inl, inr, ◌&&◌,
}
use warewulf.Common.Text.{Text, split}
use warewulf.Hostlist.Numbers.{is_digit, pad, to_int, max_int}
use warewulf.Hostlist.Numbers.Decimal.{is_digit-pad}
use warewulf.Hostlist.Expand.{
  opens, opens_all, bracket_span, expand_host, Progress, more, abort, hang, add_numbers,
  count_range, expand_parts, expand_ranges, Round, counted, stuck, expand_hosts, expand_once, Run,
  done, hung, out_of_fuel, expand_loop, expand_brackets, pre_list, numbers,
}
use warewulf.Hostlist.Expand.Endless.{EndsSettled, expand_loop-EndsSettled}
use warewulf.Hostlist.Expand.Bracket.{opens-append, opens-is_digit, opens-outside}

-- A host that can still be expanded has at most `n` opening brackets.
abbrev Fits : ℕ → Text → Type 0
Fits n host = bracket_span host ≢ none → opens host ≤ n

abbrev Below : ℕ → Progress → Type 0
Below n (more r) = All (Fits n) r
Below n _ = Unit

module _ (n : ℕ) (prefix suffix : Text) (room : opens prefix + opens suffix ≤ n) where
  Fits-number : (s : Text) → is_digit s ≡ true → Fits n (prefix ++ (s ++ suffix))
  Fits-number s d e =
      omega (arith, opens-append prefix (s ++ suffix), opens-append s suffix, opens-is_digit s d)

  add_numbers-Fits :
      (width : ℕ) (nums : List ℕ) (result : List Text)
      → All (Fits n) result
      → All (Fits n) (add_numbers prefix suffix width nums result)
  unfolding add_numbers
  add_numbers-Fits width [] result h = h
  add_numbers-Fits width (num ∷ nums) result h =
      add_numbers-Fits width nums _
        (All-append (Fits n) result _ h (Fits-number (pad width num) (is_digit-pad width num), tt))

  count_range-Below :
      (width start end : ℕ) (result : List Text)
      → All (Fits n) result
      → Below n (count_range prefix suffix width start end result)
  unfolding count_range
  count_range-Below width start end result h = elim (Bool-cases (ltb end max_int)) [
    | inl e ↦ rw e (add_numbers-Fits width (numbers (end + 1 - start) start) result h)
    | inr e ↦ rw e tt
  ]

  expand_parts-Below :
      (parts : List Text) (result : List Text)
      → All (Fits n) result
      → Below n (expand_parts prefix suffix parts result)
  unfolding expand_parts
  expand_parts-Below [] result h = h
  expand_parts-Below (p ∷ []) result h = elim (Bool-cases (is_digit p)) [
    | inl e ↦ rw e (All-append (Fits n) result _ h (Fits-number p e, tt))
    | inr e ↦ rw e tt
  ]
  expand_parts-Below (p ∷ q ∷ []) result h = elim (Bool-cases (is_digit p && is_digit q)) [
    | inl e ↦ rw e (count_range-Below (length p) (to_int p) (to_int q) result h)
    | inr e ↦ rw e tt
  ]
  expand_parts-Below (p ∷ q ∷ r ∷ ps) result h = h

  expand_ranges-Below :
      (ranges : List Text) (result : List Text)
      → All (Fits n) result
      → Below n (expand_ranges prefix suffix ranges result)
  unfolding expand_ranges
  expand_ranges-Below [] result h = h
  expand_ranges-Below (rng ∷ ranges) result h =
      go (expand_parts prefix suffix (split rng b'-') result)
        (expand_parts-Below (split rng b'-') result h) (expand_ranges-Below ranges)
    where
      go :
          (p : Progress)
          → Below n p
          → ((r : List Text) → All (Fits n) r → Below n (expand_ranges prefix suffix ranges r))
          → Below n (elim p [
            | more r ↦ expand_ranges prefix suffix ranges r
            | abort r ↦ abort r
            | hang ↦ hang
          ])
      go (more r) b ih = ih r b
      go (abort r) b ih = tt
      go hang b ih = tt

-- A round that goes on: with the bound `n + 1` before it, the bound `n` holds after it.
abbrev Shrinks : ℕ → Round → Type 0
Shrinks n (counted r zero) = Unit
Shrinks n (counted r (suc k)) = All (Fits n) r
Shrinks n stuck = Unit

-- What is known of one host's outcome: what it leaves alone it cannot expand.
abbrev HostBelow : ℕ → Text → Option Progress → Type 0
HostBelow n host none = bracket_span host ≡ none
HostBelow n host (some p) = Below n p

expand_host-Below :
    (n : ℕ) (host : Text) (result : List Text)
    → Fits (suc n) host
    → All (Fits n) result
    → HostBelow n host (expand_host host result)
unfolding expand_host
expand_host-Below n host result fits h = elim (Option-cases (bracket_span host)) [
  | inl e ↦ rw (e, expand_host) e
  | inr ((start, end), e) ↦
      rw (e, expand_host)
        (expand_ranges-Below n (take start host) (drop (end + 1) host)
          (omega (arith, opens-outside host start end e, fits (λ z. cc)))
          (split (take (end - (start + 1)) (drop (start + 1) host)) b',') result h)
]

-- A host that no round can expand stays within any bound.
expand_hosts-Shrinks :
    (n : ℕ) (hosts result : List Text) (k : ℕ)
    → All (Fits (suc n)) hosts
    → All (Fits n) result
    → Shrinks n (expand_hosts hosts result k)
unfolding expand_hosts
expand_hosts-Shrinks n [] result zero hs h = tt
expand_hosts-Shrinks n [] result (suc k) hs h = h
expand_hosts-Shrinks n (host ∷ hosts) result k hs h =
    go (expand_host host result) (expand_host-Below n host result hs.0 h)
      (λ r b. expand_hosts-Shrinks n hosts r (k + 1) hs.1 b)
      (λ e.
        expand_hosts-Shrinks n hosts (result ++ host ∷ []) k hs.1
          (All-append (Fits n) result (host ∷ []) h (λ some_span. absurd (some_span e), tt)))
  where
    go :
        (o : Option Progress)
        → HostBelow n host o
        → ((r : List Text) → All (Fits n) r → Shrinks n (expand_hosts hosts r (k + 1)))
        → (bracket_span host ≡ none → Shrinks n (expand_hosts hosts (result ++ host ∷ []) k))
        → Shrinks n (elim o [
          | none ↦ expand_hosts hosts (result ++ host ∷ []) k
          | some (more r) ↦ expand_hosts hosts r (k + 1)
          | some (abort r) ↦ counted r 0
          | some hang ↦ stuck
        ])
    go none b expanded left = left b
    go (some (more r)) b expanded left = expanded r b
    go (some (abort r)) b expanded left = tt
    go (some hang) b expanded left = tt

abbrev Whole : Text → Type 0
Whole host = bracket_span host ≡ none

-- With no opening bracket left in a host that can be expanded, there is no such host.
Fits-Whole : (host : Text) → Fits 0 host → Whole host
Fits-Whole host fits = elim (Option-cases (bracket_span host)) [
  | inl e ↦ e
  | inr ((start, end), e) ↦ absurd (omega (arith, opens-outside host start end e, fits (λ z. cc)))
]

All-Whole : (hosts : List Text) → All (Fits 0) hosts → All Whole hosts
All-Whole [] h = tt
All-Whole (host ∷ hosts) h = (Fits-Whole host h.0, All-Whole hosts h.1)

-- Hosts without brackets to expand are kept, in order.
pub expand_hosts-Whole :
    (hosts result : List Text) (k : ℕ)
    → All Whole hosts
    → expand_hosts hosts result k ≡ counted (result ++ hosts) k
unfolding expand_hosts expand_host
expand_hosts-Whole [] result k h = rw append-nil
expand_hosts-Whole (host ∷ hosts) result k h =
    rw (h.0, expand_host, expand_hosts)
      (expand_hosts-Whole hosts (result ++ host ∷ []) k h.1 ∙ rw append_assoc)

-- The loop has not run out of fuel.
abbrev HasFuel : Run → Type 0
HasFuel (done r) = Unit
HasFuel hung = Unit
HasFuel out_of_fuel = ⊥

expand_loop-HasFuel :
    (f : ℕ) (hosts : List Text) → All (Fits f) hosts → HasFuel (expand_loop (suc f) hosts)
unfolding expand_loop expand_once
expand_loop-HasFuel zero hosts h =
    rw (expand_hosts-Whole hosts [] 0 (All-Whole hosts h), expand_loop, expand_once, HasFuel) tt
expand_loop-HasFuel (suc f) hosts h =
    go (expand_hosts hosts [] 0) refl (expand_hosts-Shrinks f hosts [] 0 h tt)
      (expand_loop-HasFuel f)
  where
    go :
        (r : Round)
        → expand_hosts hosts [] 0 ≡ r
        → Shrinks f r
        → ((hs : List Text) → All (Fits f) hs → HasFuel (expand_loop (suc f) hs))
        → HasFuel (elim r [
          | counted once count ↦ elim (count == 0) [
            | true ↦ done hosts
            | false ↦ expand_loop (suc f) once
          ]
          | stuck ↦ hung
        ])
    go (counted once zero) e s ih = tt
    go (counted once (suc k)) e s ih =
        let more_to_do : (suc k == 0) ≡ false = ground arith in rw more_to_do (ih once s)
    go stuck e s ih = tt

opens_all-Fits : (hosts : List Text) (n : ℕ) → opens_all hosts ≤ n → All (Fits n) hosts
unfolding opens_all
opens_all-Fits [] n h = tt
opens_all-Fits (host ∷ hosts) n h = (λ z. omega arith, opens_all-Fits hosts n (omega arith))

-- How the loop ends: `done` or `hung` in what it says of them, and never without fuel.
abbrev pub IsSettled : List Text → Run → Type 0
IsSettled hosts (done r) = EndsSettled hosts (done r)
IsSettled hosts hung = EndsSettled hosts hung
IsSettled hosts out_of_fuel = ⊥

settled : (hosts : List Text) (r : Run) → HasFuel r → EndsSettled hosts r → IsSettled hosts r
settled hosts (done r) f h = h
settled hosts hung f h = h
settled hosts out_of_fuel f h = f

-- Whatever the patterns, the loop of `Expand` ends within its fuel: after some rounds that each count an
-- expansion, either the next round counts none, and the list is given as it is, or some host holds a
-- range of two numbers of which the second reads as the largest `int`, and the loop hangs.
pub expand_brackets-IsSettled :
    (list : List Text) → IsSettled (pre_list list) (expand_brackets list)
unfolding expand_brackets
expand_brackets-IsSettled list =
    settled (pre_list list) _
      (expand_loop-HasFuel (opens_all (pre_list list)) (pre_list list)
        (opens_all-Fits (pre_list list) _ (omega arith)))
      (expand_loop-EndsSettled (suc (opens_all (pre_list list))) (pre_list list))
