-- ===== src/Hostlist/Expand.antt =====
-- internal/pkg/hostlist/hostlist.go: `splitTopLevel`, `expandOnce` and the loop of `Expand`.
pub mod Split
pub mod Bracket
pub mod Endless
pub mod Loop
use warewulf.Common.{
  ℕ, zero, suc, ◌+◌, ◌-◌, ◌≡◌, refl, Bool, true, false, ◌&&◌, not, List, [], ◌∷◌, ◌++◌, Option,
  none, some, ltb, leb, ◌==◌, if◌then◌else◌, length, take, drop,
}
use warewulf.Common.Text.{Text, codes, split}
use warewulf.Hostlist.Numbers.{max_int, is_digit, to_int, pad}

-- `splitTopLevel`: `cur` is `s[start:i]`.
unfoldable pub split_loop : Text → ℕ → Text → List Text → List Text
split_loop [] depth cur parts = parts ++ cur ∷ []
split_loop (c ∷ s) depth cur parts =
    let deeper = split_loop s (depth + 1) (cur ++ c ∷ []) parts in
    let shallower = split_loop s (depth - 1) (cur ++ c ∷ []) parts in
    let next_part = split_loop s depth [] (parts ++ cur ∷ []) in
    let onward = split_loop s depth (cur ++ c ∷ []) parts in
    if c == b'['
    then deeper
    else if c == b']'
    then shallower
    else if c == b',' && depth == 0
    then next_part
    else onward

unfoldable pub split_top_level : Text → List Text
unfolding split_loop
split_top_level s = split_loop s 0 [] []

-- `strings.Index(s, c)`; -1 is `none`.
unfoldable pub index : Text → ℕ → Option ℕ
index [] c = none
index (x ∷ s) c =
    if x == c then some 0 else elim (index s c) [ none ↦ none | some i ↦ some (i + 1) ]

-- `bracketStart` and `bracketEnd`, if `bracketStart >= 0 && bracketStart < bracketEnd`
unfoldable pub bracket_span : Text → Option (ℕ × ℕ)
bracket_span host = elim (index host b'[') [
  | none ↦ none
  | some start ↦ elim (index host b']') [
    | none ↦ none
    | some end ↦ if ltb start end then some (start, end) else none
  ]
]

-- `result` when the round goes on, or when it returns early with the count 0; `hang` when
-- `num <= endNum` can never fail, as `endNum` is the largest `int`.
pub data Progress : Type 0 where
  more : List Text → Progress
  abort : List Text → Progress
  hang : Progress

-- `for num := startNum; num <= endNum; num++`, as the numbers met in `n` rounds
unfoldable pub numbers : ℕ → ℕ → List ℕ
numbers zero num = []
numbers (suc n) num = num ∷ numbers n (num + 1)

unfoldable pub add_numbers : Text → Text → ℕ → List ℕ → List Text → List Text
add_numbers prefix suffix width [] result = result
add_numbers prefix suffix width (num ∷ nums) result =
    add_numbers prefix suffix width nums (result ++ (prefix ++ (pad width num ++ suffix)) ∷ [])

unfoldable pub count_range : Text → Text → ℕ → ℕ → ℕ → List Text → Progress
count_range prefix suffix width start end result =
    if ltb end max_int
    then more (add_numbers prefix suffix width (numbers (end + 1 - start) start) result)
    else hang

unfoldable pub expand_parts : Text → Text → List Text → List Text → Progress
expand_parts prefix suffix (p ∷ []) result =
    if not (is_digit p) then abort result else more (result ++ (prefix ++ (p ++ suffix)) ∷ [])
expand_parts prefix suffix (p ∷ q ∷ []) result =
    if not (is_digit p && is_digit q)
    then abort result
    else count_range prefix suffix (length p) (to_int p) (to_int q) result
expand_parts prefix suffix _ result = more result

-- `for _, rng := range ranges`
unfoldable pub expand_ranges : Text → Text → List Text → List Text → Progress
expand_ranges prefix suffix [] result = more result
expand_ranges prefix suffix (rng ∷ ranges) result =
    elim (expand_parts prefix suffix (split rng b'-') result) [
      | more r ↦ expand_ranges prefix suffix ranges r
      | abort r ↦ abort r
      | hang ↦ hang
    ]

-- What one round gives: `result, expansionCount`.
pub data Round : Type 0 where
  counted : List Text → ℕ → Round
  stuck : Round

-- The body of the loop over hosts, where there are brackets to expand.
unfoldable pub expand_host : Text → List Text → Option Progress
expand_host host result = elim (bracket_span host) [
  | none ↦ none
  | some (start, end) ↦ some (
      expand_ranges (take start host) (drop (end + 1) host)
        (split (take (end - (start + 1)) (drop (start + 1) host)) b',') result)
]

unfoldable pub expand_hosts : List Text → List Text → ℕ → Round
expand_hosts [] result count = counted result count
expand_hosts (host ∷ hosts) result count = elim (expand_host host result) [
  | none ↦ expand_hosts hosts (result ++ host ∷ []) count
  | some (more r) ↦ expand_hosts hosts r (count + 1)
  | some (abort r) ↦ counted r 0
  | some hang ↦ stuck
]

unfoldable pub expand_once : List Text → Round
expand_once hosts = expand_hosts hosts [] 0

-- How the loop of `Expand` ends. `out_of_fuel` belongs to the model only.
pub data Run : Type 0 where
  done : List Text → Run
  hung : Run
  out_of_fuel : Run

unfoldable pub expand_loop : ℕ → List Text → Run
expand_loop zero expanded = out_of_fuel
expand_loop (suc f) expanded = elim (expand_once expanded) [
  | counted once count ↦ elim (count == 0) [ true ↦ done expanded | false ↦ expand_loop f once ]
  | stuck ↦ hung
]

-- The brackets that open in a text, and in a list of texts: each round takes one away.
unfoldable pub opens : Text → ℕ
opens [] = 0
opens (c ∷ s) = (if c == b'[' then 1 else 0) + opens s

unfoldable pub opens_all : List Text → ℕ
unfolding opens
opens_all [] = 0
opens_all (h ∷ hs) = opens h + opens_all hs

unfoldable pub pre_list : List Text → List Text
unfolding split_top_level
pre_list [] = []
pre_list (s ∷ list) = split_top_level s ++ pre_list list

unfoldable pub expand_brackets : List Text → Run
unfolding expand_loop opens_all pre_list expand_once expand_hosts expand_host bracket_span index
    expand_ranges expand_parts split count_range is_digit to_int add_numbers numbers pad
expand_brackets list = expand_loop (suc (opens_all (pre_list list))) (pre_list list)

two_ranges :
    expand_brackets (codes "n[01-03,05],a" ∷ [])
    ≡ done (codes "n01" ∷ codes "n02" ∷ codes "n03" ∷ codes "n05" ∷ codes "a" ∷ [])
unfolding expand_brackets
two_ranges = refl

two_brackets :
    expand_brackets (codes "r[1-2]n[3,4]" ∷ [])
    ≡ done (codes "r1n3" ∷ codes "r1n4" ∷ codes "r2n3" ∷ codes "r2n4" ∷ [])
unfolding expand_brackets
two_brackets = refl

invalid_range : expand_brackets (codes "n[1-x]" ∷ []) ≡ done (codes "n[1-x]" ∷ [])
unfolding expand_brackets
invalid_range = refl
