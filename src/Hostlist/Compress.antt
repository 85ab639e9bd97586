-- ===== src/Hostlist/Compress.antt =====
-- internal/pkg/hostlist/hostlist.go: `Compress`.
pub mod Ranges
pub mod Plain
pub mod Bracket
pub mod RoundTrip
use warewulf.Common.{
  ℕ, zero, suc, ◌+◌, ◌-◌, ◌≡◌, refl, Bool, true, false, List, [], ◌∷◌, ◌++◌, Option, none, some,
  ◌==◌, leb, if◌then◌else◌, length, take, drop, ◌>>=◌,
}
use warewulf.Common.Text.{Text, codes, join, text_eq}
use warewulf.Common.Maps.{Map, lookup, insert}
use warewulf.Common.Sort.{sort}
use warewulf.Hostlist.Numbers.{is_digit_byte, to_int, itoa, pad}

pub record Group : Type 0 where
  pub prefix : Text
  pub width : ℕ
  pub nums : List ℕ
  pub single : Text
  pub first_idx : ℕ

pub record Groups : Type 0 where
  pub groups : Map Group
  pub order : List Text

abbrev byte_at : Text → ℕ → ℕ
byte_at [] i = 0
byte_at (c ∷ s) zero = c
byte_at (c ∷ s) (suc i) = byte_at s i

-- `for i > 0 && id[i-1] is a digit { i-- }`
unfoldable pub digits_start : Text → ℕ → ℕ
digits_start id zero = zero
digits_start id (suc i) =
    let rest = digits_start id i in if is_digit_byte (byte_at id i) then rest else suc i

unfoldable pub group_key : Text → ℕ → Text
unfolding itoa
group_key id i = if i == length id then 0 ∷ id else take i id ++ 0 ∷ itoa (length id - i)

abbrev new_group : Text → ℕ → ℕ → Group
new_group id i idx =
    if i == length id
    then record { prefix = []; width = 0; nums = []; single = id; first_idx = idx }
    else record {
      prefix = take i id;
      width = length id - i;
      nums = [];
      single = [];
      first_idx = idx;
    }

-- `g.nums = append(g.nums, n)`, of a numbered name
abbrev add_number : Text → ℕ → Group → Group
add_number id i g =
    if leb 1 g.width then record g { nums = g.nums ++ to_int (drop i id) ∷ [] } else g

-- The body of the loop over ids. The group is shared by a pointer, so it is written back.
unfoldable pub group_id : Text → ℕ → Groups → Groups
unfolding group_key digits_start lookup insert to_int
group_id id idx st =
    let i = digits_start id (length id) in
    let key = group_key id i in
    elim (lookup key st.groups) [
      | none ↦ record {
        groups = insert key (add_number id i (new_group id i idx)) st.groups;
        order = st.order ++ key ∷ [];
      }
      | some g ↦ record { groups = insert key (add_number id i g) st.groups; order = st.order }
    ]

unfoldable pub group_ids : List Text → ℕ → Groups → Groups
unfolding group_id
group_ids [] idx st = st
group_ids (id ∷ ids) idx st = group_ids ids (idx + 1) (group_id id idx st)

abbrev first_idx_of : Map Group → Text → ℕ
first_idx_of groups k = elim (lookup k groups) [ none ↦ 0 | some g ↦ g.first_idx ]

-- `sort.SliceStable(order, …)` by the position of the first id
unfoldable pub sort_order : Groups → List Text
unfolding sort lookup
sort_order st = sort (λ a b. leb (first_idx_of st.groups a) (first_idx_of st.groups b)) st.order

unfoldable pub flush : ℕ → ℕ → ℕ → List Text → List Text
flush width start prev ranges =
    if start == prev
    then ranges ++ pad width start ∷ []
    else ranges ++ (pad width start ++ (b'-' ∷ pad width prev)) ∷ []

unfoldable pub collapse : ℕ → ℕ → ℕ → List ℕ → List Text → List Text
collapse width start prev [] ranges = flush width start prev ranges
collapse width start prev (v ∷ vs) ranges =
    let grown = collapse width start v vs ranges in
    let fresh = collapse width v v vs (flush width start prev ranges) in
    if v == prev + 1 then grown else fresh

-- The text of one group; `none` where `g.nums[0]` panics.
unfoldable pub render_nums : Text → ℕ → List ℕ → Option Text
render_nums prefix width [] = none
render_nums prefix width (n ∷ []) = some (prefix ++ pad width n)
render_nums prefix width (n ∷ m ∷ nums) =
    some (prefix ++ (b'[' ∷ (join (collapse width n n (m ∷ nums) []) (codes ",") ++ codes "]")))

unfoldable pub render_group : Group → Option Text
render_group g =
    if g.width == 0 then some g.single else render_nums g.prefix g.width (sort leb g.nums)

unfoldable pub render_all : Map Group → List Text → Option (List Text)
render_all groups [] = some []
render_all groups (k ∷ order) = lookup k groups >>= λ g.
    render_group g >>= λ part. render_all groups order >>= λ parts. some (part ∷ parts)

-- `Compress`; `none` is a panic.
unfoldable pub compress : List Text → Option Text
unfolding group_ids sort_order render_all join render_group render_nums collapse flush pad
compress ids =
    let st = group_ids ids 0 (record { groups = []; order = [] }) in
    render_all st.groups (sort_order st) >>= λ parts. some (join parts (codes ","))

compress_doc :
    compress (codes "n01" ∷ codes "n02" ∷ codes "n03" ∷ codes "n05" ∷ [])
    ≡ some (codes "n[01-03,05]")
unfolding compress text_eq
compress_doc = refl

compress_mixed :
    compress (codes "a" ∷ codes "n9" ∷ codes "b2" ∷ codes "n8" ∷ []) ≡ some (codes "a,n[8-9],b2")
unfolding compress text_eq
compress_mixed = refl
