-- ===== src/Hostlist/Numbers.antt =====
-- internal/pkg/hostlist/hostlist.go: `isDigit`, `toInt`, and the format `%0*d`.
pub mod Decimal
pub mod Atoi
use warewulf.Common.{
  ℕ, zero, suc, ◌+◌, ◌-◌, ◌*◌, ◌/◌, ◌%◌, ◌^◌, ◌≡◌, refl, Bool, List, [], ◌∷◌, ◌++◌, ◌&&◌, true,
  false, ltb, leb, if◌then◌else◌, length,
}
use warewulf.Common.Text.{Text, codes}

-- `math.MaxInt` on a 64-bit platform
abbrev pub max_int : ℕ
max_int = 2 ^ 63 - 1

abbrev pub is_digit_byte : ℕ → Bool
is_digit_byte c = leb b'0' c && leb c b'9'

-- `isDigit`: true of the empty text.
unfoldable pub is_digit : Text → Bool
is_digit [] = true
is_digit (c ∷ s) = if is_digit_byte c then is_digit s else false

unfoldable pub value_from : ℕ → Text → ℕ
value_from n [] = n
value_from n (c ∷ s) = value_from (n * 10 + (c - b'0')) s

-- `toInt` on digits: `Atoi` answers 0 for no digit at all, and the largest `int` on overflow.
unfoldable pub to_int : Text → ℕ
unfolding value_from
to_int s = let n = value_from 0 s in if ltb max_int n then max_int else n

-- The decimal digits of `n` in front of `out`, on fuel above `n`.
unfoldable pub digits : ℕ → ℕ → Text → Text
digits zero n out = out
digits (suc f) n out =
    let rest = digits f (n / 10) ((b'0' + n % 10) ∷ out) in
    if ltb n 10 then (b'0' + n) ∷ out else rest

-- `strconv.Itoa`, of a number that is not negative
unfoldable pub itoa : ℕ → Text
unfolding digits
itoa n = digits (suc n) n []

abbrev pub zeros : ℕ → Text
zeros zero = []
zeros (suc n) = b'0' ∷ zeros n

-- `fmt.Sprintf("%0*d", width, n)`
unfoldable pub pad : ℕ → ℕ → Text
unfolding itoa
pad width n = zeros (width - length (itoa n)) ++ itoa n

pad_small : pad 3 7 ≡ codes "007"
unfolding pad
pad_small = refl

pad_wide : pad 1 120 ≡ codes "120"
unfolding pad
pad_wide = refl

to_int_saturates : to_int (codes "99999999999999999999") ≡ max_int
unfolding to_int
to_int_saturates = refl
