-- ===== src/Hostlist/Numbers/Decimal.antt =====
-- What `toInt` reads of a number printed with `%0*d`.
use warewulf.Common.{
  ℕ, zero, suc, ◌+◌, ◌-◌, ◌/◌, ◌%◌, ◌≤◌, ◌<◌, ◌≡◌, refl, true, [], ◌∷◌, ◌++◌, arith, length,
}
use warewulf.Common.Text.{Text}
use warewulf.Hostlist.Numbers.{max_int, is_digit, value_from, to_int, digits, itoa, zeros, pad}

value_from-digits :
    (f n : ℕ) (out : Text) → n < f → value_from 0 (digits f n out) ≡ value_from n out
unfolding value_from digits
value_from-digits zero n out h = elim h [ ]
value_from-digits (suc f) n out h =
    ground (arith, value_from-digits f (n / 10) ((b'0' + n % 10) ∷ out))

value_from-zeros : (w : ℕ) (s : Text) → value_from 0 (zeros w ++ s) ≡ value_from 0 s
unfolding value_from
value_from-zeros zero s = refl
value_from-zeros (suc w) s = value_from-zeros w s

is_digit-digits :
    (f n : ℕ) (out : Text) → n < f → is_digit out ≡ true → is_digit (digits f n out) ≡ true
unfolding is_digit digits
is_digit-digits zero n out h d = elim h [ ]
is_digit-digits (suc f) n out h d =
    ground (arith, is_digit-digits f (n / 10) ((b'0' + n % 10) ∷ out))

is_digit-zeros : (w : ℕ) (s : Text) → is_digit s ≡ true → is_digit (zeros w ++ s) ≡ true
unfolding is_digit
is_digit-zeros zero s h = h
is_digit-zeros (suc w) s h = is_digit-zeros w s h

pub is_digit-pad : (w n : ℕ) → is_digit (pad w n) ≡ true
unfolding pad
is_digit-pad w n =
    is_digit-zeros (w - length (itoa n)) (itoa n)
      (unfold is_digit itoa in is_digit-digits (suc n) n [] (omega arith) refl)

-- A number that fits in an `int` is read back from its padded print, whatever the width.
pub to_int-pad : (w n : ℕ) → n ≤ max_int → to_int (pad w n) ≡ n
unfolding to_int pad itoa
to_int-pad w n h = ground (
  arith,
  value_from-zeros (w - length (digits (suc n) n [])) (digits (suc n) n []),
  value_from-digits (suc n) n [],
)
