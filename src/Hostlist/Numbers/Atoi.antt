-- ===== src/Hostlist/Numbers/Atoi.antt =====
-- `strconv.Atoi` of the standard library, on a platform of 64 bits, as internal/pkg/image and
-- internal/pkg/node call it.
use warewulf.Common.{ℕ, zero, suc, ◌==◌, leb, [], ◌∷◌, Option, none, some, if◌then◌else◌}
use warewulf.Common.Text.{Text}
use warewulf.Common.Integers.{ℤ, pos, negsuc}
use warewulf.Hostlist.Numbers.{max_int, is_digit, value_from}

-- `strconv.Atoi`; `none` is an error.
unfoldable pub atoi_digits : Text → Option ℕ
unfolding is_digit value_from
atoi_digits [] = none
atoi_digits (c ∷ s) = if is_digit (c ∷ s) then some (value_from 0 (c ∷ s)) else none

abbrev pub positive : Option ℕ → Option ℤ
positive none = none
positive (some n) = if leb n max_int then some (pos n) else none

abbrev pub negative : Option ℕ → Option ℤ
negative none = none
negative (some zero) = some (pos 0)
negative (some (suc n)) = if leb n max_int then some (negsuc n) else none

unfoldable pub atoi : Text → Option ℤ
unfolding atoi_digits
atoi [] = none
atoi (c ∷ s) =
    if c == b'-'
    then negative (atoi_digits s)
    else if c == b'+'
    then positive (atoi_digits s)
    else positive (atoi_digits (c ∷ s))
