-- ===== src/Hostlist/Expand/Bracket.antt =====
-- What a round of expansion does to the opening brackets of each host.
use Prim.Native.Nat.{◌≤◌, ◌<◌}
use warewulf.Common.{ℕ, zero, suc, ◌+◌, ◌≡◌, refl, true, [], ◌∷◌, ◌++◌, some, arith, take, drop}
use warewulf.Common.Text.{Text}
use warewulf.Hostlist.Numbers.{is_digit}
use warewulf.Hostlist.Expand.{opens, index, bracket_span}

pub opens-append : (s t : Text) → opens (s ++ t) ≡ opens s + opens t
unfolding opens
opens-append [] t = omega arith
opens-append (c ∷ s) t = omega (arith, opens-append s t)

opens-take-drop : (n : ℕ) (s : Text) → opens (take n s) + opens (drop n s) ≡ opens s
unfolding opens
opens-take-drop zero s = omega arith
opens-take-drop (suc n) [] = omega arith
opens-take-drop (suc n) (c ∷ s) = omega (arith, opens-take-drop n s)

opens-take-index : (s : Text) (i : ℕ) → index s b'[' ≡ some i → opens (take i s) ≡ 0
unfolding opens index
opens-take-index [] i h = cc
opens-take-index (c ∷ s) zero h = refl
opens-take-index (c ∷ s) (suc i) h = ground (arith, opens-take-index s i)

opens-drop-index :
    (s : Text) (i j : ℕ) → index s b'[' ≡ some i → i < j → opens (drop j s) + 1 ≤ opens s
unfolding opens index
opens-drop-index [] i j h lt = cc
opens-drop-index (c ∷ s) i zero h lt = absurd (omega arith)
opens-drop-index (c ∷ s) zero (suc j) h lt = ground (arith, opens-take-drop j s)
opens-drop-index (c ∷ s) (suc i) (suc j) h lt = ground (arith, opens-drop-index s i j)

pub opens-is_digit : (s : Text) → is_digit s ≡ true → opens s ≡ 0
unfolding opens is_digit
opens-is_digit [] h = refl
opens-is_digit (c ∷ s) h = ground (arith, opens-is_digit s)

-- What stands around the brackets has one opening bracket fewer than the host.
pub opens-outside :
    (host : Text) (start end : ℕ)
    → bracket_span host ≡ some (start, end)
    → opens (take start host) + opens (drop (end + 1) host) + 1 ≤ opens host
unfolding bracket_span
opens-outside host start end h =
    ground (arith, opens-take-index host start, opens-drop-index host start (end + 1))
