-- ===== src/Common/Integers.antt =====
-- Integers of either sign, over the native numbers, and their Boolean tests.
use Prim.Native.Nat.{ℕ}
use mathlib.Core.Path.{◌≡◌, ap, refl}
use mathlib.Core.Logic.{◌↔◌}
use mathlib.Core.Bool.{Bool, true, false}
use native.Mathlib.Omega.{arith}
use warewulf.Common.Tests.{◌==◌, leb, ==_iff}

-- `int64` and `int`: `negsuc n` is -(n + 1).
pub data ℤ : Type 0 where
  pos : ℕ → ℤ
  negsuc : ℕ → ℤ

unfoldable pub int_eq : ℤ → ℤ → Bool
int_eq (pos m) (pos n) = m == n
int_eq (negsuc m) (negsuc n) = m == n
int_eq _ _ = false

unfoldable pub int_le : ℤ → ℤ → Bool
int_le (pos m) (pos n) = leb m n
int_le (pos m) (negsuc n) = false
int_le (negsuc m) (pos n) = true
int_le (negsuc m) (negsuc n) = leb n m

pub int_eq_iff : (a b : ℤ) → (int_eq a b ≡ true) ↔ (a ≡ b)
unfolding int_eq
int_eq_iff (pos m) (pos n) =
    (λ h. ap pos ((==_iff m n).0 h), λ e. (==_iff m n).1 (ground (arith, e)))
int_eq_iff (negsuc m) (negsuc n) =
    (λ h. ap negsuc ((==_iff m n).0 h), λ e. (==_iff m n).1 (ground (arith, e)))
int_eq_iff (pos m) (negsuc n) = (λ h. absurd (ground (arith, h)), λ e. absurd (ground (arith, e)))
int_eq_iff (negsuc m) (pos n) = (λ h. absurd (ground (arith, h)), λ e. absurd (ground (arith, e)))

pub int_le_trans : (a b c : ℤ) → int_le a b ≡ true → int_le b c ≡ true → int_le a c ≡ true
unfolding int_le
int_le_trans (pos l) (pos m) (pos n) h k = ground (arith, h, k)
int_le_trans (pos l) (pos m) (negsuc n) h k = absurd (ground (arith, k))
int_le_trans (pos l) (negsuc m) c h k = absurd (ground (arith, h))
int_le_trans (negsuc l) (pos m) (pos n) h k = refl
int_le_trans (negsuc l) (pos m) (negsuc n) h k = absurd (ground (arith, k))
int_le_trans (negsuc l) (negsuc m) (pos n) h k = refl
int_le_trans (negsuc l) (negsuc m) (negsuc n) h k = ground (arith, h, k)

pub int_le_total : (a b : ℤ) → int_le a b ≡ false → int_le b a ≡ true
unfolding int_le
int_le_total (pos m) (pos n) h = ground (arith, h)
int_le_total (pos m) (negsuc n) h = refl
int_le_total (negsuc m) (pos n) h = absurd (ground (arith, h))
int_le_total (negsuc m) (negsuc n) h = ground (arith, h)

pub int_le_antisym : (a b : ℤ) → int_le a b ≡ true → int_le b a ≡ true → a ≡ b
unfolding int_le
int_le_antisym (pos m) (pos n) h k = ap pos (ground (arith, h, k))
int_le_antisym (pos m) (negsuc n) h k = absurd (ground (arith, h))
int_le_antisym (negsuc m) (pos n) h k = absurd (ground (arith, k))
int_le_antisym (negsuc m) (negsuc n) h k = ap negsuc (ground (arith, h, k))
