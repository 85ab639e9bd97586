-- ===== src/Common/Text.antt =====
-- Go strings as lists of bytes, and what the program takes of the package `strings`.
use Prim.Native.Nat.{ℕ, ◌+◌}
use Prim.Native.Char.{code}
use Prim.Native.String.{String}
use mathlib.Core.Path.{◌≡◌, refl}
use mathlib.Core.Logic.{◌↔◌, inl, inr}
use mathlib.Core.Bool.{Bool, true, false, ◌&&◌, ◌||◌}
use mathlib.Core.Option.{Option, none, some}
use mathlib.Core.List.{List, [], ◌∷◌, ◌++◌, map}
use native.Mathlib.Omega.{arith}
use warewulf.Common.Tests.{ltb, leb, ◌==◌, if◌then◌else◌, Bool-cases}
use warewulf.Common.Lists.{In}

abbrev pub Text : Type 0
Text = List ℕ

-- The bytes of a literal.
abbrev pub codes : String → Text
codes String.[] = []
codes (String.◌∷◌ c s) = code c ∷ codes s

unfoldable pub text_eq : Text → Text → Bool
text_eq [] [] = true
text_eq (a ∷ s) (b ∷ t) = a == b && text_eq s t
text_eq _ _ = false

text_eq_sound : (s t : Text) → text_eq s t ≡ true → s ≡ t
unfolding text_eq
text_eq_sound [] [] h = refl
text_eq_sound [] (b ∷ t) h = cc
text_eq_sound (a ∷ s) [] h = cc
text_eq_sound (a ∷ s) (b ∷ t) h = ground (arith, text_eq_sound s t)

pub text_eq_refl : (s : Text) → text_eq s s ≡ true
unfolding text_eq
text_eq_refl [] = refl
text_eq_refl (a ∷ s) = ground (arith, text_eq_refl s)

pub text_eq_iff : (s t : Text) → (text_eq s t ≡ true) ↔ (s ≡ t)
text_eq_iff s t = (text_eq_sound s t, λ e. rw e (text_eq_refl t))

-- `a <= b` on Go strings: bytewise, a proper prefix first.
unfoldable pub text_le : Text → Text → Bool
text_le [] t = true
text_le (a ∷ s) [] = false
text_le (a ∷ s) (b ∷ t) = if ltb a b then true else if a == b then text_le s t else false

pub text_le_total : (s t : Text) → text_le s t ≡ false → text_le t s ≡ true
unfolding text_le
text_le_total [] t h = cc
text_le_total (a ∷ s) [] h = refl
text_le_total (a ∷ s) (b ∷ t) h = ground (arith, text_le_total s t)

pub text_le_trans : (s t u : Text) → text_le s t ≡ true → text_le t u ≡ true → text_le s u ≡ true
unfolding text_le
text_le_trans [] t u p q = refl
text_le_trans (a ∷ s) [] u p q = cc
text_le_trans (a ∷ s) (b ∷ t) [] p q = cc
text_le_trans (a ∷ s) (b ∷ t) (c ∷ u) p q = ground (arith, text_le_trans s t u)

pub text_le_antisym : (s t : Text) → text_le s t ≡ true → text_le t s ≡ true → s ≡ t
unfolding text_le
text_le_antisym [] [] p q = refl
text_le_antisym [] (b ∷ t) p q = cc
text_le_antisym (a ∷ s) [] p q = cc
text_le_antisym (a ∷ s) (b ∷ t) p q = ground (arith, text_le_antisym s t)

-- `strings.HasPrefix(s, prefix)`
unfoldable pub has_prefix : Text → Text → Bool
has_prefix s [] = true
has_prefix [] (b ∷ p) = false
has_prefix (a ∷ s) (b ∷ p) = a == b && has_prefix s p

-- `strings.TrimPrefix(s, prefix)`: what follows the prefix, or the whole text.
strip : Text → Text → Option Text
strip s [] = some s
strip [] (b ∷ p) = none
strip (a ∷ s) (b ∷ p) = if a == b then strip s p else none

unfoldable pub trim_prefix : Text → Text → Text
unfolding strip
trim_prefix s p = elim (strip s p) [ none ↦ s | some r ↦ r ]

-- `slices.Contains`
unfoldable pub contains : List Text → Text → Bool
contains [] v = false
contains (x ∷ xs) v = text_eq x v || contains xs v

pub contains-In : (xs : List Text) (v : Text) → contains xs v ≡ true → In v xs
unfolding contains
contains-In [] v h = cc
contains-In (x ∷ xs) v h = elim (Bool-cases (text_eq x v)) [
  | inl e ↦ inl ((text_eq_iff x v).0 e)
  | inr e ↦ inr (contains-In xs v (ground arith))
]

pub In-contains : (xs : List Text) (v : Text) → In v xs → contains xs v ≡ true
unfolding contains
In-contains [] v i = absurd i
In-contains (x ∷ xs) v (inl e) = ground (arith, text_eq_iff x v)
In-contains (x ∷ xs) v (inr i) = ground (arith, In-contains xs v i)

pub contains_iff : (xs : List Text) (v : Text) → (contains xs v ≡ true) ↔ In v xs
contains_iff xs v = (contains-In xs v, In-contains xs v)

-- `strings.ToLower`, on ASCII
unfoldable pub lower_byte : ℕ → ℕ
lower_byte c = if leb b'A' c && leb c b'Z' then c + 32 else c

unfoldable pub to_lower : Text → Text
unfolding lower_byte
to_lower = map lower_byte

pub lower_byte_idem : (c : ℕ) → lower_byte (lower_byte c) ≡ lower_byte c
unfolding lower_byte
lower_byte_idem c = ground arith

pub to_lower_idem : (s : Text) → to_lower (to_lower s) ≡ to_lower s
unfolding to_lower
to_lower_idem [] = refl
to_lower_idem (c ∷ s) = ground (arith, lower_byte_idem c, to_lower_idem s)

-- `strings.Split(s, sep)` for a separator of one byte: never empty.
abbrev pub onto_first : ℕ → List Text → List Text
onto_first c [] = (c ∷ []) ∷ []
onto_first c (p ∷ ps) = (c ∷ p) ∷ ps

unfoldable pub split : Text → ℕ → List Text
split [] sep = [] ∷ []
split (c ∷ s) sep = if c == sep then [] ∷ split s sep else onto_first c (split s sep)

-- `strings.Join(parts, sep)`
unfoldable pub join : List Text → Text → Text
join [] sep = []
join (p ∷ []) sep = p
join (p ∷ q ∷ ps) sep = p ++ (sep ++ join (q ∷ ps) sep)
