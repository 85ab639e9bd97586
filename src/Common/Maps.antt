-- ===== src/Common/Maps.antt =====
-- Go maps from strings: association lists, read in the order in which `range` happens to run.
use mathlib.Core.Path.{◌≡◌, refl, ◌∙◌}
use mathlib.Core.Logic.{◌≢◌, inl, inr}
use mathlib.Core.Option.{Option, none, some}
use mathlib.Core.List.{List, [], ◌∷◌}
use native.Mathlib.Omega.{arith}
use warewulf.Common.Tests.{if◌then◌else◌, Bool-cases}
use warewulf.Common.Lists.{In}
use warewulf.Common.Text.{Text, text_eq, text_eq_iff, text_eq_refl}

abbrev pub Map : Type 0 → Type 0
Map V = List (Text × V)

module _ {V : Type 0} where
  -- `v, ok := m[k]`
  unfoldable pub lookup : Text → Map V → Option V
  lookup k [] = none
  lookup k ((j, v) ∷ m) = if text_eq j k then some v else lookup k m

  -- `m[k] = v`
  unfoldable pub insert : Text → V → Map V → Map V
  insert k v [] = (k, v) ∷ []
  insert k v ((j, w) ∷ m) = if text_eq j k then (j, v) ∷ m else (j, w) ∷ insert k v m

  -- `delete(m, k)`
  unfoldable pub delete : Text → Map V → Map V
  delete k [] = []
  delete k ((j, w) ∷ m) = if text_eq j k then delete k m else (j, w) ∷ delete k m

  unfoldable pub keys : Map V → List Text
  keys [] = []
  keys ((j, w) ∷ m) = j ∷ keys m

  -- A Go map holds a key once.
  abbrev pub IsMap : Map V → Type 0
  IsMap [] = Unit
  IsMap ((j, w) ∷ m) = (lookup j m ≡ none) × IsMap m

  pub lookup-insert :
      (k j : Text) (v : V) (m : Map V)
      → lookup j (insert k v m) ≡ (if text_eq k j then some v else lookup j m)
  unfolding lookup insert
  lookup-insert k j v [] = refl
  lookup-insert k j v ((i, w) ∷ m) =
      ground (arith, text_eq_iff k j, text_eq_iff i k, text_eq_iff i j, lookup-insert k j v m)

  pub lookup-insert_self : (k : Text) (v : V) (m : Map V) → lookup k (insert k v m) ≡ some v
  lookup-insert_self k v m = lookup-insert k k v m ∙ rw (text_eq_refl k) refl

  pub lookup-delete :
      (k j : Text) (m : Map V) → lookup j (delete k m) ≡ (if text_eq k j then none else lookup j m)
  unfolding lookup delete
  lookup-delete k j [] = ground arith
  lookup-delete k j ((i, w) ∷ m) =
      ground (arith, text_eq_iff k j, text_eq_iff i k, text_eq_iff i j, lookup-delete k j m)

  pub insert-IsMap : (k : Text) (v : V) (m : Map V) → IsMap m → IsMap (insert k v m)
  unfolding lookup insert
  insert-IsMap k v [] h = (refl, tt)
  insert-IsMap k v ((i, w) ∷ m) h =
      ground (arith, insert-IsMap k v m, lookup-insert k i v m, text_eq_iff i k, text_eq_iff k i)

  pub delete-IsMap : (k : Text) (m : Map V) → IsMap m → IsMap (delete k m)
  unfolding lookup delete
  delete-IsMap k [] h = tt
  delete-IsMap k ((i, w) ∷ m) h = ground (arith, delete-IsMap k m, lookup-delete k i m)

  pub lookup-some-In : (k : Text) (v : V) (m : Map V) → lookup k m ≡ some v → In (k, v) m
  unfolding lookup
  lookup-some-In k v [] h = cc
  lookup-some-In k v ((j, w) ∷ m) h = elim (Bool-cases (text_eq j k)) [
    | inl e ↦ inl (ground (arith, text_eq_iff j k))
    | inr e ↦ inr (lookup-some-In k v m (ground arith))
  ]

  pub In-lookup : (k : Text) (v : V) (m : Map V) → In (k, v) m → lookup k m ≢ none
  unfolding lookup
  In-lookup k v [] i = absurd i
  In-lookup k v ((j, w) ∷ m) (inl e) = ground (arith, text_eq_iff j k)
  In-lookup k v ((j, w) ∷ m) (inr i) = ground (arith, In-lookup k v m i)

  -- In a map, what `range` meets is what `m[k]` gives.
  pub In-lookup-some : (k : Text) (v : V) (m : Map V) → IsMap m → In (k, v) m → lookup k m ≡ some v
  unfolding lookup
  In-lookup-some k v [] h i = absurd i
  In-lookup-some k v ((j, w) ∷ m) h (inl e) = ground (arith, text_eq_iff j k)
  In-lookup-some k v ((j, w) ∷ m) h (inr i) =
      ground (arith, In-lookup-some k v m h.1 i, In-lookup k v m i, text_eq_iff j k)

  pub lookup-In-keys : (k : Text) (m : Map V) → lookup k m ≢ none → In k (keys m)
  unfolding lookup keys
  lookup-In-keys k [] h = absurd (h refl)
  lookup-In-keys k ((j, w) ∷ m) h = elim (Bool-cases (text_eq j k)) [
    | inl e ↦ inl ((text_eq_iff j k).0 e)
    | inr e ↦ inr (lookup-In-keys k m (ground arith))
  ]

  pub In-keys-lookup : (k : Text) (m : Map V) → In k (keys m) → lookup k m ≢ none
  unfolding lookup keys
  In-keys-lookup k [] i = absurd i
  In-keys-lookup k ((j, w) ∷ m) (inl e) = ground (arith, text_eq_iff j k)
  In-keys-lookup k ((j, w) ∷ m) (inr i) = ground (arith, In-keys-lookup k m i)
