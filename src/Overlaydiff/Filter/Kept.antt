-- ===== src/Overlaydiff/Filter/Kept.antt =====
-- Which values `ParseChangeTypes` takes.
use warewulf.Common.{
  ◌≡◌, refl, ◌∙◌, ap, ◌++◌, true, false, List, [], ◌∷◌, arith, Bool-cases, inl, inr, ◌⊎◌, ◌↔◌, All,
  map,
}
use warewulf.Common.Text.{Text, text_eq_iff, to_lower}
use warewulf.Common.Results.{ok, err}
use warewulf.Overlaydiff.Types.{change_added, change_modified, change_mode_changed}
use warewulf.Overlaydiff.Paths.{trim_space}
use warewulf.Overlaydiff.Filter.{invalid_filter, is_filter_type, parse_change_types}

abbrev pub normalized_value : Text → Text
normalized_value value = to_lower (trim_space value)

abbrev pub IsFilterType : Text → Type 0
IsFilterType t = (t ≡ change_added) ⊎ ((t ≡ change_modified) ⊎ (t ≡ change_mode_changed))

is_filter_type_iff : (t : Text) → (is_filter_type t ≡ true) ↔ IsFilterType t
unfolding is_filter_type
is_filter_type_iff t = (
  λ h. ground (
    arith,
    h,
    text_eq_iff t change_added,
    text_eq_iff t change_modified,
    text_eq_iff t change_mode_changed,
  ),
  λ i. ground (
    arith,
    i,
    text_eq_iff t change_added,
    text_eq_iff t change_modified,
    text_eq_iff t change_mode_changed,
  ),
)

-- All values are taken, trimmed and in lower case, and each is then one of the three kinds; or the
-- error names the first that is not.
abbrev pub ParsesOrFails : List Text → Type 0
ParsesOrFails values =
    ((parse_change_types values ≡ ok (map normalized_value values))
      × All (λ v. IsFilterType (normalized_value v)) values)
    ⊎ ((before : List Text) × (value : Text) × (after : List Text) × (values
          ≡ before ++ (value ∷ after))
        × All (λ v. IsFilterType (normalized_value v)) before
        × (¬ IsFilterType (normalized_value value))
        × (parse_change_types values ≡ err (invalid_filter value)))

module _ (value : Text) (values : List Text) where
  parse-bad :
      is_filter_type (normalized_value value) ≡ false
      → parse_change_types (value ∷ values) ≡ err (invalid_filter value)
  unfolding parse_change_types
  parse-bad e = rw (e, parse_change_types) refl

  parse-good :
      is_filter_type (normalized_value value) ≡ true
      → parse_change_types (value ∷ values) ≡ (elim (parse_change_types values) [
        | err e ↦ err e
        | ok result ↦ ok (normalized_value value ∷ result)
      ])
  unfolding parse_change_types
  parse-good e = rw (e, parse_change_types) refl

-- `ParseChangeTypes` takes all values, trimmed and in lower case, where each is then one of the three
-- kinds; otherwise it fails with the message on the first value that is not.
pub parse_change_types_lem : (values : List Text) → ParsesOrFails values
unfolding parse_change_types
parse_change_types_lem [] = inl (refl, tt)
parse_change_types_lem (value ∷ values) =
    elim (Bool-cases (is_filter_type (normalized_value value))) [
      | inr e ↦ inr (
        [],
        value,
        values,
        refl,
        tt,
        (λ i. absurd (ground (arith, e, (is_filter_type_iff (normalized_value value)).1 i))),
        parse-bad value values e,
      )
      | inl e ↦ elim (parse_change_types_lem values) [
        | inl (f, all) ↦ inl (
          parse-good value values e ∙ rw f refl,
          ((is_filter_type_iff (normalized_value value)).0 e, all),
        )
        | inr (before, v, after, q, all, bad, f) ↦ inr (
          value ∷ before,
          v,
          after,
          ap (λ z. value ∷ z) q,
          ((is_filter_type_iff (normalized_value value)).0 e, all),
          bad,
          parse-good value values e ∙ rw f refl,
        )
      ]
    ]
