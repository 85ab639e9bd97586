-- ===== src/Node/Lists.antt =====
-- internal/pkg/node/methods.go: `negList`, `cleanList` and `isUnsetValue`.
pub mod Clean
use warewulf.Common.{
  ◌≡◌, refl, Bool, true, false, not, List, [], ◌∷◌, ◌++◌, ◌||◌, any, keep, drop, if◌then◌else◌,
}
use warewulf.Common.Text.{Text, codes, text_eq, has_prefix, contains}

-- `strings.HasPrefix(tok, "~")`
unfoldable pub is_negated : Text → Bool
unfolding has_prefix
is_negated tok = has_prefix tok (codes "~")

unfoldable pub neg_list : List Text → List Text
unfolding is_negated
neg_list [] = []
neg_list (tok ∷ list) = if is_negated tok then drop 1 tok ∷ neg_list list else neg_list list

-- The inner loop of `cleanList`: whether `listTok` stays.
unfoldable pub not_negate : List Text → Text → Bool
unfolding text_eq
not_negate neg list_tok =
    not (any (λ neg_tok. text_eq list_tok neg_tok || text_eq list_tok (codes "~" ++ neg_tok)) neg)

unfoldable pub clean_list : List Text → List Text
unfolding neg_list not_negate
clean_list list = keep (not_negate (neg_list list)) list

abbrev pub unset_values : List Text
unset_values = codes "UNSET" ∷ codes "UNDEF" ∷ []

unfoldable pub is_unset_value : Text → Bool
unfolding contains text_eq
is_unset_value value = contains unset_values value

clean_example :
    clean_list (codes "a" ∷ codes "b" ∷ codes "~a" ∷ codes "c" ∷ []) ≡ codes "b" ∷ codes "c" ∷ []
unfolding clean_list
clean_example = refl
