-- ===== src/Hostlist/Compress/Plain.antt =====
-- Texts without brackets or commas, and how the hostlist functions pass over them.
use warewulf.Common.{
  ℕ, suc, ◌+◌, ◌≡◌, ◌≢◌, refl, true, List, [], ◌∷◌, ◌++◌, arith, length, some, none, take, drop,
  All, ◌∙◌, ap, append_assoc, append-nil,
}
use warewulf.Common.Text.{Text, split, join}
use warewulf.Hostlist.Numbers.{is_digit, pad}
use warewulf.Hostlist.Numbers.Decimal.{is_digit-pad}
use warewulf.Hostlist.Expand.{split_loop, index, opens}

abbrev pub InnerByte : ℕ → Type 0
InnerByte c = (c ≢ b'[') × (c ≢ b']')

abbrev pub PlainByte : ℕ → Type 0
PlainByte c = (c ≢ b'[') × (c ≢ b']') × (c ≢ b',')

abbrev pub IsInner : Text → Type 0
IsInner = All InnerByte

abbrev pub IsPlain : Text → Type 0
IsPlain = All PlainByte

pub IsPlain-IsInner : (s : Text) → IsPlain s → IsInner s
IsPlain-IsInner [] h = tt
IsPlain-IsInner (c ∷ s) h = ((h.0.0, h.0.1), IsPlain-IsInner s h.1)

is_digit-IsPlain : (s : Text) → is_digit s ≡ true → IsPlain s
unfolding is_digit
is_digit-IsPlain [] h = tt
is_digit-IsPlain (c ∷ s) h = ground (arith, is_digit-IsPlain s)

pub pad-IsPlain : (w n : ℕ) → IsPlain (pad w n)
pad-IsPlain w n = is_digit-IsPlain (pad w n) (is_digit-pad w n)

-- Outside brackets a plain text is taken as it is; inside, commas are too.
pub split_loop-IsPlain :
    (s t cur : Text) (parts : List Text)
    → IsPlain s
    → split_loop (s ++ t) 0 cur parts ≡ split_loop t 0 (cur ++ s) parts
unfolding split_loop
split_loop-IsPlain [] t cur parts h = rw append-nil
split_loop-IsPlain (c ∷ s) t cur parts h =
    ground (arith, split_loop-IsPlain s t (cur ++ c ∷ []) parts h.1, append_assoc cur (c ∷ []) s)

pub split_loop-IsInner :
    (s t cur : Text) (parts : List Text)
    → IsInner s
    → split_loop (s ++ t) 1 cur parts ≡ split_loop t 1 (cur ++ s) parts
unfolding split_loop
split_loop-IsInner [] t cur parts h = rw append-nil
split_loop-IsInner (c ∷ s) t cur parts h =
    ground (arith, split_loop-IsInner s t (cur ++ c ∷ []) parts h.1, append_assoc cur (c ∷ []) s)

abbrev pub Lacks : ℕ → Text → Type 0
Lacks b = All (λ c. c ≢ b)

pub IsInner-Lacks_open : (s : Text) → IsInner s → Lacks b'[' s
IsInner-Lacks_open [] h = tt
IsInner-Lacks_open (c ∷ s) h = (h.0.0, IsInner-Lacks_open s h.1)

pub IsInner-Lacks_close : (s : Text) → IsInner s → Lacks b']' s
IsInner-Lacks_close [] h = tt
IsInner-Lacks_close (c ∷ s) h = (h.0.1, IsInner-Lacks_close s h.1)

pub IsPlain-Lacks_comma : (s : Text) → IsPlain s → Lacks b',' s
IsPlain-Lacks_comma [] h = tt
IsPlain-Lacks_comma (c ∷ s) h = (h.0.2, IsPlain-Lacks_comma s h.1)

pub index-Lacks : (s : Text) (b : ℕ) → Lacks b s → index s b ≡ none
unfolding index
index-Lacks [] b h = refl
index-Lacks (c ∷ s) b h = ground (arith, index-Lacks s b h.1)

pub index-append : (s t : Text) (b : ℕ) → Lacks b s → index (s ++ b ∷ t) b ≡ some (length s)
unfolding index
index-append [] t b h = ground arith
index-append (c ∷ s) t b h = ground (arith, index-append s t b h.1)

pub opens-Lacks : (s : Text) → Lacks b'[' s → opens s ≡ 0
unfolding opens
opens-Lacks [] h = refl
opens-Lacks (c ∷ s) h = ground (arith, opens-Lacks s h.1)

pub take-length : (s t : Text) → take (length s) (s ++ t) ≡ s
take-length [] t = refl
take-length (c ∷ s) t = ap (λ (r : Text). c ∷ r) (take-length s t)

pub drop-length : (s t : Text) → drop (length s) (s ++ t) ≡ t
drop-length [] t = refl
drop-length (c ∷ s) t = drop-length s t

pub drop-suc_length : (s t : Text) (b : ℕ) → drop (length s + 1) (s ++ b ∷ t) ≡ t
drop-suc_length [] t b = refl
drop-suc_length (c ∷ s) t b =
    let e : suc (length s) + 1 ≡ suc (length s + 1) = omega arith in rw e (drop-suc_length s t b)

split-Lacks : (p : Text) (sep : ℕ) → Lacks sep p → split p sep ≡ p ∷ []
unfolding split
split-Lacks [] sep h = refl
split-Lacks (c ∷ p) sep h = ground (arith, split-Lacks p sep h.1)

split-append : (p t : Text) (sep : ℕ) → Lacks sep p → split (p ++ sep ∷ t) sep ≡ p ∷ split t sep
unfolding split
split-append [] t sep h = ground arith
split-append (c ∷ p) t sep h = ground (arith, split-append p t sep h.1)

-- Splitting a join gives the parts back.
pub split-join :
    (p : Text) (ps : List Text) (sep : ℕ)
    → All (Lacks sep) (p ∷ ps)
    → split (join (p ∷ ps) (sep ∷ [])) sep ≡ p ∷ ps
unfolding join
split-join p [] sep h = split-Lacks p sep h.0
split-join p (q ∷ ps) sep h =
    split-append p _ sep h.0 ∙ ap (λ (t : List Text). p ∷ t) (split-join q ps sep h.1)
