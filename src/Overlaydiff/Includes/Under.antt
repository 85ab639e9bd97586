-- ===== src/Overlaydiff/Includes/Under.antt =====
-- When a root holds a path: what the test by `strings.HasPrefix` says.
use warewulf.Common.{
  ◌≤◌, ◌≡◌, refl, sym, ◌∙◌, ap, subst, true, [], ◌∷◌, ◌++◌, length, arith, Bool-cases, inl, inr,
  ◌⊎◌, ◌↔◌, append_assoc, length-append,
}
use warewulf.Common.Text.{Text, codes, text_eq, text_eq_iff, has_prefix}
use warewulf.Overlaydiff.Paths.{is_under}

has_prefix-rest :
    (s prefix : Text) → has_prefix s prefix ≡ true → (rest : Text) × (s ≡ prefix ++ rest)
unfolding has_prefix
has_prefix-rest s [] h = (s, refl)
has_prefix-rest [] (c ∷ prefix) h = absurd (ground (arith, h))
has_prefix-rest (d ∷ s) (c ∷ prefix) h =
    let (rest, e) = has_prefix-rest s prefix (ground (arith, h)) in
    let same : d ≡ c = ground (arith, h) in (rest, rw (same, e) refl)

has_prefix-append : (prefix rest : Text) → has_prefix (prefix ++ rest) prefix ≡ true
unfolding has_prefix
has_prefix-append [] rest = refl
has_prefix-append (c ∷ prefix) rest = ground (arith, has_prefix-append prefix rest)

-- A path is the root or begins with the root and a slash. The root `/` has a slash already, so that
-- `/etc` is not under it.
abbrev pub Under : Text → Text → Type 0
Under path root = (path ≡ root) ⊎ ((rest : Text) × (path ≡ root ++ (b'/' ∷ rest)))

pub is_under_iff : (path root : Text) → (is_under path root ≡ true) ↔ Under path root
unfolding is_under
is_under_iff path root = (to, from)
  where
    to : is_under path root ≡ true → Under path root
    to h = elim (Bool-cases (text_eq path root)) [
      | inl e ↦ inl ((text_eq_iff path root).0 e)
      | inr e ↦
          let (rest, f) = has_prefix-rest path (root ++ codes "/") (ground (arith, h, e)) in
          inr (rest, f ∙ rw append_assoc refl)
    ]

    from : Under path root → is_under path root ≡ true
    from (inl e) = ground (arith, (text_eq_iff path root).1 e)
    from (inr (rest, e)) =
        let below : has_prefix path (root ++ codes "/") ≡ true =
          rw (e ∙ sym (append_assoc root (codes "/") rest))
            (has_prefix-append (root ++ codes "/") rest) in
        ground (arith, below)

pub Under-trans : (a b c : Text) → Under a b → Under b c → Under a c
Under-trans a b c (inl e) v = subst (λ z. Under z c) (sym e) v
Under-trans a b c (inr (r, e)) (inl f) = inr (r, e ∙ rw f refl)
Under-trans a b c (inr (r, e)) (inr (s, f)) = inr (s ++ (b'/' ∷ r), e ∙ rw f (rw append_assoc refl))

pub Under-length : (a b : Text) → Under a b → length a ≤ length b → a ≡ b
Under-length a b (inl e) h = e
Under-length a b (inr (r, e)) h = absurd (omega (arith, h, ap length e, length-append b (b'/' ∷ r)))
