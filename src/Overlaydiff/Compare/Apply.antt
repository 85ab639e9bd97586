-- ===== src/Overlaydiff/Compare/Apply.antt =====
-- What applying the changes that `Compare` lists makes of the baseline.
use warewulf.Common.{
  ◌≡◌, ◌≢◌, refl, ap, ◌∙◌, true, List, [], ◌∷◌, Option, none, some, if◌then◌else◌, In, inl, inr,
  ◌⊎◌, arith, Bool-cases, Option-cases,
}
use warewulf.Common.Text.{Text, text_eq, text_eq_iff}
use warewulf.Common.Maps.{Map, lookup, insert, delete, lookup-insert, lookup-delete}
use warewulf.Overlaydiff.Types.{Entry, Change, entry_file, entry_symlink}

-- What an operator does with a change: the entry of the source is put in place, or the path is
-- removed where the source has none.
pub apply_change : Change → Map Entry → Map Entry
apply_change c m = elim c.source [ none ↦ delete c.path m | some e ↦ insert c.path e m ]

pub apply_all : List Change → Map Entry → Map Entry
apply_all [] m = m
apply_all (c ∷ cs) m = apply_all cs (apply_change c m)

-- Two entries that need no change between them.
pub record Alike (a b : Entry) : Type 0 where
  pub type : a.type ≡ b.type
  pub mode : a.mode ≡ b.mode
  pub hash : a.type ≡ entry_file → a.hash ≡ b.hash
  pub link_target : a.type ≡ entry_symlink → a.link_target ≡ b.link_target

abbrev pub Same : Option Entry → Option Entry → Type 0
Same none none = Unit
Same (some a) (some b) = Alike a b
Same _ _ = ⊥

pub Same-refl : (o : Option Entry) → Same o o
Same-refl none = tt
Same-refl (some a) = record { type = refl; mode = refl; hash = λ _. refl; link_target = λ _. refl }

lookup-apply_change :
    (c : Change) (m : Map Entry) (k : Text)
    → lookup k (apply_change c m) ≡ (if text_eq c.path k then c.source else lookup k m)
unfolding apply_change
lookup-apply_change c m k = elim (Option-cases c.source) [
  | inl e ↦ rw (e, apply_change) (lookup-delete c.path k m)
  | inr (s, e) ↦ rw (e, apply_change) (lookup-insert c.path k s m)
]

-- Where each change for `k` carries `o`, and `o` stands there before or a change for `k` is
-- listed, `o` stands there in the end.
pub lookup-apply_all :
    (cs : List Change) (m : Map Entry) (k : Text) (o : Option Entry)
    → ((c : Change) → In c cs → c.path ≡ k → c.source ≡ o)
    → (lookup k m ≡ o) ⊎ ((c : Change) × In c cs × (c.path ≡ k))
    → lookup k (apply_all cs m) ≡ o
unfolding apply_all
lookup-apply_all [] m k o all (inl e) = e
lookup-apply_all [] m k o all (inr (c, i, _)) = absurd i
lookup-apply_all (c ∷ cs) m k o all start =
    lookup-apply_all cs (apply_change c m) k o (λ d i. all d (inr i)) (next start)
  where
    now : text_eq c.path k ≡ true → lookup k (apply_change c m) ≡ o
    now e = lookup-apply_change c m k ∙ rw e (all c (inl refl) ((text_eq_iff c.path k).0 e))

    next :
        (lookup k m ≡ o) ⊎ ((d : Change) × In d (c ∷ cs) × (d.path ≡ k))
        → (lookup k (apply_change c m) ≡ o) ⊎ ((d : Change) × In d cs × (d.path ≡ k))
    next (inl e) = elim (Bool-cases (text_eq c.path k)) [
      | inl t ↦ inl (now t)
      | inr t ↦ inl (lookup-apply_change c m k ∙ rw t e)
    ]
    next (inr (d, inl q, p)) =
        inl (now ((text_eq_iff c.path k).1 (ap (λ (x : Change). x.path) q ∙ p)))
    next (inr (d, inr i, p)) = inr (d, i, p)

pub lookup-untouched :
    (cs : List Change) (m : Map Entry) (k : Text)
    → ((c : Change) → In c cs → c.path ≢ k)
    → lookup k (apply_all cs m) ≡ lookup k m
unfolding apply_all
lookup-untouched [] m k none_for = refl
lookup-untouched (c ∷ cs) m k none_for =
    lookup-untouched cs (apply_change c m) k (λ d i. none_for d (inr i))
    ∙ lookup-apply_change c m k
    ∙ ground (arith, text_eq_iff c.path k, none_for c (inl refl))
