-- ===== src/Node/Storage/Order.antt =====
-- The order of partitions: by number, then by size, those without a size last.
use warewulf.Common.{
  ◌≡◌, ◌≢◌, refl, sym, ◌∙◌, ap, Bool, true, false, Option, none, some, inl, inr, arith,
  if◌then◌else◌, Bool-cases,
}
use warewulf.Common.Integers.{
  ℤ, int_eq, int_le, int_eq_iff, int_le_trans, int_le_total, int_le_antisym,
}
use warewulf.Node.Storage.{IgnitionPartition, size_before, partition_before}

abbrev pub size_le : Option ℤ → Option ℤ → Bool
unfolding int_le
size_le a none = true
size_le none (some b) = false
size_le (some a) (some b) = int_le a b

unfoldable pub partition_le : IgnitionPartition → IgnitionPartition → Bool
unfolding int_eq int_le
partition_le a b =
    if int_eq a.number b.number then size_le a.size_mib b.size_mib else int_le a.number b.number

size_le_trans : (a b c : Option ℤ) → size_le a b ≡ true → size_le b c ≡ true → size_le a c ≡ true
unfolding size_le
size_le_trans a b none h k = refl
size_le_trans (some a) (some b) (some c) h k = int_le_trans a b c h k
size_le_trans none (some b) (some c) h k = h
size_le_trans a none (some c) h k = absurd (ground (arith, k))

int_eq_refl : (a b : ℤ) → a ≡ b → int_eq a b ≡ true
int_eq_refl a b e = (int_eq_iff a b).1 e

pub partition_le_trans :
    (a b c : IgnitionPartition)
    → partition_le a b ≡ true
    → partition_le b c ≡ true
    → partition_le a c ≡ true
unfolding partition_le
partition_le_trans a b c h k = ground (
  arith,
  size_le_trans a.size_mib b.size_mib c.size_mib,
  int_le_trans a.number b.number c.number,
  int_eq_iff a.number b.number,
  int_eq_iff b.number c.number,
  int_eq_iff a.number c.number,
  int_le_antisym a.number b.number,
  h,
  k,
)

pub before_true :
    (a b : IgnitionPartition) → partition_before a b ≡ some true → partition_le a b ≡ true
unfolding partition_before partition_le size_le
before_true a b h = elim (Bool-cases (int_eq a.number b.number)) [
  | inl e ↦ rw e (sizes a.size_mib b.size_mib (rw (partition_before, e) refl ∙ h))
  | inr f ↦ ground (arith, int_le_total b.number a.number, f, h)
]
  where
    sizes : (s t : Option ℤ) → size_before s t ≡ some true → size_le s t ≡ true
    sizes s none e = refl
    sizes none (some t) e = absurd (ground (arith, e))
    sizes (some s) (some t) e = ground (arith, int_le_total t s, e)

pub before_false :
    (a b : IgnitionPartition) → partition_before a b ≡ some false → partition_le b a ≡ true
unfolding partition_before partition_le size_le
before_false a b h = ground (
  arith,
  int_eq_iff a.number b.number,
  int_eq_iff b.number a.number,
  sizes a.size_mib b.size_mib,
  h,
)
  where
    sizes : (s t : Option ℤ) → size_before s t ≡ some false → size_le t s ≡ true
    sizes none t e = refl
    sizes (some s) none e = absurd (ground (arith, e))
    sizes (some s) (some t) e = ground (arith, e)

-- Two partitions of one number, of which none has a size.
abbrev pub BothUnsized : IgnitionPartition → IgnitionPartition → Type 0
BothUnsized a b = (a.number ≡ b.number) × (a.size_mib ≡ none) × (b.size_mib ≡ none)

pub partition_before-none :
    (a b : IgnitionPartition) → partition_before a b ≡ none → BothUnsized a b
unfolding partition_before
partition_before-none a b h = elim (Bool-cases (int_eq a.number b.number)) [
  | inr f ↦ absurd (ground (arith, f, h))
  | inl e ↦
      let (s, t) = sizes a.size_mib b.size_mib (sym (rw (partition_before, e) refl) ∙ h) in
      ((int_eq_iff a.number b.number).0 e, s, t)
]
  where
    sizes : (s t : Option ℤ) → size_before s t ≡ none → (s ≡ none) × (t ≡ none)
    sizes none none e = (refl, refl)
    sizes none (some t) e = absurd (ground (arith, e))
    sizes (some s) none e = absurd (ground (arith, e))
    sizes (some s) (some t) e = absurd (ground (arith, e))

pub BothUnsized-partition_before :
    (a b : IgnitionPartition) → BothUnsized a b → partition_before a b ≡ none
unfolding partition_before
BothUnsized-partition_before a b (e, s, t) =
    rw ((int_eq_iff a.number b.number).1 e) (rw s (rw t refl))

pub clash_le :
    (a b c : IgnitionPartition)
    → partition_before b c ≡ none
    → partition_le a b ≡ true
    → partition_before a c ≢ some false
unfolding partition_le size_le partition_before
clash_le a b c n l f =
    let (e, s, t) = partition_before-none b c n in
    elim (Bool-cases (int_eq a.number c.number)) [
      | inl q ↦ unsized a.size_mib (sym (rw (partition_before, q, t) refl) ∙ f)
      | inr q ↦ ground (
        arith,
        int_le_antisym a.number c.number,
        int_eq_iff a.number c.number,
        int_eq_iff a.number b.number,
        greater q f,
        ap (λ z. int_le a.number z) e,
        ap (λ z. int_eq a.number z) e,
        l,
      )
    ]
  where
    unsized : (s : Option ℤ) → size_before s none ≢ some false
    unsized none e = absurd (ground (arith, e))
    unsized (some s) e = absurd (ground (arith, e))

    greater :
        int_eq a.number c.number ≡ false
        → partition_before a c ≡ some false
        → int_le c.number a.number ≡ true
    greater q e = ground (arith, q, e)
