-- ===== src/Image/Syncuser/Conflicts.antt =====
-- What `checkConflicts` finds.
use warewulf.Common.{
  ◌≡◌, refl, true, not, ◌||◌, [], ◌∷◌, none, some, arith, inl, inr, ◌⊎◌, In, Bool-cases, ap, ◌∙◌,
  sym,
}
use warewulf.Common.Text.{Text}
use warewulf.Common.Integers.{ℤ, int_eq, int_eq_iff}
use warewulf.Image.Syncuser.{
  SyncInfo, SyncDb, Collision, in_host, in_image, only_image, find_host_id, check_entries,
  check_conflicts,
}

-- An entry of the database gives the id to a name on the host.
abbrev pub OnHost : SyncDb → Text → ℤ → Type 0
OnHost db name id = (j : SyncInfo) × In (name, j) db × (j.host_id ≡ id)

find_host_id-cases :
    (name : Text) (id : ℤ) (db : SyncDb)
    → ((find_host_id name id db ≡ none) × ((m : Text) → ¬ OnHost db m id))
      ⊎ ((m : Text) × OnHost db m id
          × (find_host_id name id db
              ≡ some (record { name_in_host = m; name_in_image = name; id = id })))
unfolding find_host_id
find_host_id-cases name id [] = inl (refl, λ m (j, i, e). i)
find_host_id-cases name id ((m, j) ∷ db) = elim (Bool-cases (int_eq j.host_id id)) [
  | inl t ↦ inr (m, (j, inl refl, (int_eq_iff j.host_id id).0 t), rw t refl)
  | inr f ↦ elim (find_host_id-cases name id db) [
    | inl (e, absent) ↦ inl (
      rw f e,
      λ m' (j', i, q). elim i [
        | inl p ↦ ground (arith, f, (int_eq_iff j.host_id id).1 (ap (λ z. z.1.host_id) p ∙ q))
        | inr k ↦ absent m' (j', k, q)
      ],
    )
    | inr (m', (j', k, q), e) ↦ inr (m', (j', inr k, q), rw f e)
  ]
]

-- A name of the entries that only the image has, with an id that the host gives to some name.
abbrev pub Collides : SyncDb → SyncDb → Collision → Type 0
Collides db entries c =
    (i : SyncInfo) × In (c.name_in_image, i) entries
    × (only_image i ≡ true)
    × (i.image_id ≡ c.id)
    × OnHost db c.name_in_host c.id

abbrev pub NoCollision : SyncDb → SyncDb → Type 0
NoCollision db entries = (c : Collision) → ¬ Collides db entries c

skips-only_image : (i : SyncInfo) → only_image i ≡ not (not (in_image i) || in_host i)
unfolding only_image
skips-only_image i = ground arith

module _ (db : SyncDb) where
  check_entries-cases :
      (entries : SyncDb)
      → ((check_entries db entries ≡ none) × NoCollision db entries)
        ⊎ ((c : Collision) × (check_entries db entries ≡ some c) × Collides db entries c)
  unfolding check_entries
  check_entries-cases [] = inl (refl, λ c (i, k, o, e, h). k)
  check_entries-cases ((name, i) ∷ entries) = elim (Bool-cases (not (in_image i) || in_host i)) [
    | inl s ↦ elim (check_entries-cases entries) [
      | inl (e, free) ↦ inl (
        rw s e,
        λ c (i', k, o, q, h). elim k [
          | inl p ↦ ground (arith, s, o, skips-only_image i, ap (λ z. only_image z.1) p)
          | inr l ↦ free c (i', l, o, q, h)
        ],
      )
      | inr (c, e, (i', l, o, q, h)) ↦ inr (c, rw s e, (i', inr l, o, q, h))
    ]
    | inr s ↦ elim (find_host_id-cases name i.image_id db) [
      | inr (m, h, f) ↦ inr (
        record { name_in_host = m; name_in_image = name; id = i.image_id },
        rw (s, f) refl,
        (i, inl refl, ground (arith, s, skips-only_image i), refl, h),
      )
      | inl (f, absent) ↦ elim (check_entries-cases entries) [
        | inl (e, free) ↦ inl (
          rw (s, f) e,
          λ c (i', k, o, q, h). elim k [
            | inl p ↦
                let (j, n, r) = h in
                absent c.name_in_host (j, n, r ∙ sym q ∙ sym (ap (λ z. z.1.image_id) p))
            | inr l ↦ free c (i', l, o, q, h)
          ],
        )
        | inr (c, e, (i', l, o, q, h)) ↦ inr (c, rw (s, f) e, (i', inr l, o, q, h))
      ]
    ]
  ]

  -- What `checkConflicts` says of the database.
  abbrev pub ChecksConflicts : Type 0
  ChecksConflicts =
      ((check_conflicts db ≡ none) × NoCollision db db)
      ⊎ ((c : Collision) × (check_conflicts db ≡ some c) × Collides db db c)

  -- `checkConflicts` gives no error just if no name that only the image has, has an id that the host
  -- gives to some name; the error names such a name, the id, and the name that the host gives it to.
  pub check_conflicts_lem : ChecksConflicts
  unfolding check_conflicts
  check_conflicts_lem = check_entries-cases db
