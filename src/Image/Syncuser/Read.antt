-- ===== src/Image/Syncuser/Read.antt =====
-- What is read from the passwd or group files of host and image.
use warewulf.Common.{
  ◌≡◌, refl, sym, ◌∙◌, ap, Bool, true, false, not, ◌&&◌, List, [], ◌∷◌, none, some, arith, inl, inr,
  Bool-cases, if◌then◌else◌, Option-cases,
}
use warewulf.Common.Text.{Text, text_eq, text_eq_iff}
use warewulf.Common.Maps.{lookup, lookup-insert}
use warewulf.Common.Integers.{ℤ, int_eq, int_eq_iff}
use warewulf.Image.Syncuser.{
  SyncInfo, SyncDb, no_id, line_entry, entry_of_name, set_id, read_entry, read,
}

-- The first id that the lines give to the name, or -1.
abbrev pub first_id : Text → List Text → ℤ
first_id name [] = no_id
first_id name (line ∷ lines) =
    let rest = first_id name lines in
    elim (line_entry line) [
      | none ↦ rest
      | some (n, id) ↦ if text_eq n name && not (int_eq id no_id) then id else rest
    ]

abbrev pub entry_at : Text → SyncDb → SyncInfo
entry_at name db = entry_of_name (lookup name db)

-- The id of one side, and of the other side.
abbrev side : Bool → SyncInfo → ℤ
side true info = info.image_id
side false info = info.host_id

abbrev or_else : ℤ → ℤ → ℤ
or_else old new = if int_eq old no_id then new else old

abbrev with_image : Text → ℤ → SyncDb → SyncInfo
with_image n id db = record (entry_at n db) { image_id = set_id (entry_at n db).image_id id }

abbrev with_host : Text → ℤ → SyncDb → SyncInfo
with_host n id db = record (entry_at n db) { host_id = set_id (entry_at n db).host_id id }

-- One entry sets the id of its name on its side, where there is none yet.
read_entry-side :
    (from_image : Bool) (n name : Text) (id : ℤ) (db : SyncDb)
    → side from_image (entry_at name (read_entry from_image (n, id) db)) ≡ (
        if text_eq n name
        then or_else (side from_image (entry_at name db)) id
        else side from_image (entry_at name db))
unfolding read_entry entry_of_name set_id
read_entry-side true n name id db = elim (Bool-cases (text_eq n name)) [
  | inl t ↦ rw (lookup-insert n name (with_image n id db) db, t, (text_eq_iff n name).0 t) refl
  | inr f ↦ rw (lookup-insert n name (with_image n id db) db, f) refl
]
read_entry-side false n name id db = elim (Bool-cases (text_eq n name)) [
  | inl t ↦ rw (lookup-insert n name (with_host n id db) db, t, (text_eq_iff n name).0 t) refl
  | inr f ↦ rw (lookup-insert n name (with_host n id db) db, f) refl
]

-- The other side stays as it is.
read_entry-other :
    (from_image : Bool) (n name : Text) (id : ℤ) (db : SyncDb)
    → side (not from_image) (entry_at name (read_entry from_image (n, id) db))
      ≡ side (not from_image) (entry_at name db)
unfolding read_entry entry_of_name
read_entry-other true n name id db = elim (Bool-cases (text_eq n name)) [
  | inl t ↦ rw (lookup-insert n name (with_image n id db) db, t, (text_eq_iff n name).0 t) refl
  | inr f ↦ rw (lookup-insert n name (with_image n id db) db, f) refl
]
read_entry-other false n name id db = elim (Bool-cases (text_eq n name)) [
  | inl t ↦ rw (lookup-insert n name (with_host n id db) db, t, (text_eq_iff n name).0 t) refl
  | inr f ↦ rw (lookup-insert n name (with_host n id db) db, f) refl
]

or_else-no_id : (old : ℤ) → or_else old no_id ≡ old
or_else-no_id old = ground (arith, int_eq_iff old no_id)

or_else-twice :
    (old id new : ℤ)
    → or_else (or_else old id) new ≡ or_else old (if not (int_eq id no_id) then id else new)
or_else-twice old id new = ground (arith, int_eq_iff old no_id, int_eq_iff id no_id)

module _ (from_image : Bool) (line : Text) (lines : List Text) (db : SyncDb) where
  read-ignored :
      line_entry line ≡ none → read from_image (line ∷ lines) db ≡ read from_image lines db
  unfolding read
  read-ignored e = rw (e, read) refl

  read-taken :
      (n : Text) (id : ℤ)
      → line_entry line ≡ some (n, id)
      → read from_image (line ∷ lines) db ≡ read from_image lines (read_entry from_image (n, id) db)
  unfolding read
  read-taken n id e = rw (e, read) refl

read-side :
    (from_image : Bool) (name : Text) (lines : List Text) (db : SyncDb)
    → side from_image (entry_at name (read from_image lines db))
      ≡ or_else (side from_image (entry_at name db)) (first_id name lines)
unfolding read
read-side from_image name [] db = sym (or_else-no_id (side from_image (entry_at name db)))
read-side from_image name (line ∷ lines) db = elim (Option-cases (line_entry line)) [
  | inl e ↦
      rw (read-ignored from_image line lines db e, first_id, e) (read-side from_image name lines db)
  | inr ((n, id), e) ↦ elim (Bool-cases (text_eq n name)) [
    | inl t ↦
        rw (read-taken from_image line lines db n id e, first_id, e, t)
          (read-side from_image name lines (read_entry from_image (n, id) db)
            ∙ ap (λ z. or_else z (first_id name lines))
                {y = or_else (side from_image (entry_at name db)) id}
                (read_entry-side from_image n name id db ∙ rw t refl)
            ∙ or_else-twice (side from_image (entry_at name db)) id (first_id name lines))
    | inr f ↦
        rw (read-taken from_image line lines db n id e, first_id, e, f)
          (read-side from_image name lines (read_entry from_image (n, id) db)
            ∙ ap (λ z. or_else z (first_id name lines)) {y = side from_image (entry_at name db)}
                (read_entry-side from_image n name id db ∙ rw f refl))
  ]
]

read-other :
    (from_image : Bool) (name : Text) (lines : List Text) (db : SyncDb)
    → side (not from_image) (entry_at name (read from_image lines db))
      ≡ side (not from_image) (entry_at name db)
unfolding read
read-other from_image name [] db = refl
read-other from_image name (line ∷ lines) db = elim (Option-cases (line_entry line)) [
  | inl e ↦ rw (read-ignored from_image line lines db e) (read-other from_image name lines db)
  | inr ((n, id), e) ↦ rw (read-taken from_image line lines db n id e) (
      read-other from_image name lines (read_entry from_image (n, id) db)
      ∙ read_entry-other from_image n name id db)
]

-- The database of `Syncuser`: the lines of the host, then those of the image.
abbrev pub read_both : List Text → List Text → SyncDb
read_both host image = read true image (read false host [])

-- A name has on each side the first id that the lines of that side give to it, or -1.
pub read_both_lem :
    (name : Text) (host image : List Text)
    → ((entry_at name (read_both host image)).host_id ≡ first_id name host)
      × ((entry_at name (read_both host image)).image_id ≡ first_id name image)
unfolding lookup entry_of_name int_eq
read_both_lem name host image = (
  read-other true name image (read false host []) ∙ read-side false name host [],
  read-side true name image (read false host [])
      ∙ ap (λ z. or_else z (first_id name image)) (read-other false name host []),
)
