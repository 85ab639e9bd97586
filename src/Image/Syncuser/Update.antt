-- ===== src/Image/Syncuser/Update.antt =====
-- What the passwd or group file of the image holds after `update`.
use warewulf.Common.{
  ◌≡◌, ◌≢◌, refl, sym, ◌∙◌, true, List, [], ◌∷◌, arith, inl, inr, ◌⊎◌, ◌↔◌, In, ◌++◌, ap,
  append_assoc, append-nil, Bool-cases, Option-cases, zero, subst,
}
use warewulf.Common.Text.{Text, codes, split}
use warewulf.Common.Maps.{lookup}
use warewulf.Common.Integers.{int_eq, int_eq_iff}
use warewulf.Image.Syncuser.{
  SyncInfo, SyncDb, no_id, in_host, in_image, only_image, field, entry_of_name,
  get_only_image_lines, append_lines, update,
}
use warewulf.Image.Syncuser.Read.{first_id, entry_at, read_both, read_both_lem}

abbrev pub line_name : Text → Text
line_name line = field (split line b':') zero

only_image_iff :
    (i : SyncInfo) → (only_image i ≡ true) ↔ ((i.image_id ≢ no_id) × (i.host_id ≡ no_id))
unfolding only_image in_image in_host
only_image_iff i = (
  λ h. (
    λ e. absurd (ground (arith, h, (int_eq_iff i.image_id no_id).1 e)),
    (int_eq_iff i.host_id no_id).0 (ground (arith, h)),
  ),
  λ (a, b). elim (Bool-cases (int_eq i.image_id no_id)) [
    | inl t ↦ absurd (a ((int_eq_iff i.image_id no_id).0 t))
    | inr f ↦ ground (arith, f, (int_eq_iff i.host_id no_id).1 b)
  ],
)

module _ (db : SyncDb) where
  -- A line of which the name is only in the image, by the database.
  abbrev IsOnly : Text → Type 0
  IsOnly line = only_image (entry_at (line_name line) db) ≡ true

  kept-or-not :
      (line : Text) (lines : List Text)
      → ((get_only_image_lines db (line ∷ lines) ≡ line ∷ get_only_image_lines db lines)
          × IsOnly line)
        ⊎ ((get_only_image_lines db (line ∷ lines) ≡ get_only_image_lines db lines)
            × (¬ IsOnly line))
  unfolding get_only_image_lines entry_of_name only_image in_image int_eq
  kept-or-not line lines = elim (Option-cases (lookup (line_name line) db)) [
    | inl e ↦ inr (rw (get_only_image_lines, e) refl, rw e (λ h. absurd (ground (arith, h))))
    | inr (i, e) ↦ elim (Bool-cases (only_image i)) [
      | inl t ↦ inl (rw (get_only_image_lines, e, t) refl, rw (e, entry_of_name) t)
      | inr f ↦ inr (
        rw (get_only_image_lines, e, f) refl,
        rw (e, entry_of_name) (λ h. absurd (ground (arith, h, f))),
      )
    ]
  ]

  In-get_only_image_lines :
      (l : Text) (lines : List Text)
      → In l (get_only_image_lines db lines) ↔ (In l lines × IsOnly l)
  unfolding get_only_image_lines
  In-get_only_image_lines l [] = (λ i. absurd i, λ i. i.0)
  In-get_only_image_lines l (line ∷ lines) =
      let rest = In-get_only_image_lines l lines in
      elim (kept-or-not line lines) [
        | inl (e, only) ↦ rw e (
          λ i. elim i [
            | inl q ↦ (inl q, subst IsOnly q only)
            | inr j ↦ (inr (rest.0 j).0, (rest.0 j).1)
          ],
          λ (i, o). elim i [ inl q ↦ inl q | inr j ↦ inr (rest.1 (j, o)) ],
        )
        | inr (e, other) ↦ rw e (
          λ i. (inr (rest.0 i).0, (rest.0 i).1),
          λ (i, o). elim i [
            | inl q ↦ absurd (other (subst IsOnly (sym q) o))
            | inr j ↦ rest.1 (j, o)
          ],
        )
      ]

-- The lines in a row, each with a newline behind it.
abbrev pub ended : List Text → Text
ended [] = []
ended (line ∷ lines) = line ++ (codes "\n" ++ ended lines)

append_lines_lem :
    (content : Text) (lines : List Text) → append_lines content lines ≡ content ++ ended lines
unfolding append_lines
append_lines_lem content [] = sym (append-nil content)
append_lines_lem content (line ∷ lines) =
    append_lines_lem (content ++ (line ++ codes "\n")) lines
    ∙ append_assoc content (line ++ codes "\n") (ended lines)
    ∙ ap (λ z. content ++ z) (append_assoc line (codes "\n") (ended lines))

-- After `update` the file of the image is the copied file followed by lines, each with a newline
-- behind it: just those lines of the image of which the lines of the image give the name an id, and
-- the lines that were read from the host give it none.
pub update_lem :
    (host image : List Text) (copied : Text)
    → (appended : List Text) × (update (read_both host image) image copied
        ≡ copied ++ ended appended)
      × ((line : Text)
          → In line appended ↔ (
              In line image
              × (first_id (line_name line) image ≢ no_id)
              × (first_id (line_name line) host ≡ no_id)))
unfolding update
update_lem host image copied = (
  get_only_image_lines (read_both host image) image,
  append_lines_lem copied (get_only_image_lines (read_both host image) image),
  λ line.
      let (on_host, on_image) = read_both_lem (line_name line) host image in
      let only = only_image_iff (entry_at (line_name line) (read_both host image)) in
      let kept = In-get_only_image_lines (read_both host image) line image in
      (
        λ i.
            let (k, o) = kept.0 i in
            (k, (λ e. (only.0 o).0 (on_image ∙ e)), sym on_host ∙ (only.0 o).1),
        λ (k, a, b). kept.1 (k, only.1 ((λ e. a (sym on_image ∙ e)), on_host ∙ b)),
      ),
)
