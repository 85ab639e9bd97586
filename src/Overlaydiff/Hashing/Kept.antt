-- ===== src/Overlaydiff/Hashing/Kept.antt =====
-- What each step of the pool keeps, where no file meets an error.
use warewulf.Common.{
  ℕ, ◌+◌, ◌≤◌, ◌≡◌, ◌≢◌, refl, sym, ◌∙◌, ap, subst, false, List, [], ◌∷◌, Option, none, some, arith,
  Bool-cases, if◌then◌else◌, inl, inr, ◌⊎◌, In,
}
use warewulf.Common.Text.{Text, text_eq, text_eq_iff, text_eq_refl}
use warewulf.Common.Maps.{Map, lookup}
use warewulf.Overlaydiff.Types.{Entry}
use warewulf.Overlaydiff.Hashing.{
  HashJob, Hashed, hashed, skipped, failed, Worker, waiting, hashing, gone, Phase, checking,
  sending, closing, returned, Pool, pool, Turned, here, there, entry_of, AllGone,
}

-- How many jobs for the path `k` are not sent, and how many are being worked on.
abbrev pub queued : Text → List HashJob → ℕ
queued k [] = 0
queued k (job ∷ q) = (if text_eq job.rel_path k then 1 else 0) + queued k q

abbrev pub held_by : Text → Worker → ℕ
held_by k (hashing job) = if text_eq job.rel_path k then 1 else 0
held_by k _ = 0

abbrev pub held : Text → List Worker → ℕ
held k [] = 0
held k (w ∷ ws) = held_by k w + held k ws

pub Turned-held :
    (k : Text) {a b : Worker} {ws ws' : List Worker}
    → Turned a b ws ws'
    → held k ws' + held_by k a ≡ held k ws + held_by k b
Turned-held k here = omega arith
Turned-held k (there t) = omega (arith, Turned-held k t)

-- What a job does to the entry of its path.
abbrev pub hashed_entry : Hashed → Option Entry → Option Entry
hashed_entry (hashed hash) o = some (record (entry_of o) { hash = hash })
hashed_entry skipped o = none
hashed_entry (failed _) o = o

module _ (hash_file : HashJob → Hashed) where
  -- What stands at the path `k` when all jobs are done.
  abbrev pub final : List HashJob → Text → Option Entry → Option Entry
  final [] k o = o
  final (job ∷ jobs) k o =
      if text_eq job.rel_path k then hashed_entry (hash_file job) o else final jobs k o

  final-In :
      (job : HashJob) (jobs : List HashJob) (o : Option Entry)
      → In job jobs
      → ((k : Text) → queued k jobs ≤ 1)
      → final jobs job.rel_path o ≡ hashed_entry (hash_file job) o
  final-In job [] o i once = absurd i
  final-In job (first ∷ jobs) o (inl e) once =
      subst (λ z. final (first ∷ jobs) z.rel_path o ≡ hashed_entry (hash_file z) o) e
        (rw (text_eq_refl first.rel_path) refl)
  final-In job (first ∷ jobs) o (inr i) once =
      elim (Bool-cases (text_eq first.rel_path job.rel_path)) [
        | inl e ↦ absurd (ground (arith, once job.rel_path, e, queued-In job jobs i))
        | inr e ↦ rw e (final-In job jobs o i (λ k. ground (arith, once k)))
      ]
    where
      queued-In : (job : HashJob) (jobs : List HashJob) → In job jobs → 1 ≤ queued job.rel_path jobs
      queued-In job [] i = absurd i
      queued-In job (j ∷ jobs) (inl e) =
          subst (λ z. 1 ≤ queued z.rel_path (j ∷ jobs)) e (ground (arith, text_eq_refl j.rel_path))
      queued-In job (j ∷ jobs) (inr i) = ground (arith, queued-In job jobs i)

  pub final-absent :
      (jobs : List HashJob) (k : Text) (o : Option Entry) → queued k jobs ≡ 0 → final jobs k o ≡ o
  final-absent [] k o h = refl
  final-absent (job ∷ jobs) k o h = elim (Bool-cases (text_eq job.rel_path k)) [
    | inl e ↦ absurd (ground (arith, e, h))
    | inr e ↦ rw e (final-absent jobs k o (ground (arith, e, h)))
  ]

pub Turned-In : {a b : Worker} {ws ws' : List Worker} → Turned a b ws ws' → In a ws
Turned-In here = inl refl
Turned-In (there t) = inr (Turned-In t)

pub In-Turned :
    (w : Worker) {a b : Worker} {ws ws' : List Worker}
    → Turned a b ws ws'
    → In w ws'
    → (b ≡ w) ⊎ In w ws
In-Turned w here (inl e) = inl e
In-Turned w here (inr i) = inr (inr i)
In-Turned w (there t) (inl e) = inr (inl e)
In-Turned w (there t) (inr i) = elim (In-Turned w t i) [ inl e ↦ inl e | inr j ↦ inr (inr j) ]

pub AllGone-In : (ws : List Worker) {w : Worker} → AllGone ws → In w ws → w ≡ gone
AllGone-In [] h i = absurd i
AllGone-In (gone ∷ ws) h (inl e) = sym e
AllGone-In (gone ∷ ws) h (inr i) = AllGone-In ws h i
AllGone-In (waiting ∷ ws) h i = absurd h
AllGone-In (hashing job ∷ ws) h i = absurd h

-- What every state of a run keeps, where no file meets an error.
module _ (hash_file : HashJob → Hashed) (jobs : List HashJob) (entries : Map Entry) where
  abbrev pub Standing : List HashJob → List Worker → Map Entry → Text → Type 0
  Standing q ws m k =
      ((queued k q + held k ws ≡ 1) × (lookup k m ≡ lookup k entries))
      ⊎ ((queued k q + held k ws ≡ 0) × (lookup k m ≡ final hash_file jobs k (lookup k entries)))

  abbrev pub PhaseFits : List HashJob → List Worker → Phase → Type 0
  PhaseFits q ws checking = ¬ In gone ws
  PhaseFits q ws sending = (¬ In gone ws) × (q ≢ [])
  PhaseFits q ws (closing r) = (r ≡ none) × (q ≡ [])
  PhaseFits q ws (returned r) = (r ≡ none) × (q ≡ []) × AllGone ws

  pub record Kept (m : Map Entry) (q : List HashJob) (ws : List Worker) (err : Option Text)
      (ph : Phase) : Type 0 where
    pub all_queued : (job : HashJob) → In job q → In job jobs
    pub all_held : (job : HashJob) → In (hashing job) ws → In job jobs
    pub paths : (k : Text) → Standing q ws m k
    pub no_error : err ≡ none
    pub fits : PhaseFits q ws ph

  abbrev pub IsKept : Pool → Type 0
  IsKept (pool m q ws err ph) = Kept m q ws err ph

  module _ (once : (k : Text) → queued k jobs ≤ 1) where
    job_done-Standing :
        (job : HashJob) (m m' : Map Entry) (q : List HashJob) {ws ws' : List Worker}
        → In job jobs
        → Turned (hashing job) waiting ws ws'
        → ((k : Text) → text_eq job.rel_path k ≡ false → lookup k m' ≡ lookup k m)
        → lookup job.rel_path m' ≡ hashed_entry (hash_file job) (lookup job.rel_path m)
        → ((k : Text) → Standing q ws m k)
        → (k : Text) → Standing q ws' m' k
    job_done-Standing job m m' q {ws} {ws'} i t other own before k =
        elim (Bool-cases (text_eq job.rel_path k)) [
          | inl e ↦
              subst (Standing q ws' m') ((text_eq_iff job.rel_path k).0 e)
                (at_path (before job.rel_path))
          | inr e ↦ elim (before k) [
            | inl (h, l) ↦ inl (ground (arith, e, h, Turned-held k t), other k e ∙ l)
            | inr (h, l) ↦ inr (ground (arith, e, h, Turned-held k t), other k e ∙ l)
          ]
        ]
      where
        at_path : Standing q ws m job.rel_path → Standing q ws' m' job.rel_path
        at_path (inl (h, l)) = inr (
          ground (arith, h, text_eq_refl job.rel_path, Turned-held job.rel_path t),
          own
              ∙ ap (hashed_entry (hash_file job)) l
              ∙ sym (final-In hash_file job jobs (lookup job.rel_path entries) i once),
        )
        at_path (inr (h, l)) =
            absurd (ground (arith, h, text_eq_refl job.rel_path, Turned-held job.rel_path t))

    waiting-PhaseFits :
        (job : HashJob) (q : List HashJob) (ph : Phase) {ws ws' : List Worker}
        → Turned (hashing job) waiting ws ws'
        → PhaseFits q ws ph
        → PhaseFits q ws' ph
    waiting-PhaseFits job q checking t f =
        λ i. elim (In-Turned gone t i) [ inl e ↦ cc e | inr j ↦ f j ]
    waiting-PhaseFits job q sending t f =
        (λ i. elim (In-Turned gone t i) [ inl e ↦ cc e | inr j ↦ f.0 j ], f.1)
    waiting-PhaseFits job q (closing r) t f = f
    waiting-PhaseFits job q (returned r) {ws} t f =
        let same : hashing job ≡ gone = AllGone-In ws f.2 (Turned-In t) in cc same

    pub job_done-Kept :
        (job : HashJob) (m m' : Map Entry) (q : List HashJob) {ws ws' : List Worker}
        (err : Option Text) (ph : Phase)
        → Turned (hashing job) waiting ws ws'
        → ((k : Text) → text_eq job.rel_path k ≡ false → lookup k m' ≡ lookup k m)
        → lookup job.rel_path m' ≡ hashed_entry (hash_file job) (lookup job.rel_path m)
        → Kept m q ws err ph
        → Kept m' q ws' err ph
    job_done-Kept job m m' q err ph t other own k = record {
      all_queued = k.all_queued;
      all_held = λ j i. elim (In-Turned (hashing j) t i) [ inl e ↦ cc e | inr i ↦ k.all_held j i ];
      paths = job_done-Standing job m m' q (k.all_held job (Turned-In t)) t other own k.paths;
      no_error = k.no_error;
      fits = waiting-PhaseFits job q ph t k.fits;
    }
