-- ===== src/Overlaydiff/Hashing/Progress.antt =====
-- Which step the pool can take next, where no file meets an error that is not skipped.
use warewulf.Common.{ℕ, suc, ◌≤◌, ◌≡◌, ◌≢◌, refl, List, [], ◌∷◌, Option, none, some, inl, inr, ◌⊎◌}
use warewulf.Common.Text.{Text}
use warewulf.Common.Maps.{Map}
use warewulf.Overlaydiff.Types.{Entry}
use warewulf.Overlaydiff.Hashing.{
  HashJob, Hashed, hashed, skipped, failed, Worker, waiting, hashing, gone, Phase, checking,
  sending, closing, returned, Pool, pool, Turned, here, there, Step, error_found, no_error,
  job_sent, closed, job_hashed, job_skipped, job_failed, worker_ended, all_ended, Steps, start,
  next, first_pool, AllGone,
}
use warewulf.Overlaydiff.Hashing.Kept.{queued, IsKept}
use warewulf.Overlaydiff.Hashing.Safe.{first_pool-Kept, Steps-Kept}

abbrev pub IsReturned : Pool → Type 0
IsReturned (pool m q ws err (returned r)) = Unit
IsReturned _ = ⊥

abbrev Manned : List Worker → Type 0
Manned [] = ⊥
Manned (w ∷ ws) = Unit

abbrev IsManned : Pool → Type 0
IsManned (pool m q ws err ph) = Manned ws

Turned-Manned : {a b : Worker} {ws ws' : List Worker} → Turned a b ws ws' → Manned ws'
Turned-Manned here = tt
Turned-Manned (there t) = tt

module _ (hash_file : HashJob → Hashed) where
  Step-IsManned : {s t : Pool} → Step hash_file s t → IsManned s → IsManned t
  Step-IsManned error_found h = h
  Step-IsManned no_error h = h
  Step-IsManned (job_sent t) h = Turned-Manned t
  Step-IsManned closed h = h
  Step-IsManned (job_hashed job hash e t) h = Turned-Manned t
  Step-IsManned (job_skipped job e t) h = Turned-Manned t
  Step-IsManned (job_failed job e f t) h = Turned-Manned t
  Step-IsManned (worker_ended t) h = Turned-Manned t
  Step-IsManned (all_ended g) h = h

  Steps-IsManned : {s t : Pool} → Steps hash_file s t → IsManned s → IsManned t
  Steps-IsManned start h = h
  Steps-IsManned (next r s) h = Step-IsManned s (Steps-IsManned r h)

  -- A worker at a job can go on, whatever its file gives.
  hashing-Step :
      (m : Map Entry) (q : List HashJob) {ws ws' ws'' : List Worker} (err : Option Text)
      (ph : Phase) (job : HashJob)
      → Turned (hashing job) waiting ws ws'
      → Turned (hashing job) gone ws ws''
      → (u : Pool) × Step hash_file (pool m q ws err ph) u
  hashing-Step m q {ws} err ph job t t' = go (hash_file job) refl
    where
      go : (h : Hashed) → hash_file job ≡ h → (u : Pool) × Step hash_file (pool m q ws err ph) u
      go (hashed hash) e = (_, job_hashed job hash e t)
      go skipped e = (_, job_skipped job e t)
      go (failed x) e = (_, job_failed job x e t')

-- Where the workers stand once the channel is closed.
unended :
    (ws : List Worker)
    → AllGone ws
      ⊎ (((ws' : List Worker) × Turned waiting gone ws ws')
          ⊎ ((job : HashJob) × (ws' : List Worker) × (ws'' : List Worker) × Turned
                (hashing job)
                waiting
                ws
                ws'
              × Turned (hashing job) gone ws ws''))
unended [] = inl tt
unended (waiting ∷ ws) = inr (inl (gone ∷ ws, here))
unended (hashing job ∷ ws) = inr (inr (job, waiting ∷ ws, gone ∷ ws, here, here))
unended (gone ∷ ws) = elim (unended ws) [
  | inl g ↦ inl g
  | inr (inl (ws', t)) ↦ inr (inl (gone ∷ ws', there t))
  | inr (inr (job, ws', ws'', t, t')) ↦ inr (inr (job, gone ∷ ws', gone ∷ ws'', there t, there t'))
]

module _ (hash_file : HashJob → Hashed) (jobs : List HashJob) (entries : Map Entry) where
  pool-Step :
      (m : Map Entry) (q : List HashJob) (ws : List Worker) (err : Option Text) (ph : Phase)
      → Manned ws
      → IsKept hash_file jobs entries (pool m q ws err ph)
      → IsReturned (pool m q ws err ph) ⊎ ((u : Pool) × Step hash_file (pool m q ws err ph) u)
  pool-Step m [] ws err checking h k = inr (_, closed)
  pool-Step m (job ∷ q) ws none checking h k = inr (_, no_error)
  pool-Step m (job ∷ q) ws (some e) checking h k = inr (_, error_found)
  pool-Step m [] ws err sending h k = absurd (k.fits.1 refl)
  pool-Step m (job ∷ q) [] err sending h k = absurd h
  pool-Step m (job ∷ q) (waiting ∷ ws) err sending h k = inr (_, job_sent here)
  pool-Step m (job ∷ q) (hashing job' ∷ ws) err sending h k =
      inr (hashing-Step hash_file m (job ∷ q) err sending job' here here)
  pool-Step m (job ∷ q) (gone ∷ ws) err sending h k = absurd (k.fits.0 (inl refl))
  pool-Step m q ws err (closing r) h k = elim (unended ws) [
    | inl g ↦ inr (_, all_ended g)
    | inr (inl (ws', t)) ↦ inr (_, worker_ended t)
    | inr (inr (job, ws', ws'', t, t')) ↦ inr (hashing-Step hash_file m q err (closing r) job t t')
  ]
  pool-Step m q ws err (returned r) h k = inl tt

  -- If no two jobs are for one path and no file meets an error that is not skipped, then with one
  -- worker or more a run that has not returned can go on.
  pub first_pool-Step :
      (workers : ℕ) (t : Pool)
      → ((k : Text) → queued k jobs ≤ 1)
      → ((job : HashJob) (e : Text) → hash_file job ≢ failed e)
      → Steps hash_file (first_pool entries jobs (suc workers)) t
      → IsReturned t ⊎ ((u : Pool) × Step hash_file t u)
  first_pool-Step workers (pool m q ws err ph) once no_failure steps =
      pool-Step m q ws err ph (Steps-IsManned hash_file steps tt) (
        Steps-Kept hash_file jobs entries once no_failure steps
          (first_pool-Kept hash_file jobs entries once no_failure (suc workers)))
