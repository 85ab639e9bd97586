-- ===== src/Overlaydiff/Hashing/Safe.antt =====
-- What a run of the pool leaves, where no file meets an error that is not skipped.
use warewulf.Common.{
  ℕ, zero, suc, ◌≤◌, ◌≡◌, ◌≢◌, refl, sym, ◌∙◌, ap, List, [], ◌∷◌, Option, none, arith, Bool-cases,
  ◌==◌, inl, inr, In,
}
use warewulf.Common.Text.{Text, text_eq_refl}
use warewulf.Common.Maps.{Map, lookup, delete, lookup-insert, lookup-delete}
use warewulf.Overlaydiff.Types.{Entry}
use warewulf.Overlaydiff.Hashing.{
  HashJob, Hashed, failed, Worker, waiting, hashing, gone, returned, Pool, pool, Step, error_found,
  no_error, job_sent, closed, job_hashed, job_skipped, job_failed, worker_ended, all_ended, Steps,
  start, next, first_pool, waiting_workers, set_hash, AllGone,
}
use warewulf.Overlaydiff.Hashing.Kept.{
  queued, held, Turned-held, final, final-absent, In-Turned, IsKept, job_done-Kept,
}

held-waiting : (k : Text) (n : ℕ) → held k (waiting_workers n) ≡ 0
held-waiting k zero = refl
held-waiting k (suc n) = omega (arith, held-waiting k n)

In-waiting : (n : ℕ) {w : Worker} → In w (waiting_workers n) → waiting ≡ w
In-waiting zero i = absurd i
In-waiting (suc n) (inl e) = e
In-waiting (suc n) (inr i) = In-waiting n i

held-gone : (k : Text) (ws : List Worker) → AllGone ws → held k ws ≡ 0
held-gone k [] h = refl
held-gone k (gone ∷ ws) h = omega (arith, held-gone k ws h)
held-gone k (waiting ∷ ws) h = absurd h
held-gone k (hashing job ∷ ws) h = absurd h

module _ (hash_file : HashJob → Hashed) (jobs : List HashJob) (entries : Map Entry)
    (once : (k : Text) → queued k jobs ≤ 1)
    (no_failure : (job : HashJob) (e : Text) → hash_file job ≢ failed e) where
  pub first_pool-Kept :
      (workers : ℕ) → IsKept hash_file jobs entries (first_pool entries jobs workers)
  first_pool-Kept workers = record {
    all_queued = λ job i. i;
    all_held = λ job i. cc (In-waiting workers i);
    paths = λ k. elim (Bool-cases (queued k jobs == 0)) [
      | inl e ↦ inr (
        ground (arith, e, held-waiting k workers),
        sym (final-absent hash_file jobs k (lookup k entries) (ground (arith, e))),
      )
      | inr e ↦ inl (ground (arith, e, held-waiting k workers, once k), refl)
    ];
    no_error = refl;
    fits = λ i. cc (In-waiting workers i);
  }

  Step-Kept :
      {s t : Pool}
      → Step hash_file s t
      → IsKept hash_file jobs entries s
      → IsKept hash_file jobs entries t
  unfolding set_hash
  Step-Kept (error_found {e = e}) k = absurd (ground (arith, k.no_error))
  Step-Kept no_error k = record {
    all_queued = k.all_queued;
    all_held = k.all_held;
    paths = k.paths;
    no_error = refl;
    fits = (k.fits, λ e. ground (arith, e));
  }
  Step-Kept (job_sent {job = job} {ws = ws} {ws' = ws'} t) k = record {
    all_queued = λ j i. k.all_queued j (inr i);
    all_held = λ j i. elim (In-Turned (hashing j) t i) [
      | inl e ↦ let same : job ≡ j = cc e in k.all_queued j (inl same)
      | inr i ↦ k.all_held j i
    ];
    paths = λ p. elim (k.paths p) [
      | inl (h, l) ↦ inl (omega (arith, h, Turned-held p t), l)
      | inr (h, l) ↦ inr (omega (arith, h, Turned-held p t), l)
    ];
    no_error = k.no_error;
    fits = λ i. elim (In-Turned gone t i) [ inl e ↦ cc e | inr j ↦ k.fits.0 j ];
  }
  Step-Kept closed k = record {
    all_queued = k.all_queued;
    all_held = k.all_held;
    paths = k.paths;
    no_error = k.no_error;
    fits = (refl, refl);
  }
  Step-Kept (job_hashed {m = m} {q = q} {err = err} {ph = ph} job hash e t) k =
      job_done-Kept hash_file jobs entries once job m (set_hash job hash m) q err ph t
        (λ p d. lookup-insert job.rel_path p _ m ∙ rw d refl)
        (lookup-insert job.rel_path job.rel_path _ m ∙ rw (text_eq_refl job.rel_path, e) refl) k
  Step-Kept (job_skipped {m = m} {q = q} {err = err} {ph = ph} job e t) k =
      job_done-Kept hash_file jobs entries once job m (delete job.rel_path m) q err ph t
        (λ p d. lookup-delete job.rel_path p m ∙ rw d refl)
        (lookup-delete job.rel_path job.rel_path m ∙ rw (text_eq_refl job.rel_path, e) refl) k
  Step-Kept (job_failed job e h t) k = absurd (no_failure job e h)
  Step-Kept (worker_ended t) k = record {
    all_queued = k.all_queued;
    all_held = λ j i. elim (In-Turned (hashing j) t i) [ inl e ↦ cc e | inr i ↦ k.all_held j i ];
    paths = λ p. elim (k.paths p) [
      | inl (h, l) ↦ inl (omega (arith, h, Turned-held p t), l)
      | inr (h, l) ↦ inr (omega (arith, h, Turned-held p t), l)
    ];
    no_error = k.no_error;
    fits = k.fits;
  }
  Step-Kept (all_ended {r = r} g) k = record {
    all_queued = k.all_queued;
    all_held = k.all_held;
    paths = k.paths;
    no_error = k.no_error;
    fits = (rw (k.fits.0, k.no_error) refl, k.fits.1, g);
  }

  pub Steps-Kept :
      {s t : Pool}
      → Steps hash_file s t
      → IsKept hash_file jobs entries s
      → IsKept hash_file jobs entries t
  Steps-Kept start k = k
  Steps-Kept (next r s) k = Step-Kept s (Steps-Kept r k)

  -- If no two jobs are for one path and no file meets an error that is not skipped, then whatever
  -- the order of the steps, a call that returns gives no error; a path whose file has a hash has
  -- it in its entry, a path whose file is skipped has no entry, and the other paths are as before.
  pub first_pool_lem :
      (workers : ℕ) (m : Map Entry) (q : List HashJob) (ws : List Worker) (err r : Option Text)
      → Steps hash_file (first_pool entries jobs workers) (pool m q ws err (returned r))
      → (r ≡ none) × ((k : Text) → lookup k m ≡ final hash_file jobs k (lookup k entries))
  first_pool_lem workers m q ws err r steps =
      let k = Steps-Kept steps (first_pool-Kept workers) in
      (
        k.fits.0,
        λ p. elim (k.paths p) [
          | inl (h, l) ↦ absurd (ground (arith, h, ap (queued p) k.fits.1, held-gone p ws k.fits.2))
          | inr (h, l) ↦ l
        ],
      )
