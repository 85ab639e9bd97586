-- ===== src/Overlaydiff/Hashing/Runs.antt =====
-- How many steps of the pool are left.
use warewulf.Common.{ℕ, ◌+◌, ◌*◌, ◌<◌, ◌≡◌, List, [], ◌∷◌, length, arith}
use warewulf.Overlaydiff.Hashing.{
  HashJob, Hashed, Worker, waiting, hashing, gone, Phase, checking, sending, closing, returned,
  Pool, pool, Turned, here, there, Step, error_found, no_error, job_sent, closed, job_hashed,
  job_skipped, job_failed, worker_ended, all_ended,
}

abbrev worker_weight : Worker → ℕ
worker_weight waiting = 1
worker_weight (hashing _) = 2
worker_weight gone = 0

abbrev workers_weight : List Worker → ℕ
workers_weight [] = 0
workers_weight (w ∷ ws) = worker_weight w + workers_weight ws

abbrev phase_weight : Phase → ℕ
phase_weight checking = 3
phase_weight sending = 2
phase_weight (closing _) = 1
phase_weight (returned _) = 0

-- A bound on the steps that are left.
abbrev pub steps_left : Pool → ℕ
steps_left (pool m q ws err ph) = 3 * length q + workers_weight ws + phase_weight ph

Turned-weight :
    {a b : Worker} {ws ws' : List Worker}
    → Turned a b ws ws'
    → workers_weight ws' + worker_weight a ≡ workers_weight ws + worker_weight b
Turned-weight here = omega arith
Turned-weight (there t) = omega (arith, Turned-weight t)

-- A step makes the bound smaller, whatever the files and the number of workers are.
pub Step-steps_left :
    (hash_file : HashJob → Hashed) {s t : Pool} → Step hash_file s t → steps_left t < steps_left s
Step-steps_left hash_file error_found = omega arith
Step-steps_left hash_file no_error = omega arith
Step-steps_left hash_file (job_sent t) = omega (arith, Turned-weight t)
Step-steps_left hash_file closed = omega arith
Step-steps_left hash_file (job_hashed job hash e t) = omega (arith, Turned-weight t)
Step-steps_left hash_file (job_skipped job e t) = omega (arith, Turned-weight t)
Step-steps_left hash_file (job_failed job e h t) = omega (arith, Turned-weight t)
Step-steps_left hash_file (worker_ended t) = omega (arith, Turned-weight t)
Step-steps_left hash_file (all_ended g) = omega arith
