-- ===== src/Overlaydiff/Examples/Hashing.antt =====
-- The theorems on the pool of hashing workers, at two files.
use warewulf.Common.{Option, ◌≤◌, ◌<◌, ◌≡◌, ◌≢◌, refl, [], ◌∷◌, none, some, ◌⊎◌, arith}
use warewulf.Common.Text.{Text, codes}
use warewulf.Common.Maps.{Map, lookup}
use warewulf.Overlaydiff.Types.{Entry}
use warewulf.Overlaydiff.Hashing.{
  HashJob, Hashed, hashed, failed, waiting, gone, checking, sending, returned, Pool, pool, here,
  Step, no_error, job_sent, job_hashed, closed, worker_ended, all_ended, Steps, start, next,
  first_pool, set_hash,
}
use warewulf.Overlaydiff.Hashing.Runs.{steps_left, Step-steps_left}
use warewulf.Overlaydiff.Hashing.Kept.{queued, final}
use warewulf.Overlaydiff.Hashing.Safe.{first_pool_lem}
use warewulf.Overlaydiff.Hashing.Progress.{IsReturned, first_pool-Step}
use warewulf.Overlaydiff.Hashing.Blocked.{IsStuck, one_worker-IsStuck}
use warewulf.Overlaydiff.Examples.{baseline_tree}

abbrev hosts_job : HashJob
hosts_job = record { abs_path = codes "/srv/etc/hosts"; rel_path = codes "/etc/hosts" }

abbrev old_job : HashJob
old_job = record { abs_path = codes "/srv/etc/old"; rel_path = codes "/etc/old" }

abbrev readable : HashJob → Hashed
readable _ = hashed (codes "h9")

abbrev broken : HashJob → Hashed
broken _ = failed (codes "input/output error")

one_worker-IsStuck_example :
    Steps broken
      (first_pool baseline_tree (hosts_job ∷ old_job ∷ []) 1)
      (pool baseline_tree (old_job ∷ []) (gone ∷ []) (some (codes "input/output error")) sending)
    × IsStuck broken
        (pool baseline_tree (old_job ∷ []) (gone ∷ []) (some (codes "input/output error")) sending)
one_worker-IsStuck_example =
    one_worker-IsStuck broken baseline_tree hosts_job old_job [] (codes "input/output error") refl

Step-steps_left_example :
    steps_left (pool baseline_tree (hosts_job ∷ []) (waiting ∷ []) none sending)
    < steps_left (pool baseline_tree (hosts_job ∷ []) (waiting ∷ []) none checking)
Step-steps_left_example =
    Step-steps_left readable {s = pool baseline_tree (hosts_job ∷ []) (waiting ∷ []) none checking}
      {t = pool baseline_tree (hosts_job ∷ []) (waiting ∷ []) none sending} no_error

once : (k : Text) → queued k (hosts_job ∷ []) ≤ 1
once k = ground arith

no_failure : (job : HashJob) (e : Text) → readable job ≢ failed e
no_failure job e h = absurd (ground (arith, h))

abbrev hashed_tree : Map Entry
hashed_tree = set_hash hosts_job (codes "h9") baseline_tree

one_file :
    Steps readable
      (first_pool baseline_tree (hosts_job ∷ []) 1)
      (pool hashed_tree [] (gone ∷ []) none (returned none))
one_file =
    next
      (next
        (next
          (next (next (next start no_error) (job_sent here))
            (job_hashed hosts_job (codes "h9") refl here))
          closed)
        (worker_ended here))
      (all_ended tt)

abbrev no_message : Option Text
no_message = none

first_pool_lem_example :
    (no_message ≡ none)
    × ((k : Text)
        → lookup k hashed_tree ≡ final readable (hosts_job ∷ []) k (lookup k baseline_tree))
first_pool_lem_example =
    first_pool_lem readable (hosts_job ∷ []) baseline_tree once no_failure 1 hashed_tree []
      (gone ∷ []) none none one_file

first_pool-Step_example :
    IsReturned (first_pool baseline_tree (hosts_job ∷ []) 1)
    ⊎ ((u : Pool) × Step readable (first_pool baseline_tree (hosts_job ∷ []) 1) u)
first_pool-Step_example =
    first_pool-Step readable (hosts_job ∷ []) baseline_tree 0
      (first_pool baseline_tree (hosts_job ∷ []) 1) once no_failure start
