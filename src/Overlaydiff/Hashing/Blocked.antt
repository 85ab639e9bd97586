-- ===== src/Overlaydiff/Hashing/Blocked.antt =====
-- How one worker that meets an error can leave the sending goroutine blocked.
use warewulf.Common.{◌≡◌, List, [], ◌∷◌, Option, some}
use warewulf.Common.Text.{Text}
use warewulf.Common.Maps.{Map}
use warewulf.Overlaydiff.Types.{Entry}
use warewulf.Overlaydiff.Hashing.{
  HashJob, Hashed, failed, Worker, gone, sending, Pool, pool, Turned, here, there, Step, no_error,
  job_sent, job_hashed, job_skipped, job_failed, Steps, start, next, first_pool, post_error,
}

abbrev pub IsStuck : (HashJob → Hashed) → Pool → Type 0
IsStuck hash_file s = (t : Pool) → ¬ Step hash_file s t

no_worker : {a b : Worker} {ws : List Worker} → ¬ Turned a b [] ws
no_worker t = elim t [ ]

gone-IsStuck :
    (hash_file : HashJob → Hashed) (m : Map Entry) (q : List HashJob) (err : Option Text)
    → IsStuck hash_file (pool m q (gone ∷ []) err sending)
gone-IsStuck hash_file m q err _ (job_sent (there t)) = no_worker t
gone-IsStuck hash_file m q err _ (job_hashed job hash e (there t)) = no_worker t
gone-IsStuck hash_file m q err _ (job_skipped job e (there t)) = no_worker t
gone-IsStuck hash_file m q err _ (job_failed job e h (there t)) = no_worker t

-- With one worker and at least two jobs, of which the first meets an error that is not skipped,
-- some order of the steps leads to a state that is no return and has no next step.
pub one_worker-IsStuck :
    (hash_file : HashJob → Hashed) (entries : Map Entry) (job job' : HashJob) (jobs : List HashJob)
    (e : Text)
    → hash_file job ≡ failed e
    → Steps hash_file
        (first_pool entries (job ∷ job' ∷ jobs) 1)
        (pool entries (job' ∷ jobs) (gone ∷ []) (some e) sending)
      × IsStuck hash_file (pool entries (job' ∷ jobs) (gone ∷ []) (some e) sending)
unfolding post_error
one_worker-IsStuck hash_file entries job job' jobs e h = (
  next (next (next (next start no_error) (job_sent here)) no_error) (job_failed job e h here),
  gone-IsStuck hash_file entries (job' ∷ jobs) (some e),
)
