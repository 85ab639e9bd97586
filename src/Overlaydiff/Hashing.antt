-- ===== src/Overlaydiff/Hashing.antt =====
-- internal/pkg/overlaydiff/diff.go: `populateFileHashes`, as a step relation between the goroutine
-- that sends the jobs and the workers. What `hashFile` finds on the file system is an argument.
pub mod Runs
pub mod Kept
pub mod Safe
pub mod Progress
pub mod Blocked
use warewulf.Common.{
  ℕ, ◌≡◌, List, [], ◌∷◌, Option, none, some, ◌==◌, if◌then◌else◌, zero, suc, ◌+◌, length, ◌*◌,
}
use warewulf.Common.Text.{Text}
use warewulf.Common.Maps.{Map, lookup, insert, delete}
use warewulf.Overlaydiff.Types.{Entry}
use warewulf.Common.Integers.{pos}

pub record HashJob : Type 0 where
  pub abs_path : Text
  pub rel_path : Text

-- What `hashFile` gives: a hash, an error that `isSkippableScanError` accepts, or another one.
pub data Hashed : Type 0 where
  hashed : Text → Hashed
  skipped : Hashed
  failed : Text → Hashed

-- A worker waits at `range jobCh`, works on a job, or has returned.
pub data Worker : Type 0 where
  waiting : Worker
  hashing : HashJob → Worker
  gone : Worker

-- Where the sending goroutine stands: before the `select` of its loop, at `jobCh <- job`, at
-- `wg.Wait()` with the error that it then returns, or past the call.
pub data Phase : Type 0 where
  checking : Phase
  sending : Phase
  closing : Option Text → Phase
  returned : Option Text → Phase

-- `entries`, the jobs not yet sent, the workers, what `errCh` holds, and the phase.
pub data Pool : Type 0 where
  pool : Map Entry → List HashJob → List Worker → Option Text → Phase → Pool

abbrev no_entry : Entry
no_entry = record {
  path = [];
  type = [];
  mode = 0;
  size = 0;
  mtime_unix_nano = pos 0;
  inode = 0;
  device = 0;
  hash = [];
  link_target = [];
}

-- `entries[job.relPath]`, the zero value where there is none
unfoldable pub entry_of : Option Entry → Entry
entry_of none = no_entry
entry_of (some e) = e

unfoldable pub set_hash : HashJob → Text → Map Entry → Map Entry
unfolding lookup insert entry_of
set_hash job hash m =
    insert job.rel_path (record (entry_of (lookup job.rel_path m)) { hash = hash }) m

-- A non-blocking send to `errCh`, which holds one error.
unfoldable pub post_error : Text → Option Text → Option Text
post_error e none = some e
post_error e (some first) = some first

-- `ws'` is `ws` with one worker `a` turned into `b`.
pub data Turned (a b : Worker) : List Worker → List Worker → Type 0 where
  here : {ws : List Worker} → Turned a b (a ∷ ws) (b ∷ ws)
  there : {w : Worker} {ws ws' : List Worker} → Turned a b ws ws' → Turned a b (w ∷ ws) (w ∷ ws')

abbrev pub AllGone : List Worker → Type 0
AllGone [] = Unit
AllGone (gone ∷ ws) = AllGone ws
AllGone (_ ∷ ws) = ⊥

abbrev pub result_of : Option Text → Option Text → Option Text
result_of (some e) posted = some e
result_of none posted = posted

module _ (hash_file : HashJob → Hashed) where
  -- One step of one goroutine; the goroutines interleave in any order.
  pub data Step : Pool → Pool → Type 0 where
    error_found :
        {m : Map Entry} {job : HashJob} {q : List HashJob} {ws : List Worker} {e : Text}
        → Step (pool m (job ∷ q) ws (some e) checking) (pool m (job ∷ q) ws none (closing (some e)))
    no_error :
        {m : Map Entry} {job : HashJob} {q : List HashJob} {ws : List Worker}
        → Step (pool m (job ∷ q) ws none checking) (pool m (job ∷ q) ws none sending)
    job_sent :
        {m : Map Entry} {job : HashJob} {q : List HashJob} {ws ws' : List Worker}
        {err : Option Text}
        → Turned waiting (hashing job) ws ws'
        → Step (pool m (job ∷ q) ws err sending) (pool m q ws' err checking)
    closed :
        {m : Map Entry} {ws : List Worker} {err : Option Text}
        → Step (pool m [] ws err checking) (pool m [] ws err (closing none))
    job_hashed :
        {m : Map Entry} {q : List HashJob} {ws ws' : List Worker} {err : Option Text} {ph : Phase}
        → (job : HashJob) (hash : Text) → hash_file job ≡ hashed hash
        → Turned (hashing job) waiting ws ws'
        → Step (pool m q ws err ph) (pool (set_hash job hash m) q ws' err ph)
    job_skipped :
        {m : Map Entry} {q : List HashJob} {ws ws' : List Worker} {err : Option Text} {ph : Phase}
        → (job : HashJob) → hash_file job ≡ skipped
        → Turned (hashing job) waiting ws ws'
        → Step (pool m q ws err ph) (pool (delete job.rel_path m) q ws' err ph)
    job_failed :
        {m : Map Entry} {q : List HashJob} {ws ws' : List Worker} {err : Option Text} {ph : Phase}
        → (job : HashJob) (e : Text) → hash_file job ≡ failed e
        → Turned (hashing job) gone ws ws'
        → Step (pool m q ws err ph) (pool m q ws' (post_error e err) ph)
    worker_ended :
        {m : Map Entry} {q : List HashJob} {ws ws' : List Worker} {err : Option Text}
        {r : Option Text}
        → Turned waiting gone ws ws'
        → Step (pool m q ws err (closing r)) (pool m q ws' err (closing r))
    all_ended :
        {m : Map Entry} {q : List HashJob} {ws : List Worker} {err : Option Text} {r : Option Text}
        → AllGone ws
        → Step (pool m q ws err (closing r)) (pool m q ws err (returned (result_of r err)))

  pub data Steps : Pool → Pool → Type 0 where
    start : {s : Pool} → Steps s s
    next : {s t u : Pool} → Steps s t → Step t u → Steps s u

abbrev pub waiting_workers : ℕ → List Worker
waiting_workers zero = []
waiting_workers (suc n) = waiting ∷ waiting_workers n

-- `populateFileHashes` once its workers run; without jobs it returns at once.
abbrev pub first_pool : Map Entry → List HashJob → ℕ → Pool
first_pool entries jobs workers = pool entries jobs (waiting_workers workers) none checking
