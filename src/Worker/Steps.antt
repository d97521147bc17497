-- ===== src/Worker/Steps.antt =====
-- googletrends_app/worker.py with googletrends_app/main.py, create_app: the running application as
-- steps between states. Requests, the scheduler's jobs and the worker's thread take turns in any
-- order; the thread's own steps are the repairs, a claim, and the handling of the claimed job. The
-- other statements of one step run without a request between them.
pub mod Sound
pub mod Safety
pub mod Starts
use googletrends.Base.{
  ℕ, List, ◌≡◌, String, Bool, true, false, not, ◌&&◌, Option, none, some, List, if◌then◌else◌,
}
use googletrends.Database.{Db, Result, ok, raise}
use googletrends.Repository.Jobs.{
  JobRow, claim_next_collection_job, requeue_stale_running_jobs, delete_unmonitored_queued_jobs,
}
use googletrends.Collector.Floats.{Floats}
use googletrends.Collector.Process.{
  Clock, Config, Message, Outcome, Reply, Trace, process_collection_job,
}
use googletrends.Collector.Enqueue.{Request, create_collection_jobs_for_enabled}
use googletrends.Collector.Due.{repair}
use googletrends.Worker.{start_worker}
use googletrends.Web.{Server}
use googletrends.Web.Bulk.{Digits}
use googletrends.Web.Routes.{Post, handle}

-- Where the worker's thread stands: there is none, it is about to repair the table of jobs, it is at
-- the test of its loop, or it handles a claimed job.
pub data Phase : Type 0 where
  stopped starting looping : Phase
  handling : JobRow → Phase

abbrev pub is_running : Phase → Bool
is_running stopped = false
is_running _ = true

pub record System (R : Type 0) : Type 0 where
  pub server : Server R
  pub phase : Phase

-- A lock that was free and is held now has a new thread.
abbrev pub begun : Bool → Bool → Phase → Phase
begun before after phase = if not before && after then starting else phase

module _ {R : Type 0} where
  abbrev pub served : System R → Server R → System R
  served s server = record {
    server = server;
    phase = begun s.server.worker_held server.worker_held s.phase;
  }

  abbrev pub with_db : System R → Phase → Db R → System R
  with_db s phase db = record { server = record s.server { db = db }; phase = phase }

  -- `finally: lock.release()`
  abbrev pub ended : System R → Db R → System R
  ended s db = record { server = record { db = db; worker_held = false }; phase = stopped }

  -- The scheduler's job `collection_worker`.
  unfoldable pub tick : System R → System R
  tick s = served s (record s.server { worker_held = (start_worker s.server.worker_held).1 })

  abbrev pub claimed : System R → Result (Option JobRow) × Db R → System R
  claimed s (ok none, db) = ended s db
  claimed s (ok (some row), db) = with_db s (handling row) db
  claimed s (raise e, db) = ended s db

  -- The end of a round: the loop goes on, or the thread ends by an exception.
  abbrev pub handled : System R → Result Outcome × List (Message R) × Db R → System R
  handled s (ok outcome, messages, db) = with_db s looping db
  handled s (raise e, messages, db) = ended s db

  -- The start of the application, before it serves: the two statements of `lifespan`.
  unfoldable pub startup : Db R → ℕ → ℕ → System R
  startup db stale_before stamp = record {
    server = record {
      db = (delete_unmonitored_queued_jobs (requeue_stale_running_jobs db stale_before stamp).1).1;
      worker_held = false;
    };
    phase = stopped;
  }

module _ {R : Type 0} (F : Floats R) (config : Config) (d : Digits) (max_attempts : ℕ) where
  -- One step of the application. `ended_by` stands for every way in which the thread ends at once: its
  -- loop is done, or a statement or the provider raised what the loop does not catch.
  pub data Step (s : System R) : System R → Type 0 where
    request :
        (clock : ℕ → ℕ) (post : Post)
        → Step s (served s (handle d max_attempts clock s.server post).1)
    scheduled :
        (clock : ℕ → ℕ) (req : Request) (timeframes : Option (List String))
        → Step s (
            with_db s s.phase
              (create_collection_jobs_for_enabled s.server.db clock req timeframes).1)
    ticked : Step s (tick s)
    repaired :
        (stale_before stamp : ℕ)
        → s.phase ≡ starting
        → Step s (with_db s looping (repair (some stale_before) stamp s.server.db))
    claims :
        (now stamp : ℕ)
        → s.phase ≡ looping
        → Step s (claimed s (claim_next_collection_job s.server.db now stamp))
    handles :
        (row : JobRow) (clock : Clock) (trace : Trace) (reply : Reply)
        → s.phase ≡ handling row
        → Step s (handled s (process_collection_job F config s.server.db clock row trace reply))
    ended_by : is_running s.phase ≡ true → Step s (ended s s.server.db)

  pub data Reach (s : System R) : System R → Type 0 where
    start : Reach s s
    next : {mid s' : System R} → Reach s mid → Step mid s' → Reach s s'
