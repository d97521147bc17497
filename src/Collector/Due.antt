-- ===== src/Collector/Due.antt =====
-- googletrends_app/collector.py, the worker's loop: stale jobs are queued again, jobs that nobody
-- monitors are dropped, and due jobs are claimed and handled until none is left. No other connection
-- writes between a claim and its handling; the pauses between requests only let the clock run.
pub mod Repair
pub mod Weights
pub mod Termination
use googletrends.Base.{
  ℕ, zero, suc, ◌+◌, String, Bool, true, false, Option, none, some, List, [], ◌∷◌, ◌++◌, ltb,
  length, if◌then◌else◌,
}
use googletrends.Database.{Db, Error, Result, ok, raise}
use googletrends.Repository.Jobs.{
  JobRow, claim_next_collection_job, requeue_stale_running_jobs, delete_unmonitored_queued_jobs,
}
use googletrends.Collector.Floats.{Floats}
use googletrends.Collector.Process.{
  Clock, Config, Message, Outcome, Reply, Trace, process_collection_job, term_of, timeframe_of,
}

-- What the collector asks of a `TrendsProvider`: an answer to a request, from a state of its own,
-- and the attributes that name the proxy of the last request.
pub record Provider (P : Type 0) : Type 0 where
  -- term, timeframe, geo, gprop
  pub collect : P → String → String → String → String → P × Reply
  pub trace : P → Trace

-- The readings of one round: the argument of the claim, its CURRENT_TIMESTAMP, and the job's.
pub record Round : Type 0 where
  pub now : ℕ
  pub stamp : ℕ
  pub job : Clock

pub record Worker (P R : Type 0) : Type 0 where
  pub provider : P
  pub db : Db R
  pub sent : List (Message R)
  pub results : List Outcome

-- How the loop ends: by its test or an empty queue, by an exception, or for lack of fuel.
pub data Ending (P R : Type 0) : Type 0 where
  finished : Worker P R → Ending P R
  aborted : Error → Worker P R → Ending P R
  out_of_fuel : Ending P R

-- `max_jobs is None or len(results) < max_jobs`
abbrev pub may_go_on : Option ℕ → List Outcome → Bool
may_go_on none results = true
may_go_on (some m) results = ltb (length results) m

module _ {R : Type 0} where
  -- The two repairs before the loop, left out where `stale_running_minutes` is None.
  unfoldable pub repair : Option ℕ → ℕ → Db R → Db R
  repair none stamp db = db
  repair (some stale_before) stamp db =
      (delete_unmonitored_queued_jobs (requeue_stale_running_jobs db stale_before stamp).1).1

module _ {P R : Type 0} (provider : Provider P) (F : Floats R) (config : Config) where
  -- The request of a claimed job, and the handling of the answer.
  abbrev pub after_job :
      Worker P R → P → Result Outcome × List (Message R) × Db R → Result Unit × Worker P R
  after_job w p (ok outcome, messages, db) = (
    ok tt,
    record {
      provider = p;
      db = db;
      sent = w.sent ++ messages;
      results = w.results ++ outcome ∷ [];
    },
  )
  after_job w p (raise e, messages, db) =
      (raise e, record { provider = p; db = db; sent = w.sent ++ messages; results = w.results })

  unfoldable pub run_job : Worker P R → Db R → Clock → JobRow → Result Unit × Worker P R
  run_job w db clock row =
      let (p, reply) =
        provider.collect w.provider (term_of row.term) (timeframe_of config row.job) row.job.geo
          row.job.gprop in
      after_job w p (process_collection_job F config db clock row (provider.trace p) reply)

  abbrev pub on_job : (Worker P R → Ending P R) → Result Unit × Worker P R → Ending P R
  on_job rest (ok _, w) = rest w
  on_job rest (raise e, w) = aborted e w

  -- What a round makes of a claim, and the rest of the loop.
  abbrev pub on_claim :
      (Worker P R → Ending P R) → Clock → Worker P R → Result (Option JobRow) × Db R → Ending P R
  on_claim rest clock w (ok none, db) = finished (record w { db = db })
  on_claim rest clock w (ok (some row), db) = on_job rest (run_job w db clock row)
  on_claim rest clock w (raise e, db) = aborted e (record w { db = db })

  unfoldable pub due_loop : ℕ → (ℕ → Round) → Option ℕ → Worker P R → Ending P R
  unfolding run_job
  due_loop zero rounds max_jobs w = out_of_fuel
  due_loop (suc fuel) rounds max_jobs w =
      let rest = λ (w' : Worker P R). due_loop fuel (λ i. rounds (i + 1)) max_jobs w' in
      let claim = claim_next_collection_job w.db (rounds 0).now (rounds 0).stamp in
      if may_go_on max_jobs w.results then on_claim rest (rounds 0).job w claim else finished w

  unfoldable pub process_due_jobs :
      ℕ → (ℕ → Round) → Option ℕ → ℕ → Option ℕ → P → Db R → Ending P R
  unfolding due_loop repair
  process_due_jobs fuel rounds stale_before stamp max_jobs p db =
      due_loop fuel rounds max_jobs
        (record { provider = p; db = repair stale_before stamp db; sent = []; results = [] })
