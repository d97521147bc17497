-- ===== src/Collector/Enqueue/Invariant.antt =====
-- googletrends_app/collector.py, the creation of jobs for keywords: the job table's invariant.
use googletrends.Base.{refl, ℕ, String, Option, none, some, List, [], ◌∷◌}
use googletrends.Database.{Db, Keyword, Result, ok, raise}
use googletrends.Repository.Jobs.{JobRow, create_collection_job}
use googletrends.Repository.Keywords.{get_keyword, list_enabled_keywords}
use googletrends.Repository.Jobs.Table.{JobsOk}
use googletrends.Repository.Jobs.Harmless.{Harmless, same-Harmless, then-Harmless, create-Harmless}
use googletrends.Collector.Evaluate.{later}
use googletrends.Collector.Enqueue.{
  Request, Target, enqueue_keyword_job, create_jobs, targets_of, all_targets, created, enqueue_for,
  enqueue_keyword_jobs, create_collection_jobs_for_enabled,
}

module _ {R : Type 0} where
  after_creation :
      {db : Db R} (continued : Result (List JobRow) × Db R) (r : Result JobRow × Db R)
      → Harmless db r.1
      → Harmless r.1 continued.1
      → Harmless db (created continued r).1
  after_creation continued (raise e, db) h k = h
  after_creation (ok rows, db') (ok row, db) h k = then-Harmless h k
  after_creation (raise e, db') (ok row, db) h k = then-Harmless h k

  create_jobs-Harmless :
      (db : Db R) (clock : ℕ → ℕ) (req : Request) (ts : List Target)
      → Harmless db (create_jobs db clock req ts).1
  unfolding create_jobs enqueue_keyword_job
  create_jobs-Harmless db clock req [] = same-Harmless db db refl refl
  create_jobs-Harmless db clock req (t ∷ rest) =
      let r =
        create_collection_job db (clock 0) t.keyword_id req.source req.max_attempts none t.timeframe
          req.geo t.gprop in
      after_creation (create_jobs r.1 (later clock 1) req rest) r
        (create-Harmless db (clock 0) t.keyword_id req.source req.max_attempts none t.timeframe
          req.geo t.gprop)
        (create_jobs-Harmless r.1 (later clock 1) req rest)

  pub enqueue_keyword_jobs-Harmless :
      (db : Db R) (clock : ℕ → ℕ) (keyword_id : ℕ) (req : Request)
      (timeframes gprops : Option (List String))
      → Harmless db (enqueue_keyword_jobs db clock keyword_id req timeframes gprops).1
  unfolding enqueue_keyword_jobs
  enqueue_keyword_jobs-Harmless db clock k req timeframes gprops =
      cases timeframes gprops (get_keyword db k)
    where
      cases :
          (ts gs : Option (List String)) (found : Option Keyword)
          → Harmless db (enqueue_for db clock k req ts gs found).1
      cases (some ts) (some gs) found = create_jobs-Harmless db clock req (targets_of k ts gs)
      cases (some ts) none (some x) = create_jobs-Harmless db clock req _
      cases none gs (some x) = create_jobs-Harmless db clock req _
      cases (some ts) none none = same-Harmless db db refl refl
      cases none gs none = same-Harmless db db refl refl

  pub create_collection_jobs_for_enabled-Harmless :
      (db : Db R) (clock : ℕ → ℕ) (req : Request) (timeframes : Option (List String))
      → Harmless db (create_collection_jobs_for_enabled db clock req timeframes).1
  unfolding create_collection_jobs_for_enabled
  create_collection_jobs_for_enabled-Harmless db clock req timeframes =
      create_jobs-Harmless db clock req (all_targets timeframes (list_enabled_keywords db))

  enqueue_keyword_jobs-JobsOk :
      (db : Db R) (clock : ℕ → ℕ) (keyword_id : ℕ) (req : Request)
      (timeframes gprops : Option (List String))
      → JobsOk db
      → JobsOk (enqueue_keyword_jobs db clock keyword_id req timeframes gprops).1
  enqueue_keyword_jobs-JobsOk db clock k req timeframes gprops =
      (enqueue_keyword_jobs-Harmless db clock k req timeframes gprops).keeps_JobsOk

  create_collection_jobs_for_enabled-JobsOk :
      (db : Db R) (clock : ℕ → ℕ) (req : Request) (timeframes : Option (List String))
      → JobsOk db
      → JobsOk (create_collection_jobs_for_enabled db clock req timeframes).1
  create_collection_jobs_for_enabled-JobsOk db clock req timeframes =
      (create_collection_jobs_for_enabled-Harmless db clock req timeframes).keeps_JobsOk
