-- ===== src/Repository/Jobs/Steps.antt =====
-- googletrends_app/repository.py, every statement that writes jobs, as a step between databases, and
-- the databases that sequences of steps reach.
use googletrends.Base.{ℕ, ◌≡◌, String, Bool, Option}
use googletrends.Database.{Db, Job}
use googletrends.Repository.Jobs.{
  create_collection_job, claim_next_collection_job, requeue_stale_running_jobs,
  finish_collection_job_success, finish_collection_job_failure, requeue_collection_job, delete_jobs,
}
use googletrends.Repository.Jobs.Table.{JobsOk, create_collection_job-JobsOk}
use googletrends.Repository.Keywords.{delete_keyword}
use googletrends.Repository.Jobs.Kept.{
  IsActiveJob, claim-JobsOk, stale-JobsOk, delete-JobsOk, success-JobsOk, failure-JobsOk,
  requeue-JobsOk, keyword-JobsOk,
}

module _ {R : Type 0} where
  -- The statements that write jobs. What else a statement changes does not concern jobs: `elsewhere`
  -- stands for every statement that leaves the table of jobs alone.
  pub data Step (db : Db R) : Db R → Type 0 where
    create :
        (now keyword_id : ℕ) (source : String) (max_attempts : ℕ) (next_attempt_at : Option ℕ)
        (timeframe geo gprop : String)
        → Step db
            (create_collection_job db now keyword_id source max_attempts next_attempt_at timeframe
              geo gprop).1
    claim : (now stamp : ℕ) → Step db (claim_next_collection_job db now stamp).1
    stale : (stale_before stamp : ℕ) → Step db (requeue_stale_running_jobs db stale_before stamp).1
    delete : (p : Job → Bool) → Step db (delete_jobs p db)
    succeed : (id at count stamp : ℕ) → Step db (finish_collection_job_success db id at count stamp)
    fail :
        (id at : ℕ) (error : String) (stamp : ℕ)
        → Step db (finish_collection_job_failure db id at error stamp)
    requeue :
        (id next_attempt_at : ℕ) (error : String) (stamp : ℕ)
        → IsActiveJob db id
        → Step db (requeue_collection_job db id next_attempt_at error stamp)
    drop_keyword : (keyword_id : ℕ) → Step db (delete_keyword db keyword_id)
    elsewhere : {db' : Db R} → db'.jobs ≡ db.jobs → db'.next_job ≡ db.next_job → Step db db'

  pub data Reach (db : Db R) : Db R → Type 0 where
    start : Reach db db
    next : {mid db' : Db R} → Reach db mid → Step mid db' → Reach db db'

  Step-JobsOk : {db db' : Db R} → Step db db' → JobsOk db → JobsOk db'
  Step-JobsOk {db} (create now k source m na tf geo gprop) t =
      create_collection_job-JobsOk db now k source m na tf geo gprop t
  Step-JobsOk {db} (claim now stamp) t = claim-JobsOk db now stamp t
  Step-JobsOk {db} (stale s stamp) t = stale-JobsOk db s stamp t
  Step-JobsOk {db} (delete p) t = delete-JobsOk p db t
  Step-JobsOk {db} (succeed id at count stamp) t = success-JobsOk db id at count stamp t
  Step-JobsOk {db} (fail id at error stamp) t = failure-JobsOk db id at error stamp t
  Step-JobsOk {db} (requeue id at error stamp a) t = requeue-JobsOk db id at error stamp a t
  Step-JobsOk {db} (drop_keyword k) t = keyword-JobsOk db k t
  Step-JobsOk (elsewhere e f) t = rw (e, f) t

  -- From a database whose job keys are unique and below the next key, and in which no keyword,
  -- window, region and search property has two active jobs, every sequence of the statements that
  -- write jobs leads to such a database, where a job is queued again only while all rows of its
  -- key are active.
  pub Reach-JobsOk : {db db' : Db R} → Reach db db' → JobsOk db → JobsOk db'
  Reach-JobsOk start t = t
  Reach-JobsOk (next r s) t = Step-JobsOk s (Reach-JobsOk r t)
