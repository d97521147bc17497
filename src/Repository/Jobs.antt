-- ===== src/Repository/Jobs.antt =====
-- googletrends_app/repository.py, the collection jobs: creation without duplicates, the claim of
-- the next job, and the statements that end, repeat or drop a job.
pub mod Rows
pub mod Monitored
pub mod Create
pub mod Claim
pub mod Table
pub mod Kept
pub mod Harmless
pub mod Steps
use googletrends.Base.{
  ℕ, suc, ◌+◌, String, Bool, true, false, not, ◌&&◌, ◌||◌, Option, none, some, List, [], ◌∷◌, ◌++◌,
  ltb, leb, nat_eq, is_some, select, any_of, first_where, contains, is_empty, ◌==◌, if◌then◌else◌,
  take,
}
use googletrends.Trends.Codec.{csv_has}
use googletrends.Database.{
  Db, Keyword, Job, Attempt, Status, queued, running, success, failed, Error, job_not_found, Result,
  ok, raise,
}
use googletrends.Database.Table.{update_where, delete_where, count_where, least}
pub use googletrends.Repository.Jobs.Rows.{
  is_queued, is_running, is_active, opt_eq, JobRow, job_before, same_target, is_monitored,
  keyword_claims, is_due, start_job, refers_to, started_by, is_stale, requeue_stale, succeed_job,
  fail_job, requeue_job,
}

module _ {R : Type 0} where
  unfoldable pub find_keyword : Db R → ℕ → Option Keyword
  find_keyword db keyword_id = first_where (λ k. nat_eq k.id keyword_id) db.keywords

  unfoldable pub find_job : Db R → ℕ → Option Job
  find_job db job_id = first_where (λ j. nat_eq j.id job_id) db.jobs

  -- The LEFT JOIN of a job with its keyword.
  abbrev pub joined_term : Db R → Option ℕ → Option String
  joined_term db none = none
  joined_term db (some k) = elim (find_keyword db k) [
    | none ↦ none
    | some keyword ↦ some keyword.term
  ]

  unfoldable pub job_row : Db R → Job → JobRow
  job_row db job = record { job = job; term = joined_term db job.keyword_id }

  unfoldable pub get_collection_job : Db R → ℕ → Result JobRow
  get_collection_job db job_id = elim (find_job db job_id) [
    | none ↦ raise (job_not_found job_id)
    | some job ↦ ok (job_row db job)
  ]

  abbrev pub new_job : Db R → ℕ → ℕ → String → ℕ → Option ℕ → String → String → String → Job
  new_job db now keyword_id source max_attempts next_attempt_at timeframe geo gprop = record {
    id = db.next_job;
    keyword_id = some keyword_id;
    source = source;
    timeframe = timeframe;
    geo = geo;
    gprop = gprop;
    status = queued;
    attempts = 0;
    max_attempts = max_attempts;
    next_attempt_at = next_attempt_at;
    started_at = none;
    finished_at = none;
    points_collected = 0;
    error = none;
    created_at = now;
    updated_at = now;
  }

  -- The INSERT of a job; its foreign key must name a keyword.
  unfoldable pub insert_job : Db R → ℕ → Job → Result JobRow × Db R
  insert_job db keyword_id job =
      if is_some (find_keyword db keyword_id)
      then (let db' = record db { jobs = db.jobs ++ job ∷ []; next_job = db.next_job + 1 } in
          (get_collection_job db' job.id, db'))
      else (raise (Error.integrity_error "FOREIGN KEY constraint failed"), db)

  -- `now` is CURRENT_TIMESTAMP.
  unfoldable pub create_collection_job :
      Db R → ℕ → ℕ → String → ℕ → Option ℕ → String → String → String → Result JobRow × Db R
  create_collection_job db now keyword_id source max_attempts next_attempt_at timeframe geo gprop =
      elim (least job_before (select (same_target keyword_id timeframe geo gprop) db.jobs)) [
        | some existing ↦ (ok (job_row db existing), db)
        | none ↦
            insert_job db keyword_id
              (new_job db now keyword_id source max_attempts next_attempt_at timeframe geo gprop)
      ]

  abbrev pub keyword_of : Db R → Option ℕ → Option Keyword
  keyword_of db none = none
  keyword_of db (some k) = find_keyword db k

  -- The WHERE clause of the claim.
  unfoldable pub is_claimable : Db R → ℕ → Job → Bool
  is_claimable db now j =
      is_queued j.status
      && keyword_claims (keyword_of db j.keyword_id) j
      && is_due now j.next_attempt_at

  -- `now` is the argument, `stamp` CURRENT_TIMESTAMP.
  unfoldable pub claim_next_collection_job : Db R → ℕ → ℕ → Result (Option JobRow) × Db R
  claim_next_collection_job db now stamp =
      elim (least job_before (select (is_claimable db now) db.jobs)) [
        | none ↦ (ok none, db)
        | some job ↦
            let db' = record db {
              jobs =
                  update_where (λ j. nat_eq j.id job.id && is_queued j.status) (start_job now stamp)
                    db.jobs;
            } in
            elim (get_collection_job db' job.id) [
              | ok row ↦ (ok (some row), db')
              | raise e ↦ (raise e, db')
            ]
      ]

  -- A deletion of jobs cascades to their attempts.
  unfoldable pub delete_jobs : (Job → Bool) → Db R → Db R
  delete_jobs p db = record db {
    jobs = delete_where p db.jobs;
    attempts = delete_where (λ a. any_of (λ j. p j && nat_eq j.id a.job_id) db.jobs) db.attempts;
  }

  -- The WHERE clause of the deletion: queued, and of no keyword or of one that does not monitor it.
  unfoldable pub is_unmonitored : Db R → Job → Bool
  is_unmonitored db j =
      is_queued j.status
      && (not (any_of (refers_to j.keyword_id) db.keywords)
          || any_of
              (λ k.
                refers_to j.keyword_id k
                && (not (csv_has k.timeframes j.timeframe) || not (csv_has k.gprop j.gprop)))
              db.keywords)

  unfoldable pub delete_unmonitored_queued_jobs : Db R → ℕ × Db R
  unfolding delete_jobs is_unmonitored
  delete_unmonitored_queued_jobs db =
      (count_where (is_unmonitored db) db.jobs, delete_jobs (is_unmonitored db) db)

  unfoldable pub requeue_stale_running_jobs : Db R → ℕ → ℕ → ℕ × Db R
  requeue_stale_running_jobs db stale_before stamp = (
    count_where (is_stale stale_before) db.jobs,
    record db { jobs = update_where (is_stale stale_before) (requeue_stale stamp) db.jobs },
  )

  abbrev pub update_job : ℕ → (Job → Job) → Db R → Db R
  update_job job_id f db = record db { jobs = update_where (λ j. nat_eq j.id job_id) f db.jobs }

  unfoldable pub finish_collection_job_success : Db R → ℕ → ℕ → ℕ → ℕ → Db R
  finish_collection_job_success db job_id finished_at points_collected stamp =
      update_job job_id (succeed_job finished_at points_collected stamp) db

  unfoldable pub finish_collection_job_failure : Db R → ℕ → ℕ → String → ℕ → Db R
  finish_collection_job_failure db job_id finished_at error stamp =
      update_job job_id (fail_job finished_at error stamp) db

  unfoldable pub requeue_collection_job : Db R → ℕ → ℕ → String → ℕ → Db R
  requeue_collection_job db job_id next_attempt_at error stamp =
      update_job job_id (requeue_job next_attempt_at error stamp) db

  -- The INSERT of an attempt; its foreign key must name a job. The row's key and `created_at` are
  -- the table's to give.
  unfoldable pub record_collection_job_attempt : Db R → Attempt → ℕ → Result Unit × Db R
  record_collection_job_attempt db attempt stamp =
      if is_some (find_job db attempt.job_id)
      then (
        ok tt,
        record db {
          attempts =
              db.attempts ++ record attempt { id = db.next_attempt; created_at = stamp } ∷ [];
          next_attempt = db.next_attempt + 1;
        },
      )
      else (raise (Error.integrity_error "FOREIGN KEY constraint failed"), db)
