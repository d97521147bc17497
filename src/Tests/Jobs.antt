-- ===== src/Tests/Jobs.antt =====
-- Jobs: creation, claims, and the worker's loop.
use googletrends.Base.{refl, none, some, ◌≡◌, arith, true, here, there}
use googletrends.Repository.Jobs.{
  create_collection_job, claim_next_collection_job, job_row, find_keyword,
  delete_unmonitored_queued_jobs, keyword_of, is_monitored,
}
use googletrends.Repository.Jobs.Claim.{Claimed, claim_next_collection_job_lem}
use googletrends.Repository.Jobs.Table.{JobsOk}
use googletrends.Repository.Jobs.Steps.{start, next, create, claim, Reach-JobsOk}
use googletrends.Repository.Jobs.Create.{create_collection_job-again}
use googletrends.Collector.Floats.{thousandths}
use googletrends.Collector.Process.{
  next_retry_delay_seconds, is_google_rate_limit_error, points, failure, process_collection_job,
}
use googletrends.Collector.Process.Ends.{EndsBy, process_collection_job-EndsBy}
use googletrends.Collector.Due.{due_loop, process_due_jobs, repair}
use googletrends.Collector.Due.Termination.{HasEnded, due_loop-HasEnded}
use googletrends.Collector.Due.Repair.{process_due_jobs-HasEnded}
use googletrends.Repository.Runs.{new_run}
use googletrends.Collector.Direct.{RunClock, collect_keyword}
use googletrends.Collector.Direct.Runs.{EndsRun, collect_keyword-EndsRun}
use googletrends.Repository.Jobs.Monitored.{delete_unmonitored_queued_jobs-IsMonitored}
use googletrends.Database.{Job, Keyword, queued, running, raise, overflow_error}
use googletrends.Tests.Data.{
  tea_db, tea_db-IsJobTable, tea_job, limited, config, clock, rounds, worker, no_trace,
  three_points,
}

due_loop-HasEnded_example :
    HasEnded limited thousandths config rounds none
      (due_loop limited thousandths config 7 rounds none worker)
due_loop-HasEnded_example =
    due_loop-HasEnded limited thousandths config 7 rounds none worker
      ((refl, (refl, tt)), ((refl, tt), (tt, tt))) (omega arith)

Reach-JobsOk_example :
    JobsOk
      (claim_next_collection_job
        (create_collection_job tea_db 30 1 "manual" 5 none "today 12-m" "" "").1
        40
        41).1
Reach-JobsOk_example =
    Reach-JobsOk (next (next start (create 30 1 "manual" 5 none "today 12-m" "" "")) (claim 40 41))
      tea_db-IsJobTable

claim_next_collection_job_example : Claimed tea_db 40 41 (claim_next_collection_job tea_db 40 41)
claim_next_collection_job_example =
    claim_next_collection_job_lem tea_db 40 41 ((refl, (refl, tt)), ((refl, tt), (tt, tt)))

process_collection_job-EndsBy_example :
    EndsBy config clock
      (job_row tea_db (tea_job 2 "now 7-d" running 20)).job
      (points three_points)
      tea_db.jobs
      (process_collection_job thousandths config tea_db clock
        (job_row tea_db (tea_job 2 "now 7-d" running 20))
        no_trace
        (points three_points))
process_collection_job-EndsBy_example =
    process_collection_job-EndsBy thousandths config tea_db clock
      (job_row tea_db (tea_job 2 "now 7-d" running 20)) no_trace (points three_points)

create_collection_job-again_example :
    let r = create_collection_job tea_db 30 1 "manual" 5 none "today 12-m" "" "" in
    create_collection_job r.1 60 1 "schedule" 9 (some 70) "today 12-m" "" "" ≡ r
create_collection_job-again_example =
    create_collection_job-again tea_db 30 1 "manual" 5 none "today 12-m" "" "" 60 "schedule" 9
      (some 70) tea_db-IsJobTable (unfold find_keyword in refl)

process_due_jobs-HasEnded_example :
    HasEnded limited thousandths config rounds
      (some 3)
      (process_due_jobs limited thousandths config 7 rounds none 900 (some 3) 0 tea_db)
process_due_jobs-HasEnded_example =
    process_due_jobs-HasEnded limited thousandths config 7 rounds none 900 (some 3) 0 tea_db
      ((refl, (refl, tt)), ((refl, tt), (tt, tt))) (unfold repair in omega arith)

abbrev run_clock : RunClock
run_clock = record { started = 90; rest = clock }

collect_keyword-EndsRun_example :
    EndsRun limited thousandths "now 7-d" "" run_clock tea_db.runs
      (new_run tea_db.next_run 1 run_clock.started)
      (collect_keyword limited thousandths "now 7-d" "" run_clock 0 tea_db 1 "news")
collect_keyword-EndsRun_example =
    collect_keyword-EndsRun limited thousandths "now 7-d" "" run_clock 0 tea_db 1 "news" tt
      (unfold find_keyword in refl)

delete_unmonitored_queued_jobs-IsMonitored_example :
    (k : Keyword) × (keyword_of tea_db (some 1) ≡ some k)
    × (is_monitored k (tea_job 2 "now 7-d" queued 20) ≡ true)
unfolding googletrends.Trends.Codec.csv_has
delete_unmonitored_queued_jobs-IsMonitored_example =
    delete_unmonitored_queued_jobs-IsMonitored tea_db (tea_job 2 "now 7-d" queued 20)
      (unfold delete_unmonitored_queued_jobs in there (here refl)) refl

-- The delay before attempt 38 after a rate limit, 5 * 2 ^ 36 seconds, leads behind the year 9999.
abbrev patient_job : Job
patient_job = record (tea_job 2 "now 7-d" running 20) { attempts = 37; max_attempts = 50 }

overflows :
    (process_collection_job thousandths config tea_db clock
      (job_row tea_db patient_job)
      no_trace
      (failure "The request failed: Google returned a response with code 429")).0
    ≡ raise (overflow_error "date value out of range")
unfolding process_collection_job job_row next_retry_delay_seconds is_google_rate_limit_error
overflows = refl
