-- ===== src/Collector/Process/Updates.antt =====
-- googletrends_app/collector.py, process_collection_job: the update of the table of jobs that an
-- outcome stands for, and why there is none.
use googletrends.Base.{
  ℕ, ◌+◌, sym, Option, none, some, ◌<◌, ◌≤◌, ◌≡◌, refl, ◌∙◌, String, List, ltb, nat_eq, Bool-cases,
  inl, inr, if◌then◌else◌, arith, ltb→lt,
}
use mathlib.Core.Path.{subst}
use googletrends.Trends.{TrendPoint}
use googletrends.Database.{Db, Job, Error, overflow_error, Result, ok, raise, Attempt}
use googletrends.Database.Table.{update_where}
use googletrends.Repository.Jobs.{
  JobRow, succeed_job, fail_job, requeue_job, finish_collection_job_success,
  finish_collection_job_failure, requeue_collection_job, record_collection_job_attempt,
}
use googletrends.Collector.Floats.{Floats}
use googletrends.Collector.Radar.{AlertDecision}
use googletrends.Collector.Process.Untouched.{store_points-kept, after_points-kept}
use googletrends.Collector.Process.{
  Clock, Config, Message, Outcome, succeeded, requeued, gave_up, Reply, points, failure, Trace,
  collect_points, repeat_or_give_up, handle_failure, conclude, process_collection_job, attempt_row,
  last_moment, last_statement, next_retry_delay_seconds, succeed, attempt_error,
  format_collection_error, error_text, Collected, timeframe_of,
}

module _ {R : Type 0} where
  -- The collection leaves the jobs alone.
  collect_points-jobs :
      (F : Floats R) (config : Config) (db : Db R) (clock : ℕ → ℕ) (job : Job)
      (ps : List TrendPoint)
      → (collect_points F config db clock job ps).1.jobs ≡ db.jobs
  unfolding collect_points
  collect_points-jobs F config db clock job ps =
      let kept =
        store_points-kept (λ (d : Db R). d.jobs) (λ d ps n. refl) db job.keyword_id ps job.geo
          job.gprop (timeframe_of config job) (clock 0) in
      after_points-kept (λ (d : Db R). d.jobs) (λ d as' n. refl) F clock job.keyword_id
        (timeframe_of config job) job.gprop config.cooldown _
      ∙ kept

  record_attempt-jobs :
      (db : Db R) (a : Attempt) (stamp : ℕ)
      → (record_collection_job_attempt db a stamp).1.jobs ≡ db.jobs
  unfolding record_collection_job_attempt
  record_attempt-jobs db a stamp = ground arith

-- The update of the job's row that an outcome stands for.
abbrev pub outcome_update : Clock → Outcome → Job → Job
outcome_update clock (succeeded count alerts) =
    succeed_job (clock.success 0) count (clock.success 1)
outcome_update clock (requeued error at delay) = requeue_job at error (clock.ending 3)
outcome_update clock (gave_up error) = fail_job (clock.ending 2) error (clock.ending 3)

-- A job is repeated while it has attempts left, after the delay and before the end of the dates, and
-- given up when it has none.
abbrev pub IsDueOutcome : Clock → Job → Outcome → Type 0
IsDueOutcome clock job (succeeded count alerts) = clock.success_fault ≡ none
IsDueOutcome clock job (requeued error at delay) =
    (job.attempts < job.max_attempts) × (at ≡ clock.ending 2 + delay) × (at ≤ last_moment)
IsDueOutcome clock job (gave_up error) = job.max_attempts ≤ job.attempts

-- The text that a handling treats as its error: what the provider raised, or the text of what was
-- raised after its answer.
abbrev pub IsCause : Reply → String → Type 0
IsCause (failure error) raw = raw ≡ error
IsCause (points found) raw = (e : Error) × (raw ≡ error_text e)

-- Why the handling of a job raises: SQLite refuses the last statement, or the job has attempts left
-- and its next one, after the delay for the error, would lie behind the end of the dates.
pub data IsRaised (config : Config) (clock : Clock) (job : Job) (reply : Reply)
    : Error → Type 0 where
  refused : {e : Error} → clock.last_fault ≡ some e → IsRaised config clock job reply e
  too_late :
      (raw : String) {e : Error}
      → IsCause reply raw
      → job.attempts < job.max_attempts
      → last_moment
        < clock.ending 2 + next_retry_delay_seconds raw job.attempts config.retry_delay_seconds
      → e ≡ overflow_error "date value out of range"
      → IsRaised config clock job reply e

module _ {R : Type 0} where
  -- The result of a handling, on the jobs of the database it began with.
  abbrev pub Updates :
      Config → Clock → Job → Reply → List Job → Result Outcome × List (Message R) × Db R → Type 0
  Updates config clock job reply jobs (ok o, sent, db) =
      (db.jobs ≡ update_where (λ (j : Job). nat_eq j.id job.id) (outcome_update clock o) jobs)
      × IsDueOutcome clock job o
  Updates config clock job reply jobs (raise e, sent, db) =
      (db.jobs ≡ jobs) × IsRaised config clock job reply e

  last_statement-Updates :
      (config : Config) (clock : Clock) (job : Job) (reply : Reply) (jobs : List Job)
      (fault : Option Error) (o : Outcome) (sent : List (Message R)) (before after : Db R)
      → fault ≡ clock.last_fault
      → before.jobs ≡ jobs
      → after.jobs ≡ update_where (λ (j : Job). nat_eq j.id job.id) (outcome_update clock o) jobs
      → IsDueOutcome clock job o
      → Updates config clock job reply jobs (last_statement fault o sent before after)
  last_statement-Updates config clock job reply jobs none o sent before after f b a d = (a, d)
  last_statement-Updates config clock job reply jobs (some e) o sent before after f b a d =
      (b, refused (sym f))

  repeat-Updates :
      (config : Config) (db : Db R) (clock : Clock) (row : JobRow) (reply : Reply)
      (raw error : String)
      → IsCause reply raw
      → Updates config clock row.job reply db.jobs (repeat_or_give_up config db clock row raw error)
  unfolding repeat_or_give_up requeue_collection_job finish_collection_job_failure
  repeat-Updates config db clock row reply raw error c =
      let delay = next_retry_delay_seconds raw row.job.attempts config.retry_delay_seconds in
      elim (Bool-cases (ltb row.job.attempts row.job.max_attempts)) [
        | inl t ↦ elim (Bool-cases (ltb last_moment (clock.ending 2 + delay))) [
          | inl late ↦
              rw (t, late, repeat_or_give_up, if◌then◌else◌)
                (refl, too_late raw c (ltb→lt _ _ t) (ltb→lt _ _ late) refl)
          | inr early ↦
              rw (t, early, repeat_or_give_up, if◌then◌else◌)
                (last_statement-Updates config clock row.job reply db.jobs clock.last_fault _ _ db _
                  refl refl refl (ltb→lt _ _ t, refl, ground arith))
        ]
        | inr f ↦
            rw (f, repeat_or_give_up, if◌then◌else◌)
              (last_statement-Updates config clock row.job reply db.jobs clock.last_fault _ _ db _
                refl refl refl (ground arith))
      ]

  failure-Updates :
      (config : Config) (db : Db R) (clock : Clock) (row : JobRow) (trace : Trace) (reply : Reply)
      (raw : String)
      → IsCause reply raw
      → Updates config clock row.job reply db.jobs (handle_failure config db clock row trace raw)
  unfolding handle_failure
  failure-Updates config db clock row trace reply raw c =
      let error = format_collection_error raw in
      let attempt = attempt_row row.job trace error (clock.ending 0) in
      let recorded = record_collection_job_attempt db attempt (clock.ending 1) in
      subst
        (λ js. Updates config clock row.job reply js (handle_failure config db clock row trace raw))
        (record_attempt-jobs db attempt (clock.ending 1))
        (repeat-Updates config recorded.1 clock row reply raw (attempt_error error recorded.0) c)

  succeed-Updates :
      (config : Config) (clock : Clock) (row : JobRow) (trace : Trace) (count : ℕ)
      (alerts : List (AlertDecision R)) (db : Db R) (found : List TrendPoint) (fault : Option Error)
      → fault ≡ clock.success_fault
      → Updates config clock row.job
          (points found)
          db.jobs
          (succeed config clock row trace count alerts db fault)
  unfolding finish_collection_job_success
  succeed-Updates config clock row trace count alerts db found none e = (refl, sym e)
  succeed-Updates config clock row trace count alerts db found (some x) e =
      failure-Updates config db clock row trace (points found) (error_text x) (x, refl)

  conclude-Updates :
      (config : Config) (clock : Clock) (row : JobRow) (trace : Trace) (found : List TrendPoint)
      (r : Collected R)
      → Updates config clock row.job (points found) r.1.jobs (conclude config clock row trace r)
  conclude-Updates config clock row trace found (ok (count, alerts), db) =
      succeed-Updates config clock row trace count alerts db found clock.success_fault refl
  conclude-Updates config clock row trace found (raise e, db) =
      failure-Updates config db clock row trace (points found) (error_text e) (e, refl)

  pub process_collection_job-Updates :
      (F : Floats R) (config : Config) (db : Db R) (clock : Clock) (row : JobRow) (trace : Trace)
      (reply : Reply)
      → Updates config clock row.job reply db.jobs
          (process_collection_job F config db clock row trace reply)
  unfolding process_collection_job
  process_collection_job-Updates F config db clock row trace (failure raw) =
      failure-Updates config db clock row trace (failure raw) raw refl
  process_collection_job-Updates F config db clock row trace (points ps) =
      let collected = collect_points F config db clock.during row.job ps in
      subst
        (λ js.
          Updates config clock row.job (points ps) js (conclude config clock row trace collected))
        (collect_points-jobs F config db clock.during row.job ps)
        (conclude-Updates config clock row trace ps collected)
