-- ===== src/Collector/Process/Table.antt =====
-- googletrends_app/collector.py, process_collection_job: the invariant of the table of jobs.
use googletrends.Base.{
  ℕ, ◌+◌, ◌≡◌, refl, ◌∙◌, Option, none, some, String, true, ◌&&◌, List, nat_eq, In, ltb, Bool-cases,
  inl, inr, if◌then◌else◌, arith,
}
use googletrends.Database.{Db, Job, Error, Attempt, Result, ok, raise}
use googletrends.Database.Table.{update_where}
use googletrends.Repository.Jobs.{
  JobRow, is_active, record_collection_job_attempt, finish_collection_job_success,
  finish_collection_job_failure, requeue_collection_job,
}
use googletrends.Repository.Jobs.Table.{
  JobsOk, IsJobTable, Follows, target-Follows, update_where-IsJobTable,
}
use googletrends.Repository.Jobs.Kept.{IsActiveJob, update_where_and}
use googletrends.Collector.Floats.{Floats}
use googletrends.Collector.Radar.{AlertDecision}
use googletrends.Collector.Process.{
  Clock, Config, Outcome, succeeded, requeued, gave_up, Reply, points, failure, Trace, Collected,
  collect_points, repeat_or_give_up, handle_failure, conclude, process_collection_job, attempt_row,
  Message, last_moment, last_statement, next_retry_delay_seconds, succeed, attempt_error,
  format_collection_error, error_text, timeframe_of,
}
use googletrends.Collector.Process.Untouched.{store_points-kept, after_points-kept}
use googletrends.Collector.Process.Updates.{outcome_update, Updates, process_collection_job-Updates}

-- The end of an active job keeps its key and its target.
ended-Follows :
    (clock : Clock) (o : Outcome) (j : Job)
    → is_active j.status ≡ true
    → Follows j (outcome_update clock o j)
ended-Follows clock (succeeded count alerts) j a = target-Follows j _ refl (λ k. a)
ended-Follows clock (requeued error at delay) j a = target-Follows j _ refl (λ k. a)
ended-Follows clock (gave_up error) j a = target-Follows j _ refl (λ k. a)

ended-IsJobTable :
    (clock : Clock) (o : Outcome) (id : ℕ) (jobs : List Job) (next : ℕ)
    → ((j : Job) → In j jobs → nat_eq j.id id ≡ true → is_active j.status ≡ true)
    → IsJobTable jobs next
    → IsJobTable (update_where (λ (j : Job). nat_eq j.id id) (outcome_update clock o) jobs) next
ended-IsJobTable clock o id jobs next active t =
    rw
      (update_where_and (λ j. nat_eq j.id id) (λ j. is_active j.status) (outcome_update clock o)
        jobs active)
      (update_where-IsJobTable (λ j. nat_eq j.id id && is_active j.status) (outcome_update clock o)
        jobs next (λ j h. ended-Follows clock o j (ground arith)) t)

module _ {R : Type 0} where
  record_attempt-next :
      (db : Db R) (a : Attempt) (stamp : ℕ)
      → (record_collection_job_attempt db a stamp).1.next_job ≡ db.next_job
  unfolding record_collection_job_attempt
  record_attempt-next db a stamp = ground arith

  last_statement-next :
      (next : ℕ) (fault : Option Error) (o : Outcome) (sent : List (Message R))
      (before after : Db R)
      → before.next_job ≡ next
      → after.next_job ≡ next
      → (last_statement fault o sent before after).2.next_job ≡ next
  last_statement-next next none o sent before after b a = a
  last_statement-next next (some e) o sent before after b a = b

  repeat-next :
      (config : Config) (db : Db R) (clock : Clock) (row : JobRow) (raw error : String)
      → (repeat_or_give_up config db clock row raw error).2.next_job ≡ db.next_job
  unfolding repeat_or_give_up requeue_collection_job finish_collection_job_failure
  repeat-next config db clock row raw error =
      elim (Bool-cases (ltb row.job.attempts row.job.max_attempts)) [
        | inl t ↦
            elim (Bool-cases (
              ltb last_moment (
                clock.ending 2
                + next_retry_delay_seconds raw row.job.attempts config.retry_delay_seconds))) [
                  | inl late ↦ rw (t, late, repeat_or_give_up, if◌then◌else◌) refl
                  | inr early ↦
                      rw (t, early, repeat_or_give_up, if◌then◌else◌)
                        (last_statement-next db.next_job clock.last_fault _ _ db _ refl refl)
                ]
        | inr f ↦
            rw (f, repeat_or_give_up, if◌then◌else◌)
              (last_statement-next db.next_job clock.last_fault _ _ db _ refl refl)
      ]

  failure-next :
      (config : Config) (db : Db R) (clock : Clock) (row : JobRow) (trace : Trace) (raw : String)
      → (handle_failure config db clock row trace raw).2.next_job ≡ db.next_job
  unfolding handle_failure
  failure-next config db clock row trace raw =
      let error = format_collection_error raw in
      let attempt = attempt_row row.job trace error (clock.ending 0) in
      let recorded = record_collection_job_attempt db attempt (clock.ending 1) in
      repeat-next config recorded.1 clock row raw (attempt_error error recorded.0)
      ∙ record_attempt-next db attempt (clock.ending 1)

  succeed-next :
      (config : Config) (clock : Clock) (row : JobRow) (trace : Trace) (count : ℕ)
      (alerts : List (AlertDecision R)) (db : Db R) (fault : Option Error)
      → (succeed config clock row trace count alerts db fault).2.next_job ≡ db.next_job
  unfolding finish_collection_job_success
  succeed-next config clock row trace count alerts db none = refl
  succeed-next config clock row trace count alerts db (some e) =
      failure-next config db clock row trace (error_text e)

  conclude-next :
      (config : Config) (clock : Clock) (row : JobRow) (trace : Trace) (r : Collected R)
      → (conclude config clock row trace r).2.next_job ≡ r.1.next_job
  conclude-next config clock row trace (ok (count, alerts), db) =
      succeed-next config clock row trace count alerts db clock.success_fault
  conclude-next config clock row trace (raise e, db) =
      failure-next config db clock row trace (error_text e)

  process-next :
      (F : Floats R) (config : Config) (db : Db R) (clock : Clock) (row : JobRow) (trace : Trace)
      (reply : Reply)
      → (process_collection_job F config db clock row trace reply).2.next_job ≡ db.next_job
  unfolding process_collection_job collect_points
  process-next F config db clock row trace (failure raw) =
      failure-next config db clock row trace raw
  process-next F config db clock row trace (points ps) =
      conclude-next config clock row trace (collect_points F config db clock.during row.job ps)
      ∙ after_points-kept (λ (d : Db R). d.next_job) (λ d as' n. refl) F clock.during
          row.job.keyword_id (timeframe_of config row.job) row.job.gprop config.cooldown _
      ∙ store_points-kept (λ (d : Db R). d.next_job) (λ d ps n. refl) db row.job.keyword_id ps
          row.job.geo row.job.gprop (timeframe_of config row.job) (clock.during 0)

  pub process_collection_job-JobsOk :
      (F : Floats R) (config : Config) (db : Db R) (clock : Clock) (row : JobRow) (trace : Trace)
      (reply : Reply)
      → IsActiveJob db row.job.id
      → JobsOk db
      → JobsOk (process_collection_job F config db clock row trace reply).2
  process_collection_job-JobsOk F config db clock row trace reply active t =
      from (process_collection_job F config db clock row trace reply)
        (process_collection_job-Updates F config db clock row trace reply)
        (process-next F config db clock row trace reply)
    where
      from :
          (r : Result Outcome × List (Message R) × Db R)
          → Updates config clock row.job reply db.jobs r
          → r.2.next_job ≡ db.next_job
          → JobsOk r.2
      from (ok o, sent, db') (e, d) n =
          rw (e, n) (ended-IsJobTable clock o row.job.id db.jobs db.next_job active t)
      from (raise x, sent, db') (e, w) n = rw (e, n) t
