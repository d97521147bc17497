-- ===== src/Collector/Process.antt =====
-- googletrends_app/collector.py, the handling of one collection job: points stored and alerts
-- evaluated, or the attempt recorded and the job repeated or given up. The provider has answered
-- when this begins, so the database is the one of that moment.
pub mod Untouched
pub mod Updates
pub mod Ends
pub mod Table
use googletrends.Base.{
  has_lower_text, decimal, ℕ, zero, suc, ◌+◌, ◌-◌, ◌*◌, ◌/◌, ◌%◌, ◌^◌, String, Bool, true, false,
  ◌||◌, Option, none, some, List, [], ◌∷◌, ◌++◌, ltb, map, max, select, append, has_text,
  lower_codes, codes, codes_eq, ◌&&◌, nat_eq, is_blank, length, ◌==◌, if◌then◌else◌,
}
use googletrends.Trends.{TrendPoint}
use googletrends.Database.{
  Db, Job, Attempt, Status, failed, Error, value_error, keyword_not_found, job_not_found,
  term_not_found, integrity_error, operational_error, overflow_error, Result, ok, raise,
}
use googletrends.Repository.Jobs.{
  JobRow, finish_collection_job_success, finish_collection_job_failure, requeue_collection_job,
  record_collection_job_attempt,
}
use googletrends.Repository.Points.{upsert_trend_points}
use googletrends.Collector.Floats.{Floats}
use googletrends.Collector.Radar.{AlertDecision, should_notify_alert}
use googletrends.Collector.Evaluate.{Cooldown, evaluate_alerts, later}

abbrev pub rate_limit_retry_seconds : ℕ
rate_limit_retry_seconds = 5

unfoldable pub is_google_rate_limit_error : String → Bool
is_google_rate_limit_error error =
    has_lower_text "code 429" error || has_lower_text "response with code 429" error

unfoldable pub format_collection_error : String → String
format_collection_error error =
    if is_google_rate_limit_error error then "Google Trends 限流 429：请求过于频繁，已自动延后重试。" else error

-- `max(attempts - 1, 0)` is the subtraction of natural numbers.
unfoldable pub next_retry_delay_seconds : String → ℕ → ℕ → ℕ
next_retry_delay_seconds raw_error attempts retry_delay_seconds =
    if is_google_rate_limit_error raw_error
    then rate_limit_retry_seconds * max 1 (2 ^ (attempts - 1))
    else retry_delay_seconds

-- `str(exc)`
unfoldable pub error_text : Error → String
unfolding decimal
error_text (value_error m) = m
error_text (keyword_not_found k) = append "Keyword id " (append (decimal k) " was not found.")
error_text (job_not_found j) = append "Collection job not found: " (decimal j)
error_text (term_not_found t) = append "Keyword not found: " t
error_text (integrity_error m) = m
error_text (operational_error m) = m
error_text (overflow_error m) = m

-- 9999-12-31T23:59:59, the last second of a `datetime`, from the first one.
abbrev pub last_moment : ℕ
last_moment = 315537897599

-- What a provider answers: points, or the text of the exception that it raised.
pub data Reply : Type 0 where
  points : List TrendPoint → Reply
  failure : String → Reply

-- The provider's `last_proxy_name`, `last_proxy_url` and `last_profile_key`.
pub record Trace : Type 0 where
  pub proxy_name : Option String
  pub proxy_url : Option String
  pub profile_key : Option String

-- The readings of the clock, in order: those of the collection, those of the end by success, and
-- those of the `except` block; and what SQLite raises at the statement that would end the work by
-- success, and at the one that ends the `except` block (a locked database, a full disk), if it does.
pub record Clock : Type 0 where
  pub during : ℕ → ℕ
  pub success : ℕ → ℕ
  pub success_fault : Option Error
  pub ending : ℕ → ℕ
  pub last_fault : Option Error

-- The arguments of `process_collection_job` that the worker passes on.
pub record Config : Type 0 where
  pub timeframe : String
  pub retry_delay_seconds : ℕ
  pub cooldown : Cooldown

-- What is handed to the notifier: the arguments of `format_alert_notification`, or the failure text.
pub data Message (R : Type 0) : Type 0 where
  alert_message : String → AlertDecision R → ℕ → String → Message R
  failure_message : String → String → Message R

-- The dictionary that describes how the job ended.
pub data Outcome : Type 0 where
  succeeded : ℕ → ℕ → Outcome
  requeued : String → ℕ → ℕ → Outcome
  gave_up : String → Outcome

-- `job["term"] or "deleted keyword"`
abbrev pub term_of : Option String → String
term_of none = "deleted keyword"
term_of (some t) = if is_blank t then "deleted keyword" else t

-- `job["timeframe"] or timeframe`
abbrev pub timeframe_of : Config → Job → String
timeframe_of config job = if is_blank job.timeframe then config.timeframe else job.timeframe

-- The `try` block after the provider's answer: the count of points and the alerts, or the text of
-- an exception, with the database as it was left.
abbrev pub Collected : Type 0 → Type 0
Collected R = Result (ℕ × List (AlertDecision R)) × Db R

abbrev pub attempt_row : Job → Trace → String → ℕ → Attempt
attempt_row job trace error finished_at = record {
  id = 0;
  job_id = job.id;
  attempt_no = job.attempts;
  status = failed;
  proxy_name = trace.proxy_name;
  proxy_url = trace.proxy_url;
  profile_key = trace.profile_key;
  error = some error;
  started_at = job.started_at;
  finished_at = finished_at;
  created_at = 0;
}

abbrev pub attempt_error : String → Result Unit → String
attempt_error error (ok _) = error
attempt_error error (raise e) =
    append error (append " (failed to record attempt: " (append (error_text e) ")"))

module _ {R : Type 0} where
  -- The points of a job; a row without a keyword breaks the NOT NULL column at the first point.
  unfoldable pub store_points :
      Db R → Option ℕ → List TrendPoint → String → String → String → ℕ → Result ℕ × Db R
  store_points db (some keyword_id) found geo gprop timeframe collected_at =
      upsert_trend_points db keyword_id found geo gprop timeframe collected_at
  store_points db none [] geo gprop timeframe collected_at = (ok 0, db)
  store_points db none (p ∷ ps) geo gprop timeframe collected_at =
      (raise (integrity_error "NOT NULL constraint failed: trend_points.keyword_id"), db)

  -- The alerts of a job; a row without a keyword has no points, so no candidates.
  unfoldable pub job_alerts :
      Floats R
      → Db R
      → (ℕ → ℕ)
      → Option ℕ
      → String
      → String
      → Cooldown
      → Result (List (AlertDecision R)) × Db R
  job_alerts F db clock (some keyword_id) timeframe gprop c =
      evaluate_alerts F db clock keyword_id timeframe gprop c
  job_alerts F db clock none timeframe gprop c = (ok [], db)

  abbrev pub alert_messages : String → Option ℕ → String → List (AlertDecision R) → List (Message R)
  alert_messages term none gprop alerts = []
  alert_messages term (some keyword_id) gprop alerts =
      map (λ a. alert_message term a keyword_id gprop) (select should_notify_alert alerts)

  abbrev pub with_alerts : ℕ → Result (List (AlertDecision R)) × Db R → Collected R
  with_alerts count (ok alerts, db) = (ok (count, alerts), db)
  with_alerts count (raise e, db) = (raise e, db)

  abbrev pub after_points :
      Floats R → (ℕ → ℕ) → Option ℕ → String → String → Cooldown → Result ℕ × Db R → Collected R
  after_points F clock keyword_id timeframe gprop c (ok count, db) =
      with_alerts count (job_alerts F db (later clock 1) keyword_id timeframe gprop c)
  after_points F clock keyword_id timeframe gprop c (raise e, db) = (raise e, db)

  unfoldable pub collect_points :
      Floats R → Config → Db R → (ℕ → ℕ) → Job → List TrendPoint → Collected R
  unfolding store_points job_alerts
  collect_points F config db clock job found =
      after_points F clock job.keyword_id (timeframe_of config job) job.gprop config.cooldown
        (store_points db job.keyword_id found job.geo job.gprop (timeframe_of config job) (clock 0))

  -- The statement that ends the `except` block: what is returned and sent if it succeeds.
  abbrev pub last_statement :
      Option Error
      → Outcome
      → List (Message R)
      → Db R
      → Db R
      → Result Outcome × List (Message R) × Db R
  last_statement none outcome messages before after = (ok outcome, messages, after)
  last_statement (some e) outcome messages before after = (raise e, [], before)

  -- The end of the `except` block, with the attempt recorded. A `timedelta` of more than 999999999
  -- days raises the same exception as the sum, with a text of its own, which nothing reads.
  unfoldable pub repeat_or_give_up :
      Config → Db R → Clock → JobRow → String → String → Result Outcome × List (Message R) × Db R
  repeat_or_give_up config db clock row raw_error error =
      let job = row.job in
      let delay = next_retry_delay_seconds raw_error job.attempts config.retry_delay_seconds in
      if ltb job.attempts job.max_attempts
      then (if ltb last_moment (clock.ending 2 + delay)
          then (raise (overflow_error "date value out of range"), [], db)
          else last_statement clock.last_fault (requeued error (clock.ending 2 + delay) delay) [] db
              (requeue_collection_job db job.id (clock.ending 2 + delay) error (clock.ending 3)))
      else last_statement clock.last_fault (gave_up error)
          (failure_message (term_of row.term) error ∷ []) db
          (finish_collection_job_failure db job.id (clock.ending 2) error (clock.ending 3))

  -- The `except` block: readings 0 and 1 of the clock are the attempt's, 2 and 3 the job's.
  unfoldable pub handle_failure :
      Config → Db R → Clock → JobRow → Trace → String → Result Outcome × List (Message R) × Db R
  unfolding repeat_or_give_up
  handle_failure config db clock row trace raw_error =
      let error = format_collection_error raw_error in
      let (recorded, db') =
        record_collection_job_attempt db (attempt_row row.job trace error (clock.ending 0))
          (clock.ending 1) in
      repeat_or_give_up config db' clock row raw_error (attempt_error error recorded)

  -- The end of the `try` block: what the statement that ends the job raises is handled as well.
  abbrev pub succeed :
      Config
      → Clock
      → JobRow
      → Trace
      → ℕ
      → List (AlertDecision R)
      → Db R
      → Option Error
      → Result Outcome × List (Message R) × Db R
  succeed config clock row trace count alerts db none = (
    ok (succeeded count (length alerts)),
    alert_messages (term_of row.term) row.job.keyword_id row.job.gprop alerts,
    finish_collection_job_success db row.job.id (clock.success 0) count (clock.success 1),
  )
  succeed config clock row trace count alerts db (some e) =
      handle_failure config db clock row trace (error_text e)

  -- The two ends of the handling.
  abbrev pub conclude :
      Config → Clock → JobRow → Trace → Collected R → Result Outcome × List (Message R) × Db R
  conclude config clock row trace (ok (count, alerts), db) =
      succeed config clock row trace count alerts db clock.success_fault
  conclude config clock row trace (raise e, db) =
      handle_failure config db clock row trace (error_text e)

  unfoldable pub process_collection_job :
      Floats R
      → Config
      → Db R
      → Clock
      → JobRow
      → Trace
      → Reply
      → Result Outcome × List (Message R) × Db R
  unfolding collect_points handle_failure
  process_collection_job F config db clock row trace (points found) =
      conclude config clock row trace (collect_points F config db clock.during row.job found)
  process_collection_job F config db clock row trace (failure raw_error) =
      handle_failure config db clock row trace raw_error
