-- ===== src/Repository/Jobs/Rows.antt =====
-- googletrends_app/repository.py, the conditions and the assignments of the statements on jobs.
use googletrends.Base.{
  ℕ, ◌+◌, String, Bool, true, false, ◌&&◌, ◌||◌, Option, none, some, ltb, leb, nat_eq, ◌==◌,
}
use googletrends.Trends.Codec.{csv_has}
use googletrends.Database.{Keyword, Job, Status, queued, running, success, failed}

abbrev pub is_queued : Status → Bool
is_queued queued = true
is_queued _ = false

abbrev pub is_running : Status → Bool
is_running running = true
is_running _ = false

-- `status IN ('queued', 'running')`
abbrev pub is_active : Status → Bool
is_active queued = true
is_active running = true
is_active _ = false

-- `keyword_id = k`, which no NULL satisfies
abbrev pub opt_eq : Option ℕ → ℕ → Bool
opt_eq none k = false
opt_eq (some j) k = nat_eq j k

-- A row of `collection_jobs` with the term of its keyword, NULL if the keyword is gone.
pub record JobRow : Type 0 where
  pub job : Job
  pub term : Option String

-- `ORDER BY created_at ASC, id ASC`
abbrev pub job_before : Job → Job → Bool
job_before a b =
    ltb a.created_at b.created_at || (nat_eq a.created_at b.created_at && ltb a.id b.id)

-- The active jobs of one keyword, window, region and search property.
abbrev pub same_target : ℕ → String → String → String → Job → Bool
same_target keyword_id timeframe geo gprop j =
    opt_eq j.keyword_id keyword_id
    && j.timeframe == timeframe
    && j.geo == geo
    && j.gprop == gprop
    && is_active j.status

-- The tests on the keyword that a job is joined with.
abbrev pub is_monitored : Keyword → Job → Bool
is_monitored k j = csv_has k.timeframes j.timeframe && csv_has k.gprop j.gprop

abbrev pub keyword_claims : Option Keyword → Job → Bool
keyword_claims none j = false
keyword_claims (some k) j = k.enabled && is_monitored k j

-- `next_attempt_at IS NULL OR next_attempt_at <= now`
abbrev pub is_due : ℕ → Option ℕ → Bool
is_due now none = true
is_due now (some t) = leb t now

abbrev pub start_job : ℕ → ℕ → Job → Job
start_job now stamp j = record j {
  status = running;
  attempts = j.attempts + 1;
  started_at = some now;
  updated_at = stamp;
}

abbrev pub refers_to : Option ℕ → Keyword → Bool
refers_to none k = false
refers_to (some i) k = nat_eq k.id i

-- `started_at IS NOT NULL AND started_at <= ?`
abbrev pub started_by : ℕ → Option ℕ → Bool
started_by t none = false
started_by t (some s) = leb s t

abbrev pub is_stale : ℕ → Job → Bool
is_stale stale_before j = is_running j.status && started_by stale_before j.started_at

abbrev pub requeue_stale : ℕ → Job → Job
requeue_stale stamp j = record j {
  status = queued;
  next_attempt_at = none;
  started_at = none;
  updated_at = stamp;
}

abbrev pub succeed_job : ℕ → ℕ → ℕ → Job → Job
succeed_job finished_at points_collected stamp j = record j {
  status = success;
  finished_at = some finished_at;
  points_collected = points_collected;
  error = none;
  next_attempt_at = none;
  updated_at = stamp;
}

abbrev pub fail_job : ℕ → String → ℕ → Job → Job
fail_job finished_at error stamp j = record j {
  status = failed;
  finished_at = some finished_at;
  error = some error;
  next_attempt_at = none;
  updated_at = stamp;
}

abbrev pub requeue_job : ℕ → String → ℕ → Job → Job
requeue_job next_attempt_at error stamp j = record j {
  status = queued;
  next_attempt_at = some next_attempt_at;
  error = some error;
  updated_at = stamp;
}
