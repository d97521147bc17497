-- ===== src/Tests/Data.antt =====
-- A small database, a worker and a controller.
use googletrends.Base.{
  ℕ, ◌+◌, refl, String, true, false, none, some, List, [], ◌∷◌, ◌==◌, if◌then◌else◌,
}
use googletrends.Trends.{TrendPoint}
use googletrends.Database.{Db, Keyword, Job, Status, queued, success, empty_db}
use googletrends.Repository.Points.{Series}
use googletrends.Repository.Jobs.Table.{IsJobTable}
use googletrends.Collector.Evaluate.{Cooldown}
use googletrends.Collector.Process.{Clock, Config, failure, Trace}
use googletrends.Collector.Due.{Provider, Round, Worker}
use googletrends.Collector.Radar.{AlertDecision}
use googletrends.Provider.Clash.{answer, Controller, group, reachable, unreachable, Settings}
use googletrends.Provider.Profiles.{ProfilePool}

abbrev pub tea : Keyword
tea = record {
  id = 1;
  term = "tea";
  enabled = true;
  remark = "";
  gprop = "";
  timeframes = "now 7-d,today 3-m";
  created_at = 1;
  updated_at = 1;
}

abbrev pub tea_job : ℕ → String → Status → ℕ → Job
tea_job id timeframe status created_at = record {
  id = id;
  keyword_id = some 1;
  source = "manual";
  timeframe = timeframe;
  geo = "";
  gprop = "";
  status = status;
  attempts = 0;
  max_attempts = 2;
  next_attempt_at = none;
  started_at = none;
  finished_at = none;
  points_collected = 0;
  error = none;
  created_at = created_at;
  updated_at = created_at;
}

abbrev pub tea_db : Db ℕ
tea_db = record (empty_db ℕ) {
  keywords = tea ∷ [];
  jobs =
      tea_job 1 "today 3-m" success 10
      ∷ tea_job 2 "now 7-d" queued 20
      ∷ tea_job 3 "today 3-m" queued 15
      ∷ [];
  next_keyword = 2;
  next_job = 4;
}

pub tea_db-IsJobTable : IsJobTable tea_db.jobs tea_db.next_job
tea_db-IsJobTable = record {
  apart = (((refl, refl), ((refl, refl), tt)), (((refl, refl), tt), (tt, tt)));
  bounded = (refl, (refl, (refl, tt)));
}

abbrev pub no_trace : Trace
no_trace = record { proxy_name = none; proxy_url = none; profile_key = none }

-- A provider that Google always limits, and that counts its requests.
abbrev pub limited : Provider ℕ
limited = record {
  collect = λ n term timeframe geo gprop.
      (n + 1, failure "The request failed: Google returned a response with code 429");
  trace = λ n. no_trace;
}

abbrev pub six_and_a_day : Cooldown
six_and_a_day = record { p1_hours = 6; p2_hours = 24 }

abbrev pub config : Config
config = record { timeframe = "now 7-d"; retry_delay_seconds = 5; cooldown = six_and_a_day }

abbrev pub clock : Clock
clock = record {
  during = λ n. 100 + n;
  success = λ n. 150 + n;
  success_fault = none;
  ending = λ n. 200 + n;
  last_fault = none;
}

abbrev pub rounds : ℕ → Round
rounds n = record { now = 1000 + n; stamp = 1000 + n; job = clock }

abbrev pub worker : Worker ℕ ℕ
worker = record { provider = 0; db = tea_db; sent = []; results = [] }

abbrev pub tea_series : Series
tea_series = record { keyword_id = 1; geo = ""; gprop = ""; timeframe = "now 7-d" }

abbrev pub three_points : List TrendPoint
three_points =
    record { date = "2024-01-01"; value = 10; is_partial = false }
    ∷ record { date = "2024-01-02"; value = 20; is_partial = false }
    ∷ record { date = "2024-01-01"; value = 30; is_partial = true }
    ∷ []

abbrev pub spike_of : String → AlertDecision ℕ
spike_of date = record {
  rule = "trend_radar:now 7-d:sudden_spike";
  severity = "P1";
  category = "sudden_spike";
  timeframe = "now 7-d";
  point_date = date;
  current_value = 80;
  baseline_value = 20;
  change_pct = some 300;
  message = "up";
}

abbrev pub settings : Settings
settings = record {
  proxy_group = "GoogleTrends";
  skip_proxy_names = "DIRECT" ∷ [];
  allowed_proxy_name_keywords = [];
}

-- Only "c" answers the delay test.
abbrev pub controller : Controller
controller = record {
  mode = answer "rule";
  proxies = answer (λ g. group "a" ("a" ∷ "b" ∷ "c" ∷ []));
  delay = λ i name. if name == "c" then reachable else unreachable;
  put = λ g name. answer tt;
}

abbrev pub two_profiles : ProfilePool
two_profiles = record { count = 2; assignments = []; cursor = 0 }
