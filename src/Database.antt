-- ===== src/Database.antt =====
-- googletrends_app/database.py: the rows of the SQLite schema, and the database as its tables with
-- the next value of each AUTOINCREMENT key. REAL columns hold values of a type `R`, the program's
-- floats. A timestamp is a number of seconds: every column has one fixed-width UTC text format, in
-- which the order of texts is the order of times. Point dates come from the provider, and are texts.
pub mod Table
pub mod Migrations
pub mod Pairwise
use googletrends.Base.{ℕ, String, Bool, Option, List, []}

pub record Keyword : Type 0 where
  pub id : ℕ
  pub term : String
  pub enabled : Bool
  pub remark : String
  pub gprop : String
  pub timeframes : String
  pub created_at : ℕ
  pub updated_at : ℕ

pub data Status : Type 0 where
  queued running success failed : Status

pub record Run : Type 0 where
  pub id : ℕ
  pub keyword_id : Option ℕ
  pub started_at : ℕ
  pub finished_at : Option ℕ
  pub status : Status
  pub points_collected : ℕ
  pub error : Option String

pub record Job : Type 0 where
  pub id : ℕ
  pub keyword_id : Option ℕ
  pub source : String
  pub timeframe : String
  pub geo : String
  pub gprop : String
  pub status : Status
  pub attempts : ℕ
  pub max_attempts : ℕ
  pub next_attempt_at : Option ℕ
  pub started_at : Option ℕ
  pub finished_at : Option ℕ
  pub points_collected : ℕ
  pub error : Option String
  pub created_at : ℕ
  pub updated_at : ℕ

pub record Attempt : Type 0 where
  pub id : ℕ
  pub job_id : ℕ
  pub attempt_no : ℕ
  pub status : Status
  pub proxy_name : Option String
  pub proxy_url : Option String
  pub profile_key : Option String
  pub error : Option String
  pub started_at : Option ℕ
  pub finished_at : ℕ
  pub created_at : ℕ

pub record Point : Type 0 where
  pub id : ℕ
  pub keyword_id : ℕ
  pub point_date : String
  pub value : ℕ
  pub is_partial : Bool
  pub geo : String
  pub gprop : String
  pub timeframe : String
  pub collected_at : ℕ

pub record Alert (R : Type 0) : Type 0 where
  pub id : ℕ
  pub keyword_id : ℕ
  pub rule : String
  pub severity : String
  pub category : String
  pub timeframe : String
  pub gprop : String
  pub point_date : String
  pub current_value : Option R
  pub baseline_value : Option R
  pub change_pct : Option R
  pub remark : String
  pub message : String
  pub created_at : ℕ

pub record Db (R : Type 0) : Type 0 where
  pub keywords : List Keyword
  pub runs : List Run
  pub jobs : List Job
  pub attempts : List Attempt
  pub points : List Point
  pub alerts : List (Alert R)
  pub next_keyword : ℕ
  pub next_run : ℕ
  pub next_job : ℕ
  pub next_attempt : ℕ
  pub next_point : ℕ
  pub next_alert : ℕ

-- The tables of a fresh schema.
abbrev pub empty_db : (R : Type 0) → Db R
empty_db R = record {
  keywords = [];
  runs = [];
  jobs = [];
  attempts = [];
  points = [];
  alerts = [];
  next_keyword = 1;
  next_run = 1;
  next_job = 1;
  next_attempt = 1;
  next_point = 1;
  next_alert = 1;
}

-- The exceptions that the repository raises or lets through, and those of SQLite and of the dates.
pub data Error : Type 0 where
  value_error : String → Error
  keyword_not_found : ℕ → Error
  job_not_found : ℕ → Error
  term_not_found : String → Error
  integrity_error : String → Error
  operational_error overflow_error : String → Error

pub data Result (A : Type 0) : Type 0 where
  ok : A → Result A
  raise : Error → Result A
