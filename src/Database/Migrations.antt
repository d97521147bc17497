-- ===== src/Database/Migrations.antt =====
-- googletrends_app/database.py, the schema and its migrations: which columns the tables have. The
-- types, the defaults and the indexes of the statements are not part of it.
pub mod Complete
use googletrends.Base.{
  String, Bool, true, false, not, ◌||◌, List, [], ◌∷◌, ◌++◌, contains, select, any_of, ◌==◌,
  if◌then◌else◌,
}

-- The tables of a database file, by name, with their columns in order.
abbrev pub Tables : Type 0
Tables = List (String × List String)

-- SCHEMA
abbrev pub schema : Tables
schema =
    (
      "keywords",
      "id" ∷ "term" ∷ "enabled" ∷ "remark" ∷ "gprop" ∷ "timeframes" ∷ "created_at" ∷ "updated_at"
          ∷ [],
    )
    ∷ (
      "collection_runs",
      "id" ∷ "keyword_id" ∷ "started_at" ∷ "finished_at" ∷ "status" ∷ "points_collected" ∷ "error"
          ∷ [],
    )
    ∷ (
      "collection_jobs",
      "id" ∷ "keyword_id" ∷ "source" ∷ "timeframe" ∷ "geo" ∷ "gprop" ∷ "status" ∷ "attempts"
          ∷ "max_attempts" ∷ "next_attempt_at" ∷ "started_at" ∷ "finished_at" ∷ "points_collected"
          ∷ "error" ∷ "created_at" ∷ "updated_at" ∷ [],
    )
    ∷ (
      "collection_job_attempts",
      "id" ∷ "job_id" ∷ "attempt_no" ∷ "status" ∷ "proxy_name" ∷ "proxy_url" ∷ "profile_key"
          ∷ "error" ∷ "started_at" ∷ "finished_at" ∷ "created_at" ∷ [],
    )
    ∷ (
      "trend_points",
      "id" ∷ "keyword_id" ∷ "point_date" ∷ "value" ∷ "is_partial" ∷ "geo" ∷ "gprop" ∷ "timeframe"
          ∷ "collected_at" ∷ [],
    )
    ∷ (
      "alerts",
      "id" ∷ "keyword_id" ∷ "rule" ∷ "severity" ∷ "category" ∷ "timeframe" ∷ "gprop" ∷ "point_date"
          ∷ "current_value" ∷ "baseline_value" ∷ "change_pct" ∷ "remark" ∷ "message" ∷ "created_at"
          ∷ [],
    )
    ∷ []

-- MIGRATIONS
abbrev pub migrations : Tables
migrations =
    ("keywords", "remark" ∷ "gprop" ∷ "timeframes" ∷ [])
    ∷ ("collection_jobs", "max_attempts" ∷ "timeframe" ∷ "geo" ∷ "gprop" ∷ [])
    ∷ ("collection_job_attempts", "proxy_name" ∷ "proxy_url" ∷ "profile_key" ∷ "started_at" ∷ [])
    ∷ ("trend_points", "gprop" ∷ [])
    ∷ (
      "alerts",
      "severity" ∷ "category" ∷ "timeframe" ∷ "current_value" ∷ "baseline_value" ∷ "change_pct"
          ∷ "remark" ∷ "gprop" ∷ [],
    )
    ∷ []

abbrev pub has_table : String → Tables → Bool
has_table name [] = false
has_table name ((n, columns) ∷ rest) = n == name || has_table name rest

-- `PRAGMA table_info`, which gives no rows for a table that is not there.
abbrev pub columns_of : String → Tables → List String
columns_of name [] = []
columns_of name ((n, columns) ∷ rest) = if n == name then columns else columns_of name rest

-- `CREATE TABLE IF NOT EXISTS`, for each table of a schema
abbrev pub create_table : Tables → String × List String → Tables
create_table tables (name, columns) =
    if has_table name tables then tables else tables ++ (name, columns) ∷ []

unfoldable pub create_tables : Tables → Tables → Tables
create_tables tables [] = tables
create_tables tables (t ∷ rest) = create_tables (create_table tables t) rest

-- `DROP TABLE IF EXISTS`
abbrev pub drop_table : String → Tables → Tables
drop_table name [] = []
drop_table name ((n, columns) ∷ rest) =
    let others = drop_table name rest in if n == name then others else (n, columns) ∷ others

-- The columns that `existing` lacks.
abbrev pub missing_columns : List String → List String → List String
missing_columns existing columns = select (λ c. not (contains c existing)) columns

-- The ALTER statements of one table: each adds a column at the end.
abbrev pub alter_table : String → List String → Tables → Tables
alter_table name added [] = []
alter_table name added ((n, columns) ∷ rest) =
    if n == name then (n, columns ++ added) ∷ rest else (n, columns) ∷ alter_table name added rest

unfoldable pub migrate_tables : Tables → Tables → Tables
migrate_tables tables [] = tables
migrate_tables tables ((name, columns) ∷ rest) =
    migrate_tables (alter_table name (missing_columns (columns_of name tables) columns) tables) rest

unfoldable pub run_migrations : Tables → Tables
unfolding migrate_tables
run_migrations tables = migrate_tables (drop_table "related_panels" tables) migrations

-- The schema and the migrations, on the tables of the file.
unfoldable pub initialize_tables : Tables → Tables
unfolding create_tables run_migrations
initialize_tables tables = run_migrations (create_tables tables schema)
