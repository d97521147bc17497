-- ===== src/Repository.antt =====
-- googletrends_app/repository.py: the SQL statements of the program, one child for each table.
pub mod Jobs
pub mod Keywords
pub mod Points
pub mod Alerts
pub mod Runs
pub mod Reports
