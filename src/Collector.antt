-- ===== src/Collector.antt =====
-- googletrends_app/collector.py: the alert rules, the evaluation with its cooldown, the handling of
-- one collection job, the worker's loop, and the creation of jobs.
pub mod Floats
pub mod Radar
pub mod Evaluate
pub mod Process
pub mod Due
pub mod Enqueue
pub mod Direct
