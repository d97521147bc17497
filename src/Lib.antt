-- ===== src/Lib.antt =====
-- A verification library of googletrends, a service that collects Google Trends data for keywords,
-- stores it in SQLite, raises alerts, and changes proxies when Google limits its requests.
--
-- The parts of the program and their files here:
--   Trends        googletrends_app/trends.py: the comma-separated windows and search properties of a
--                 keyword (parse_timeframes, serialize_timeframes and the same for gprops). Codec has
--                 Python's join and split and SQLite's search in such a text.
--   Dates         googletrends_app/time_utils.py and the labels of main.py: how dates are shown.
--   Database      googletrends_app/database.py: the rows of the schema, and a database as its tables
--                 with the next value of each key. Table has UPDATE, DELETE and ORDER BY LIMIT 1 on
--                 lists of rows, Pairwise the keys and unique columns, Migrations the columns that
--                 the schema and the migrations give a file.
--   Repository    googletrends_app/repository.py, one function per statement: Jobs, Keywords, Points,
--                 Alerts, Runs and Reports. A function takes the database and returns it with its
--                 result; an exception is a value of Result.
--   Collector     googletrends_app/collector.py: Radar has the alert rules, Evaluate the cooldowns and
--                 the loop that writes alerts, Process the handling of one job, Due the worker's loop
--                 process_due_jobs, Enqueue the creation of jobs, Direct the collection without jobs, and
--                 Floats the floats of the rules.
--   Backtest      googletrends_app/backtest.py: the replay of the rules over stored points.
--   Provider      Clash is the rotation of googletrends_app/clash.py, with Config its configuration,
--                 Proxies the pool of proxy_pool.py and Subscription its parsers, Profiles the pool of
--                 request_profiles.py, Pytrends the provider of trends.py, Check proxy_check.py.
--   Settings      googletrends_app/settings.py.
--   Web           googletrends_app/main.py: Keywords, Bulk and Collect have the handlers of the POST
--                 requests (handle_add_keyword is add_keyword, and so on), Routes a request and its
--                 handler, Charts the charts, and Pages what a page shows.
--   Worker        googletrends_app/worker.py: the lock. Steps has the whole application as a relation
--                 between states: requests, scheduled jobs, and the thread's repairs, claims and ends.
--   Base          tests on numbers, lists and texts that the parts share; Tests runs the definitions.
--
-- The worker's loop claims a job from the repository, asks the provider, stores the points, evaluates
-- the alerts and ends the job, or records the attempt and queues the job again. A claim takes one
-- attempt, so the loop is run on fuel, and the attempts that the queued jobs have left bound it.
--
-- Times are numbers of seconds from the first one of the year 1, as Python's datetime has them, and
-- the readings of the clock are arguments, in the order of the calls: every stored time has one
-- fixed-width format, in which the order of texts is the order of times. A next attempt that would
-- lie behind the year 9999 raises.
--
-- SQLite refuses a statement that breaks a constraint of the schema. What else it may raise, such as
-- for a locked database, is an argument at the statements that end the handling of a job or a run,
-- and at each statement of the transaction of a bulk change; other statements do not raise it.
--
-- Dates of points are texts. Python's floats are a parameter with the operations that the rules use;
-- where a theorem needs laws, they are those of IEEE doubles other than NaN, and thousandths meet them.
-- The provider, the controller's answers, what fetching a subscription yields, and what Python's
-- libraries make of a text (URLs, YAML, base64, csv, ISO dates and zones, Unicode digits) are
-- parameters. Texts compare by code points, and the case folding of SQLite's NOCASE is that of ASCII.
--
-- Not modelled: HTTP requests, the templates and the URL that redirect builds, list_keywords and
-- list_runs, the notifier, the status on the page of the proxy check, strftime
-- and zones, and the wiring of create_app. The worker's loop of Collector.Due runs without other
-- connections; in Worker.Steps they come between a claim and the end of its job, but not between the
-- statements of one step.
pub mod Base
pub mod Trends
pub mod Database
pub mod Dates
pub mod Repository
pub mod Collector
pub mod Backtest
pub mod Provider
pub mod Settings
pub mod Worker
pub mod Web
pub mod Tests
