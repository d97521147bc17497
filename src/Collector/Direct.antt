-- ===== src/Collector/Direct.antt =====
-- googletrends_app/collector.py, the collection without a job: one run of a keyword, and the runs of
-- all enabled keywords with each of their search properties.
pub mod Runs
use googletrends.Base.{ℕ, ◌+◌, String, Option, none, some, List, [], ◌∷◌, ◌++◌, length}
use googletrends.Trends.{TrendPoint}
use googletrends.Database.{
  Db, Keyword, Status, success, failed, Error, keyword_not_found, Result, ok, raise,
}
use googletrends.Repository.Keywords.{get_keyword, list_enabled_keywords, keyword_gprops}
use googletrends.Repository.Runs.{create_run, finish_run}
use googletrends.Collector.Floats.{Floats}
use googletrends.Collector.Radar.{AlertDecision}
use googletrends.Collector.Evaluate.{Cooldown}
use googletrends.Collector.Process.{
  Clock, Collected, Reply, points, failure, error_text, store_points, after_points,
}
use googletrends.Collector.Due.{Provider}

-- The dictionary that a collection returns: points and alerts, or the text of an exception.
pub data Collection : Type 0 where
  collected : ℕ → ℕ → Collection
  uncollected : String → Collection

-- DEFAULT_P1_ALERT_COOLDOWN_HOURS and DEFAULT_P2_ALERT_COOLDOWN_HOURS
abbrev pub default_cooldown : Cooldown
default_cooldown = record { p1_hours = 6; p2_hours = 24 }

-- The readings of the clock of one collection: its start, CURRENT_TIMESTAMP aside, and the rest.
pub record RunClock : Type 0 where
  pub started : ℕ
  pub rest : Clock

abbrev pub paired : ℕ → List String → List (ℕ × String)
paired keyword_id [] = []
paired keyword_id (gprop ∷ gprops) = (keyword_id, gprop) ∷ paired keyword_id gprops

-- `for keyword in keywords for gprop in keyword_gprops(keyword)`
abbrev pub collections_of : List Keyword → List (ℕ × String)
collections_of [] = []
collections_of (k ∷ ks) = paired k.id (keyword_gprops k) ++ collections_of ks

module _ {R : Type 0} where
  -- The `except` block.
  abbrev pub finish_failed : Option Error → ℕ → ℕ → Db R → String → Result Collection × Db R
  finish_failed none finished_at run_id db error =
      (ok (uncollected error), finish_run db run_id failed finished_at 0 (some error))
  finish_failed (some e) finished_at run_id db error = (raise e, db)

  -- The end of the `try` block: what its last statement raises is handled as well.
  abbrev pub finish_succeeded :
      Clock → ℕ → ℕ → List (AlertDecision R) → Db R → Option Error → Result Collection × Db R
  finish_succeeded clock run_id count alerts db none = (
    ok (collected count (length alerts)),
    finish_run db run_id success (clock.success 0) count none,
  )
  finish_succeeded clock run_id count alerts db (some e) =
      finish_failed clock.last_fault (clock.ending 0) run_id db (error_text e)

  abbrev pub finish_collected : Clock → ℕ → Collected R → Result Collection × Db R
  finish_collected clock run_id (ok (count, alerts), db) =
      finish_succeeded clock run_id count alerts db clock.success_fault
  finish_collected clock run_id (raise e, db) =
      finish_failed clock.last_fault (clock.ending 0) run_id db (error_text e)

module _ {P R : Type 0} (provider : Provider P) (F : Floats R) (timeframe geo : String) where
  -- The `try` block after the provider's answer.
  unfoldable pub collect_reply : Clock → ℕ → String → ℕ → Db R → Reply → Result Collection × Db R
  unfolding store_points
  collect_reply clock keyword_id gprop run_id db (failure error) =
      finish_failed clock.last_fault (clock.ending 0) run_id db error
  collect_reply clock keyword_id gprop run_id db (points found) = finish_collected clock run_id (
      after_points F clock.during (some keyword_id) timeframe gprop default_cooldown
        (store_points db (some keyword_id) found geo gprop timeframe (clock.during 0)))

  abbrev pub on_run :
      Clock → P → ℕ → String → String → Result ℕ × Db R → Result Collection × P × Db R
  on_run clock p keyword_id term gprop (raise e, db) = (raise e, p, db)
  on_run clock p keyword_id term gprop (ok run_id, db) =
      let (p', reply) = provider.collect p term timeframe geo gprop in
      let (c, db') = collect_reply clock keyword_id gprop run_id db reply in (c, p', db')

  abbrev pub on_keyword :
      RunClock → P → Db R → ℕ → String → Option Keyword → Result Collection × P × Db R
  on_keyword clock p db keyword_id gprop none = (raise (keyword_not_found keyword_id), p, db)
  on_keyword clock p db keyword_id gprop (some keyword) =
      on_run clock.rest p keyword_id keyword.term gprop (create_run db keyword_id clock.started)

  unfoldable pub collect_keyword : RunClock → P → Db R → ℕ → String → Result Collection × P × Db R
  unfolding collect_reply
  collect_keyword clock p db keyword_id gprop =
      on_keyword clock p db keyword_id gprop (get_keyword db keyword_id)

  -- `results.append(…)` in front of what the rest of the loops gives
  abbrev pub and_then :
      Result (List Collection) × P × Db R
      → Result Collection × P × Db R
      → Result (List Collection) × P × Db R
  and_then (ok cs, p', db') (ok c, p, db) = (ok (c ∷ cs), p', db')
  and_then (raise e, p', db') (ok c, p, db) = (raise e, p', db')
  and_then later (raise e, p, db) = (raise e, p, db)

  -- The loops, over the keys of the keywords with each of their search properties.
  unfoldable pub collect_each :
      (ℕ → RunClock) → List (ℕ × String) → P → Db R → Result (List Collection) × P × Db R
  unfolding collect_keyword
  collect_each clocks [] p db = (ok [], p, db)
  collect_each clocks ((keyword_id, gprop) ∷ others) p db =
      let r = collect_keyword (clocks 0) p db keyword_id gprop in
      and_then (collect_each (λ i. clocks (i + 1)) others r.1 r.2) r

  unfoldable pub collect_all_enabled :
      (ℕ → RunClock) → P → Db R → Result (List Collection) × P × Db R
  unfolding collect_each
  collect_all_enabled clocks p db =
      collect_each clocks (collections_of (list_enabled_keywords db)) p db
