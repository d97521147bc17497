-- ===== src/Backtest.antt =====
-- googletrends_app/backtest.py: the alert rules replayed over the stored points of a keyword, one
-- prefix at a time, with the duplicates and the cooldown of the live evaluation.
pub mod Events
use googletrends.Base.{
  ℕ, zero, suc, ◌+◌, ◌-◌, ◌*◌, String, Bool, true, false, not, ◌&&◌, ◌||◌, Option, none, some, List,
  [], ◌∷◌, ◌++◌, ltb, take, length, contains, any_of, ◌==◌, if◌then◌else◌,
}
use googletrends.Trends.{now_timeframes, mid_timeframes, long_timeframes}
use googletrends.Database.{Db, Point, Error, keyword_not_found, Result, ok, raise}
use googletrends.Repository.Keywords.{get_keyword, keyword_gprop}
use googletrends.Repository.Points.{list_trend_points}
use googletrends.Collector.Floats.{Floats}
use googletrends.Collector.Radar.{AlertDecision, normalized_alert_points, build_alert_candidates}
use googletrends.Collector.Evaluate.{Cooldown, alert_cooldown_hours}

pub record BacktestEvent (R : Type 0) : Type 0 where
  pub alert : AlertDecision R
  pub observed_points : ℕ

-- The keys of `last_event_at`: severity, category and timeframe.
pub record CooldownKey : Type 0 where
  pub severity : String
  pub category : String
  pub timeframe : String

abbrev pub key_eq : CooldownKey → CooldownKey → Bool
key_eq a b = a.severity == b.severity && a.category == b.category && a.timeframe == b.timeframe

unfoldable pub minimum_points_for_timeframe : String → ℕ
minimum_points_for_timeframe timeframe =
    if contains timeframe now_timeframes
    then 12
    else if contains timeframe mid_timeframes
    then 17
    else if contains timeframe long_timeframes
    then 10
    else 1

-- `last_event_at.get(key)`: the newest entry of a key stands first.
unfoldable pub last_event : CooldownKey → List (CooldownKey × ℕ) → Option ℕ
last_event key [] = none
last_event key ((k, t) ∷ rest) = if key_eq k key then some t else last_event key rest

-- `category_counts`, a dictionary in the order of first occurrence.
unfoldable pub count_category : String → List (String × ℕ) → List (String × ℕ)
count_category category [] = (category, 1) ∷ []
count_category category ((c, n) ∷ rest) =
    if c == category then (c, n + 1) ∷ rest else (c, n) ∷ count_category category rest

-- The variables of the simulation.
pub record Simulation (R : Type 0) : Type 0 where
  pub events : List (BacktestEvent R)
  pub seen_rules : List (String × String)
  pub last_event_at : List (CooldownKey × ℕ)

pub record BacktestResult (R : Type 0) : Type 0 where
  pub points_count : ℕ
  pub events : List (BacktestEvent R)
  pub category_counts : List (String × ℕ)

abbrev pub cooling : Option ℕ → Option ℕ → ℕ → Bool
cooling (some previous) (some time) hours = ltb time (previous + hours * 3600)
cooling _ _ hours = false

abbrev pub note_time : CooldownKey → Option ℕ → List (CooldownKey × ℕ) → List (CooldownKey × ℕ)
note_time key none times = times
note_time key (some t) times = (key, t) ∷ times

abbrev pub pair_eq : String × String → String × String → Bool
pair_eq a b = a.0 == b.0 && a.1 == b.1

module _ {R : Type 0} where
  abbrev pub exact_key : AlertDecision R → String × String
  exact_key alert = (alert.rule, alert.point_date)

  abbrev pub cooldown_key : AlertDecision R → CooldownKey
  cooldown_key alert = record {
    severity = alert.severity;
    category = alert.category;
    timeframe = alert.timeframe;
  }

-- `parse_time` is `datetime.fromisoformat` after the replacement of a final Z, in seconds; None where
-- it raises ValueError. The dates of one series are taken to agree in naming a zone: Python raises
-- TypeError for the difference of a time with a zone and one without.
module _ {R : Type 0} (F : Floats R) (parse_time : String → Option ℕ) (c : Cooldown) where
  -- One alert at one prefix: skipped if seen or cooling down, and an event otherwise.
  unfoldable pub simulate_alert : ℕ → AlertDecision R → Simulation R → Simulation R
  simulate_alert end_index alert s =
      let time = parse_time alert.point_date in
      if any_of (pair_eq (exact_key alert)) s.seen_rules
        || cooling (last_event (cooldown_key alert) s.last_event_at) time
            (alert_cooldown_hours alert.severity c)
      then s
      else record {
        events = s.events ++ record { alert = alert; observed_points = end_index } ∷ [];
        seen_rules = exact_key alert ∷ s.seen_rules;
        last_event_at = note_time (cooldown_key alert) time s.last_event_at;
      }

  unfoldable pub simulate_alerts : ℕ → List (AlertDecision R) → Simulation R → Simulation R
  unfolding simulate_alert
  simulate_alerts end_index [] s = s
  simulate_alerts end_index (alert ∷ rest) s =
      simulate_alerts end_index rest (simulate_alert end_index alert s)

  -- `for end_index in range(first, first + rounds)`
  unfoldable pub simulate_from : ℕ → ℕ → List Point → String → Simulation R → Simulation R
  unfolding simulate_alerts
  simulate_from zero first points timeframe s = s
  simulate_from (suc rounds) first points timeframe s =
      simulate_from rounds (first + 1) points timeframe
        (simulate_alerts first (build_alert_candidates F (take first points) timeframe) s)

  unfoldable pub simulate_events : List Point → String → List (BacktestEvent R)
  unfolding simulate_from
  simulate_events points timeframe =
      let first = minimum_points_for_timeframe timeframe in
      (simulate_from (length points + 1 - first) first points timeframe
        (record { events = []; seen_rules = []; last_event_at = [] })).events

  unfoldable pub count_events : List (BacktestEvent R) → List (String × ℕ) → List (String × ℕ)
  unfolding count_category
  count_events [] counts = counts
  count_events (e ∷ rest) counts = count_events rest (count_category e.alert.category counts)

  unfoldable pub run_keyword_backtest : Db R → ℕ → String → Result (BacktestResult R)
  unfolding simulate_events count_events
  run_keyword_backtest db keyword_id timeframe = elim (get_keyword db keyword_id) [
    | none ↦ raise (keyword_not_found keyword_id)
    | some keyword ↦
        let points =
          normalized_alert_points
            (list_trend_points db keyword_id none (some timeframe) (some (keyword_gprop keyword)))
            timeframe in
        let events = simulate_events points timeframe in
        ok (record {
          points_count = length points;
          events = events;
          category_counts = count_events events [];
        })
  ]
