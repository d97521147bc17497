-- ===== src/Tests/Points.antt =====
-- Points, alerts and backtests.
use googletrends.Base.{
  ℕ, refl, String, Bool, none, List, [], ◌∷◌, ◌≡◌, ◌+◌, ◌≤◌, arith, length, All,
}
use googletrends.Database.{Point, ok}
use googletrends.Database.Pairwise.{Pairwise}
use googletrends.Repository.Jobs.{find_keyword}
use googletrends.Repository.Points.{upsert_from, new_point}
use googletrends.Repository.Points.Upsert.{Apart, upsert_from-Apart, upsert_from-ok}
use googletrends.Repository.Points.Stored.{stored, newest, upsert_from-stored}
use googletrends.Collector.Floats.{thousandths, thousandths-IsFloats}
use googletrends.Collector.Radar.{build_short_window_alerts, build_alert_candidates}
use googletrends.Collector.Radar.Exclusive.{build_short_window_alerts-one}
use googletrends.Collector.Evaluate.{create_alerts}
use googletrends.Collector.Evaluate.Written.{IsWritten, create_alerts-IsWritten}
use googletrends.Backtest.{BacktestEvent, simulate_events, minimum_points_for_timeframe}
use googletrends.Backtest.Events.{Differ, simulate_events-Differ, build_alert_candidates-too_few}
use googletrends.Tests.Data.{tea_db, tea_series, three_points, six_and_a_day, spike_of}

-- Twelve points of one value, and a rise.
abbrev point_at : ℕ → String → ℕ → Point
point_at id date value =
    new_point id tea_series 5 (record { date = date; value = value; is_partial = Bool.false })

abbrev rising : List Point
rising =
    point_at 1 "01" 10
    ∷ point_at 2 "02" 10
    ∷ point_at 3 "03" 10
    ∷ point_at 4 "04" 10
    ∷ point_at 5 "05" 10
    ∷ point_at 6 "06" 10
    ∷ point_at 7 "07" 10
    ∷ point_at 8 "08" 10
    ∷ point_at 9 "09" 10
    ∷ point_at 10 "10" 10
    ∷ point_at 11 "11" 80
    ∷ point_at 12 "12" 90
    ∷ []

upsert_from-stored_example :
    stored (upsert_from tea_db tea_series 50 0 three_points).1 tea_series "2024-01-01"
    ≡ newest three_points "2024-01-01" (stored tea_db tea_series "2024-01-01")
upsert_from-stored_example =
    upsert_from-stored tea_db tea_series 50 0 three_points "2024-01-01"
      (unfold find_keyword in refl)

upsert_from-Apart_example :
    Pairwise Apart (upsert_from tea_db tea_series 50 0 three_points).1.points
upsert_from-Apart_example = upsert_from-Apart tea_db tea_series 50 0 three_points tt

upsert_from-ok_example :
    (upsert_from tea_db tea_series 50 0 three_points).0 ≡ ok (0 + length three_points)
upsert_from-ok_example =
    upsert_from-ok tea_db tea_series 50 0 three_points (unfold find_keyword in refl)

build_short_window_alerts-one_example :
    length (build_short_window_alerts thousandths rising "now 7-d") ≤ 1
build_short_window_alerts-one_example =
    build_short_window_alerts-one thousandths thousandths-IsFloats rising "now 7-d"

create_alerts-IsWritten_example : IsWritten (length tea_db.alerts) (
    create_alerts tea_db
      (λ n. 100 + n)
      1
      ""
      six_and_a_day
      (spike_of "2024-01-01" ∷ spike_of "2024-01-02" ∷ []))
create_alerts-IsWritten_example =
    create_alerts-IsWritten tea_db (λ n. 100 + n) 1 "" six_and_a_day
      (spike_of "2024-01-01" ∷ spike_of "2024-01-02" ∷ []) tt

simulate_events-Differ_example :
    let events = simulate_events thousandths (λ s. none) six_and_a_day rising "now 7-d" in
    Pairwise Differ events
    × All
        (λ (e : BacktestEvent ℕ).
          (minimum_points_for_timeframe "now 7-d" ≤ e.observed_points)
          × (e.observed_points ≤ length rising))
        events
simulate_events-Differ_example =
    simulate_events-Differ thousandths (λ s. none) six_and_a_day rising "now 7-d"

build_alert_candidates-too_few_example : build_alert_candidates thousandths rising "today 3-m" ≡ []
build_alert_candidates-too_few_example =
    build_alert_candidates-too_few thousandths rising "today 3-m"
      (unfold minimum_points_for_timeframe in omega arith)
