-- ===== src/Collector/Evaluate.antt =====
-- googletrends_app/collector.py, the evaluation of a series: the candidates that are not cooling
-- down are written as alerts. The clock is the sequence of its readings, in the order of the calls.
pub mod Written
use googletrends.Base.{
  ℕ, ◌+◌, ◌-◌, ◌*◌, String, Bool, true, false, Option, none, some, List, [], ◌∷◌, ◌++◌, nat_eq,
  ◌==◌, if◌then◌else◌,
}
use googletrends.Database.{Db, Alert, Error, Result, ok, raise}
use googletrends.Repository.Points.{list_trend_points}
use googletrends.Repository.Alerts.{insert_alert, has_recent_alert}
use googletrends.Collector.Floats.{Floats}
use googletrends.Collector.Radar.{AlertDecision, normalized_alert_points, build_alert_candidates}

-- The cooldowns in hours; a cooldown that is not positive is 0.
pub record Cooldown : Type 0 where
  pub p1_hours : ℕ
  pub p2_hours : ℕ

unfoldable pub alert_cooldown_hours : String → Cooldown → ℕ
alert_cooldown_hours severity c = if severity == "P1" then c.p1_hours else c.p2_hours

abbrev pub later : (ℕ → ℕ) → ℕ → ℕ → ℕ
later clock n k = clock (n + k)

-- `results.append(x)` in front of what the rest of the loop gives
abbrev pub cons_result : {A : Type 0} {D : Type 0} → A → Result (List A) × D → Result (List A) × D
cons_result a (ok as', d) = (ok (a ∷ as'), d)
cons_result a (raise e, d) = (raise e, d)

module _ {R : Type 0} where
  -- The row that is written for a decision; the key, the remark and the time are the table's.
  abbrev pub alert_row : ℕ → String → AlertDecision R → Alert R
  alert_row keyword_id gprop alert = record {
    id = 0;
    keyword_id = keyword_id;
    rule = alert.rule;
    severity = alert.severity;
    category = alert.category;
    timeframe = alert.timeframe;
    gprop = gprop;
    point_date = alert.point_date;
    current_value = some alert.current_value;
    baseline_value = some alert.baseline_value;
    change_pct = alert.change_pct;
    remark = "";
    message = alert.message;
    created_at = 0;
  }

  unfoldable pub is_alert_in_cooldown : Db R → ℕ → ℕ → AlertDecision R → String → Cooldown → Bool
  unfolding alert_cooldown_hours
  is_alert_in_cooldown db now keyword_id alert gprop c =
      let hours = alert_cooldown_hours alert.severity c in
      if nat_eq hours 0
      then false
      else has_recent_alert db keyword_id alert.severity alert.category alert.timeframe gprop
          (now - hours * 3600)

  -- What follows an insertion: an exception ends the loop, a new row is reported.
  abbrev pub proceed :
      AlertDecision R
      → Result (List (AlertDecision R)) × Db R
      → Result Bool × Db R
      → Result (List (AlertDecision R)) × Db R
  proceed alert continued (raise e, db) = (raise e, db)
  proceed alert continued (ok true, db) = cons_result alert continued
  proceed alert continued (ok false, db) = continued

  -- The loop over the candidates: each reads the clock for its cooldown and for its row.
  unfoldable pub create_alerts :
      Db R
      → (ℕ → ℕ)
      → ℕ
      → String
      → Cooldown
      → List (AlertDecision R)
      → Result (List (AlertDecision R)) × Db R
  create_alerts db clock keyword_id gprop c [] = (ok [], db)
  create_alerts db clock keyword_id gprop c (alert ∷ rest) =
      let (inserted, db') = insert_alert db (clock 1) (alert_row keyword_id gprop alert) in
      let skipped = create_alerts db (later clock 2) keyword_id gprop c rest in
      let continued = create_alerts db' (later clock 2) keyword_id gprop c rest in
      if is_alert_in_cooldown db (clock 0) keyword_id alert gprop c
      then skipped
      else proceed alert continued (inserted, db')

  unfoldable pub evaluate_alerts :
      Floats R
      → Db R
      → (ℕ → ℕ)
      → ℕ
      → String
      → String
      → Cooldown
      → Result (List (AlertDecision R)) × Db R
  unfolding create_alerts
  evaluate_alerts F db clock keyword_id timeframe gprop c =
      create_alerts db clock keyword_id gprop c (
        build_alert_candidates F
          (normalized_alert_points
            (list_trend_points db keyword_id none (some timeframe) (some gprop)) timeframe)
          timeframe)
