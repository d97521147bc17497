-- ===== src/Collector/Radar.antt =====
-- googletrends_app/collector.py, the alert rules: the short, mid and long window rules over the
-- points of one series, oldest first.
pub mod Exclusive
use googletrends.Base.{
  ℕ, zero, suc, ◌+◌, ◌-◌, String, Bool, true, false, not, ◌&&◌, ◌||◌, Option, none, some, List, [],
  ◌∷◌, ◌++◌, ltb, leb, length, take, drop, get_elem?, select, is_empty, contains, append, max,
  if◌then◌else◌,
}
use googletrends.Trends.{now_timeframes, mid_timeframes, long_timeframes}
use googletrends.Database.{Point}
use googletrends.Collector.Floats.{Floats}

pub record AlertDecision (R : Type 0) : Type 0 where
  pub rule : String
  pub severity : String
  pub category : String
  pub timeframe : String
  pub point_date : String
  pub current_value : R
  pub baseline_value : R
  pub change_pct : Option R
  pub message : String

abbrev pub alert_rule_prefix : String
alert_rule_prefix = "trend_radar"

-- f"{ALERT_RULE_PREFIX}:{timeframe}:{category}"
abbrev pub alert_rule : String → String → String
alert_rule timeframe category =
    append alert_rule_prefix (append ":" (append timeframe (append ":" category)))

-- `points[-n:]`
abbrev pub last_points : ℕ → List Point → List Point
last_points n points = drop (length points - n) points

-- `points[-m:-n]`
abbrev pub window : ℕ → ℕ → List Point → List Point
window m n points = drop (length points - m) (take (length points - n) points)

-- `points[:-n]`
abbrev pub all_but : ℕ → List Point → List Point
all_but n points = take (length points - n) points

-- `points[-1]`
abbrev pub latest_point : List Point → Option Point
latest_point points = get_elem? points (length points - 1)

unfoldable pub normalized_alert_points : List Point → String → List Point
normalized_alert_points points timeframe =
    if contains timeframe now_timeframes then points else select (λ p. not p.is_partial) points

-- `max(point["value"] for point in points)`
abbrev pub peak : List Point → ℕ
peak [] = 0
peak (p ∷ ps) = max p.value (peak ps)

-- `xs or ys` for the conditional list parts
abbrev pub when : {A : Type 0} → Bool → A → List A
when b a = if b then a ∷ [] else []

module _ {R : Type 0} (F : Floats R) where
  open F use {of_nat, literal, plus, minus, times, over, le, lt, round2}

  unfoldable pub sum_from : R → List Point → R
  sum_from acc [] = acc
  sum_from acc (p ∷ ps) = sum_from (plus acc (of_nat p.value)) ps

  unfoldable pub average_value : List Point → R
  unfolding sum_from
  average_value points = over (sum_from (of_nat 0) points) (of_nat (length points))

  unfoldable pub is_spike : R → R → R → R → R → Bool
  is_spike current baseline multiplier delta floor =
      if lt current floor
      then false
      else if le baseline (of_nat 0)
      then le floor current
      else le (times baseline multiplier) current && le delta (minus current baseline)

  unfoldable pub is_drop : R → R → R → R → R → Bool
  is_drop current baseline multiplier delta floor =
      if lt baseline floor
      then false
      else le current (times baseline multiplier) && le delta (minus baseline current)

  unfoldable pub percent_change : R → R → Option R
  percent_change current baseline =
      if le baseline (of_nat 0)
      then none
      else some (times (over (minus current baseline) baseline) (of_nat 100))

  abbrev round_option : Option R → Option R
  round_option none = none
  round_option (some x) = some (round2 x)

  unfoldable pub make_alert : String → String → String → String → R → R → String → AlertDecision R
  unfolding percent_change
  make_alert timeframe category severity point_date current_value baseline_value message = record {
    rule = alert_rule timeframe category;
    severity = severity;
    category = category;
    timeframe = timeframe;
    point_date = point_date;
    current_value = round2 current_value;
    baseline_value = round2 baseline_value;
    change_pct = round_option (percent_change current_value baseline_value);
    message = message;
  }

  -- `max(float(previous_peak), 1.0)`
  abbrev pub breakout_baseline : ℕ → R
  breakout_baseline previous_peak =
      if lt (of_nat previous_peak) (literal 10 1) then literal 10 1 else of_nat previous_peak

  -- The two rules of the short window, on the averages.
  unfoldable pub short_rules : String → String → R → R → List (AlertDecision R)
  unfolding is_spike is_drop make_alert
  short_rules timeframe date recent_avg baseline =
      (if is_spike recent_avg baseline (literal 25 1) (of_nat 15) (of_nat 15)
        then make_alert timeframe "sudden_spike" "P1" date recent_avg baseline
            "短线搜索热度暴增，可能进入快速传播阶段。"
          ∷ []
        else when (is_spike recent_avg baseline (literal 135 2) (of_nat 6) (of_nat 10)) (
            make_alert timeframe "warming_up" "P2" date recent_avg baseline
              "短线搜索热度小幅升温，建议观察是否持续放量。"))
      ++ (if is_drop recent_avg baseline (literal 45 2) (of_nat 15) (of_nat 15)
          then make_alert timeframe "sudden_drop" "P1" date recent_avg baseline
              "短线搜索热度快速下跌，可能出现热度暴毙。"
            ∷ []
          else when (is_drop recent_avg baseline (literal 70 2) (of_nat 8) (of_nat 12)) (
              make_alert timeframe "cooling_down" "P2" date recent_avg baseline
                "短线搜索热度明显回落，建议确认是否失去动能。"))

  unfoldable pub build_short_window_alerts : List Point → String → List (AlertDecision R)
  unfolding short_rules average_value
  build_short_window_alerts points timeframe =
      if ltb (length points) 12
      then []
      else (let wide = leb 27 (length points) in
          let recent = if wide then last_points 3 points else last_points 2 points in
          let previous = if wide then window 27 3 points else all_but 2 points in
          elim (latest_point points) [
            | none ↦ []
            | some latest ↦
                if is_empty previous
                then []
                else short_rules timeframe latest.point_date (average_value recent)
                    (average_value previous)
          ])

  unfoldable pub mid_rules : String → String → R → R → ℕ → List (AlertDecision R)
  unfolding is_spike is_drop make_alert
  mid_rules timeframe date recent_avg baseline previous_peak =
      (if le (of_nat 85) recent_avg && le (times (of_nat previous_peak) (literal 95 2)) recent_avg
        then make_alert timeframe "window_breakout" "P1" date recent_avg
            (breakout_baseline previous_peak) "中期热度接近当前周期高位，可能从升温进入爆发确认。"
          ∷ []
        else when (is_spike recent_avg baseline (literal 130 2) (of_nat 8) (of_nat 15))
            (make_alert timeframe "steady_rise" "P2" date recent_avg baseline "中期热度连续走强，趋势正在形成。"))
      ++ when (is_drop recent_avg baseline (literal 65 2) (of_nat 10) (of_nat 20))
          (make_alert timeframe "steady_decline" "P2" date recent_avg baseline "中期热度连续回落，可能进入衰退段。")

  unfoldable pub build_mid_window_alerts : List Point → String → List (AlertDecision R)
  unfolding mid_rules average_value
  build_mid_window_alerts points timeframe =
      if ltb (length points) 17 then [] else elim (latest_point points) [
        | none ↦ []
        | some latest ↦
            mid_rules timeframe latest.point_date (average_value (last_points 3 points))
              (average_value (window 17 3 points)) (peak (window 17 3 points))
      ]

  unfoldable pub long_rules : String → String → R → R → R → List (AlertDecision R)
  unfolding is_spike is_drop make_alert
  long_rules timeframe date latest_value recent_avg baseline =
      (if le (of_nat 85) latest_value
        then make_alert timeframe "historical_hot" "P1" date latest_value baseline
            "长期窗口已接近当前周期高位，属于历史级热度。"
          ∷ []
        else when (is_spike recent_avg baseline (literal 135 2) (of_nat 8) (of_nat 15)) (
            make_alert timeframe "long_rise" "P2" date recent_avg baseline
              "长期窗口明显上行，当前变化具有历史参照意义。"))
      ++ when (is_drop recent_avg baseline (literal 65 2) (of_nat 10) (of_nat 20))
          (make_alert timeframe "long_decline" "P2" date recent_avg baseline "长期窗口明显下行，热度可能进入衰退。")

  unfoldable pub build_long_window_alerts : List Point → String → List (AlertDecision R)
  unfolding long_rules average_value
  build_long_window_alerts points timeframe =
      if ltb (length points) 10 then [] else elim (latest_point points) [
        | none ↦ []
        | some latest ↦
            long_rules timeframe latest.point_date (of_nat latest.value)
              (average_value (last_points 2 points)) (average_value (window 10 2 points))
      ]

  unfoldable pub build_alert_candidates : List Point → String → List (AlertDecision R)
  unfolding build_short_window_alerts build_mid_window_alerts build_long_window_alerts
  build_alert_candidates points timeframe =
      if contains timeframe now_timeframes
      then build_short_window_alerts points timeframe
      else if contains timeframe mid_timeframes
      then build_mid_window_alerts points timeframe
      else if contains timeframe long_timeframes
      then build_long_window_alerts points timeframe
      else []

module _ {R : Type 0} where
  unfoldable pub should_notify_alert : AlertDecision R → Bool
  should_notify_alert alert = not (
      contains alert.category
        ("sudden_drop" ∷ "cooling_down" ∷ "steady_decline" ∷ "long_decline" ∷ []))

  unfoldable pub suggested_action : AlertDecision R → String
  suggested_action alert =
      if contains alert.category
        ("sudden_spike" ∷ "window_breakout" ∷ "three_month_breakout" ∷ "historical_hot" ∷ [])
      then "立即查看关键词详情，优先评估选题、投放、内容或库存机会。"
      else if contains alert.category ("warming_up" ∷ "steady_rise" ∷ "long_rise" ∷ [])
      then "继续观察下一轮采集，提前准备素材；若持续上涨则升级处理。"
      else if contains alert.category
          ("sudden_drop" ∷ "cooling_down" ∷ "steady_decline" ∷ "long_decline" ∷ [])
      then "确认是否进入衰退，降低追涨优先级并复盘已投入动作。"
      else "打开关键词详情页，结合历史曲线判断是否需要人工介入。"
