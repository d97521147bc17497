-- ===== src/Backtest/Events.antt =====
-- googletrends_app/backtest.py, simulate_events: where it starts, and its events.
use googletrends.Base.{
  ℕ, zero, suc, ◌+◌, ◌-◌, ◌<◌, ◌≤◌, ◌≡◌, String, Bool, true, false, Option, List, [], ◌∷◌, ◌++◌,
  length, any_of, contains, take, Bool-cases, inl, inr, arith, if◌then◌else◌, All, All-append,
  eq_iff,
}
use googletrends.Trends.{now_timeframes, mid_timeframes, long_timeframes}
use googletrends.Database.{Point}
use googletrends.Database.Pairwise.{Pairwise, Pairwise-append_one}
use googletrends.Collector.Floats.{Floats}
use googletrends.Collector.Radar.{
  AlertDecision, build_alert_candidates, build_short_window_alerts, build_mid_window_alerts,
  build_long_window_alerts,
}
use googletrends.Collector.Evaluate.{Cooldown, alert_cooldown_hours}
use googletrends.Backtest.{
  BacktestEvent, Simulation, minimum_points_for_timeframe, pair_eq, exact_key, simulate_alert,
  simulate_alerts, simulate_from, simulate_events, cooling, last_event, cooldown_key, note_time,
}

-- With fewer points than the number at which a backtest of the window starts, the alert rules give
-- no alert.
pub build_alert_candidates-too_few :
    {R : Type 0} (F : Floats R) (points : List Point) (timeframe : String)
    → length points < minimum_points_for_timeframe timeframe
    → build_alert_candidates F points timeframe ≡ []
unfolding build_alert_candidates build_short_window_alerts build_mid_window_alerts
    build_long_window_alerts minimum_points_for_timeframe
build_alert_candidates-too_few F points timeframe h =
    elim (Bool-cases (contains timeframe now_timeframes)) [
      | inl a ↦ ground arith
      | inr a ↦ elim (Bool-cases (contains timeframe mid_timeframes)) [
        | inl b ↦ ground arith
        | inr b ↦ elim (Bool-cases (contains timeframe long_timeframes)) [
          | inl c ↦ ground arith
          | inr c ↦ ground arith
        ]
      ]
    ]

unseen :
    (key : String × String) (keys : List (String × String))
    → any_of (pair_eq key) keys ≡ false
    → (other : String × String) → any_of (pair_eq other) keys ≡ true
    → pair_eq other key ≡ false
unseen key [] h other k = cc
unseen key (x ∷ keys) h other k = elim (Bool-cases (pair_eq other x)) [
  | inl t ↦ ground (
    arith,
    eq_iff other.0 x.0,
    eq_iff other.1 x.1,
    eq_iff other.0 key.0,
    eq_iff other.1 key.1,
    eq_iff key.0 x.0,
    eq_iff key.1 x.1,
  )
  | inr f ↦ unseen key keys (ground arith) other (ground arith)
]

module _ {R : Type 0} where
  -- Two events of different rules or dates.
  abbrev pub Differ : BacktestEvent R → BacktestEvent R → Type 0
  Differ a b = pair_eq (exact_key a.alert) (exact_key b.alert) ≡ false

  -- The events so far differ, their keys are among those seen, and they were seen at prefixes of
  -- the points.
  pub record IsSimulated (low high : ℕ) (s : Simulation R) : Type 0 where
    pub differ : Pairwise Differ s.events
    pub seen :
        All
          (λ (e : BacktestEvent R). any_of (pair_eq (exact_key e.alert)) s.seen_rules ≡ true)
          s.events
    pub observed :
        All
          (λ (e : BacktestEvent R). (low ≤ e.observed_points) × (e.observed_points ≤ high))
          s.events

  seen_more :
      (key : String × String) (keys : List (String × String)) (es : List (BacktestEvent R))
      → All (λ (e : BacktestEvent R). any_of (pair_eq (exact_key e.alert)) keys ≡ true) es
      → All (λ (e : BacktestEvent R). any_of (pair_eq (exact_key e.alert)) (key ∷ keys) ≡ true) es
  seen_more key keys [] h = tt
  seen_more key keys (e ∷ es) h = (ground arith, seen_more key keys es h.1)

  unseen-Differ :
      (keys : List (String × String)) (new : BacktestEvent R)
      → any_of (pair_eq (exact_key new.alert)) keys ≡ false
      → (es : List (BacktestEvent R))
      → All (λ (e : BacktestEvent R). any_of (pair_eq (exact_key e.alert)) keys ≡ true) es
      → All (λ e. Differ e new) es
  unseen-Differ keys new h [] a = tt
  unseen-Differ keys new h (e ∷ es) a =
      (unseen (exact_key new.alert) keys h (exact_key e.alert) a.0, unseen-Differ keys new h es a.1)

  key_self : (e : BacktestEvent R) → pair_eq (exact_key e.alert) (exact_key e.alert) ≡ true
  key_self e =
      ground (arith, eq_iff e.alert.rule e.alert.rule, eq_iff e.alert.point_date e.alert.point_date)

module _ {R : Type 0} (F : Floats R) (parse_time : String → Option ℕ) (c : Cooldown) where
  alert-IsSimulated :
      (low high end_index : ℕ) (a : AlertDecision R) (s : Simulation R)
      → low ≤ end_index
      → end_index ≤ high
      → IsSimulated low high s
      → IsSimulated low high (simulate_alert F parse_time c end_index a s)
  unfolding simulate_alert
  alert-IsSimulated low high n a s h k i =
      elim (Bool-cases (any_of (pair_eq (exact_key a)) s.seen_rules)) [
        | inl old ↦ rw (old, simulate_alert, if◌then◌else◌) i
        | inr new ↦ elim (Bool-cases (cooling_down)) [
          | inl skip ↦ rw (new, simulate_alert) (rw (skip, if◌then◌else◌) i)
          | inr go ↦ rw (new, simulate_alert) (rw (go, if◌then◌else◌) (added new))
        ]
      ]
    where
      cooling_down : Bool
      cooling_down =
          cooling (last_event (cooldown_key a) s.last_event_at) (parse_time a.point_date)
            (alert_cooldown_hours a.severity c)

      e : BacktestEvent R
      e = record { alert = a; observed_points = n }

      added :
          any_of (pair_eq (exact_key a)) s.seen_rules ≡ false
          → IsSimulated low high (record {
            events = s.events ++ e ∷ [];
            seen_rules = exact_key a ∷ s.seen_rules;
            last_event_at = note_time (cooldown_key a) (parse_time a.point_date) s.last_event_at;
          })
      added new = record {
        differ =
            Pairwise-append_one Differ s.events e i.differ
              (unseen-Differ s.seen_rules e new s.events i.seen);
        seen =
            All-append _ s.events (e ∷ []) (seen_more (exact_key a) s.seen_rules s.events i.seen)
              (ground (arith, key_self e), tt);
        observed = All-append _ s.events (e ∷ []) i.observed ((h, k), tt);
      }

  alerts-IsSimulated :
      (low high end_index : ℕ) (as' : List (AlertDecision R)) (s : Simulation R)
      → low ≤ end_index
      → end_index ≤ high
      → IsSimulated low high s
      → IsSimulated low high (simulate_alerts F parse_time c end_index as' s)
  unfolding simulate_alerts
  alerts-IsSimulated low high n [] s h k i = i
  alerts-IsSimulated low high n (a ∷ rest) s h k i =
      alerts-IsSimulated low high n rest _ h k (alert-IsSimulated low high n a s h k i)

  from-IsSimulated :
      (low high rounds first : ℕ) (points : List Point) (timeframe : String) (s : Simulation R)
      → low ≤ first
      → rounds ≤ high + 1 - first
      → IsSimulated low high s
      → IsSimulated low high (simulate_from F parse_time c rounds first points timeframe s)
  unfolding simulate_from
  from-IsSimulated low high zero first points timeframe s h k i = i
  from-IsSimulated low high (suc rounds) first points timeframe s h k i =
      from-IsSimulated low high rounds (first + 1) points timeframe
        (simulate_alerts F parse_time c first
          (build_alert_candidates F (take first points) timeframe) s)
        (omega arith) (omega arith)
        (alerts-IsSimulated low high first (build_alert_candidates F (take first points) timeframe)
          s h (omega arith) i)

  -- A backtest reports no rule twice for one date, and each event at a prefix that has at least
  -- the window's least number of points, and at most all points.
  pub simulate_events-Differ :
      (points : List Point) (timeframe : String)
      → let events = simulate_events F parse_time c points timeframe in
        Pairwise Differ events
        × All
            (λ (e : BacktestEvent R).
              (minimum_points_for_timeframe timeframe ≤ e.observed_points)
              × (e.observed_points ≤ length points))
            events
  unfolding simulate_events
  simulate_events-Differ points timeframe =
      let low = minimum_points_for_timeframe timeframe in
      let i =
        from-IsSimulated low (length points) (length points + 1 - low) low points timeframe
          (record { events = []; seen_rules = []; last_event_at = [] }) (omega arith) (omega arith)
          (record { differ = tt; seen = tt; observed = tt }) in
      (i.differ, i.observed)
