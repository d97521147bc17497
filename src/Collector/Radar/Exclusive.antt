-- ===== src/Collector/Radar/Exclusive.antt =====
-- googletrends_app/collector.py, build_short_window_alerts: rises against drops.
use googletrends.Base.{
  ℕ, ◌^◌, ◌≡◌, refl, ◌≤◌, String, true, false, List, ltb, leb, length, Bool-cases, Option-cases,
  inl, inr, ◌⊎◌, arith,
}
use googletrends.Database.{Point}
use googletrends.Collector.Floats.{Floats, IsFloats}
use googletrends.Collector.Radar.{
  is_spike, is_drop, short_rules, build_short_window_alerts, latest_point, average_value,
  last_points, window, all_but,
}

module _ {R : Type 0} (F : Floats R) (laws : IsFloats F) where
  spike_rises :
      (cur base mult : R) (delta floor : ℕ)
      → ltb 0 delta ≡ true
      → leb delta (2 ^ 53) ≡ true
      → is_spike F cur base mult (F.of_nat delta) (F.of_nat floor) ≡ true
      → (F.lt base cur ≡ true) ⊎ (F.le base (F.of_nat 0) ≡ true)
  unfolding is_spike
  spike_rises cur base mult delta floor p b h = elim (Bool-cases (F.le base (F.of_nat 0))) [
    | inl low ↦ inr low
    | inr high ↦
        inl (laws.lt_of_minus cur base (F.of_nat delta) (laws.of_nat_lt 0 delta p b) (ground arith))
  ]

  drop_falls :
      (cur base mult : R) (delta floor : ℕ)
      → ltb 0 delta ≡ true
      → leb delta (2 ^ 53) ≡ true
      → is_drop F cur base mult (F.of_nat delta) (F.of_nat floor) ≡ true
      → (F.lt cur base ≡ true) × (F.le (F.of_nat floor) base ≡ true)
  unfolding is_drop
  drop_falls cur base mult delta floor p b h = (
    laws.lt_of_minus base cur (F.of_nat delta) (laws.of_nat_lt 0 delta p b) (ground arith),
    ground (arith, laws.lt-not-le base (F.of_nat floor)),
  )

  lt_asym : (x y : R) → F.lt x y ≡ true → F.lt y x ≡ true → ⊥
  lt_asym x y h k = ground (arith, laws.lt-not-le x y, laws.lt-not-le y x, laws.le_total x y)

  -- No value both spikes over its baseline and drops below it, for positive thresholds of exact floats.
  is_spike-is_drop :
      (cur base mult mult' : R) (delta floor delta' floor' : ℕ)
      → ltb 0 delta ≡ true
      → leb delta (2 ^ 53) ≡ true
      → ltb 0 delta' ≡ true
      → leb delta' (2 ^ 53) ≡ true
      → ltb 0 floor' ≡ true
      → leb floor' (2 ^ 53) ≡ true
      → is_spike F cur base mult (F.of_nat delta) (F.of_nat floor) ≡ true
      → is_drop F cur base mult' (F.of_nat delta') (F.of_nat floor') ≡ false
  is_spike-is_drop cur base mult mult' delta floor delta' floor' p b p' b' q c h =
      elim (Bool-cases (is_drop F cur base mult' (F.of_nat delta') (F.of_nat floor'))) [
        | inr fails ↦ fails
        | inl holds ↦ absurd (
            clash (spike_rises cur base mult delta floor p b h)
              (drop_falls cur base mult' delta' floor' p' b' holds))
      ]
    where
      clash :
          (F.lt base cur ≡ true) ⊎ (F.le base (F.of_nat 0) ≡ true)
          → (F.lt cur base ≡ true) × (F.le (F.of_nat floor') base ≡ true)
          → ⊥
      clash (inl up) d = lt_asym base cur up d.0
      clash (inr low) d = ground (
        arith,
        laws.le_trans (F.of_nat floor') base (F.of_nat 0) d.1 low,
        laws.of_nat_lt 0 floor' q c,
        laws.lt-not-le (F.of_nat 0) (F.of_nat floor'),
      )

  short_rules-one :
      (timeframe date : String) (cur base : R) → length (short_rules F timeframe date cur base) ≤ 1
  unfolding short_rules
  short_rules-one timeframe date cur base = ground (
    arith,
    is_spike-is_drop cur base (F.literal 25 1) (F.literal 45 2) 15 15 15 15 refl refl refl refl refl
        refl,
    is_spike-is_drop cur base (F.literal 25 1) (F.literal 70 2) 15 15 8 12 refl refl refl refl refl
        refl,
    is_spike-is_drop cur base (F.literal 135 2) (F.literal 45 2) 6 10 15 15 refl refl refl refl refl
        refl,
    is_spike-is_drop cur base (F.literal 135 2) (F.literal 70 2) 6 10 8 12 refl refl refl refl refl
        refl,
  )

  -- Over floats whose order is total and agrees with whole numbers and with subtraction, a short
  -- window gives at most one alert, whatever its points are: what has risen has not fallen.
  pub build_short_window_alerts-one :
      (points : List Point) (timeframe : String)
      → length (build_short_window_alerts F points timeframe) ≤ 1
  unfolding build_short_window_alerts
  build_short_window_alerts-one points timeframe = elim (Option-cases (latest_point points)) [
    | inl e ↦ ground arith
    | inr (p, e) ↦
        let rules = short_rules-one timeframe p.point_date in
        elim (Bool-cases (leb 27 (length points))) [
          | inl a ↦ ground (
            arith,
            rules (average_value F (last_points 3 points)) (average_value F (window 27 3 points)),
          )
          | inr a ↦ ground (
            arith,
            rules (average_value F (last_points 2 points)) (average_value F (all_but 2 points)),
          )
        ]
  ]
