-- ===== src/Web/Charts/Drawn.antt =====
-- googletrends_app/main.py, build_chart_with_size: a chart, or the exception of a date.
use googletrends.Base.{
  ℕ, zero, suc, ◌+◌, ◌-◌, ◌*◌, ◌<◌, ◌≤◌, ◌≡◌, refl, ap, ◌⊎◌, max, String, some, List, [], ◌∷◌, All,
  In, here, there, length, get_elem?, get_elem?-some, inl, inr, arith,
}
use googletrends.Database.{Point, Error, Result, ok, raise}
use googletrends.Dates.{format_beijing, format_chart_axis_label}
use googletrends.Collector.Floats.{Floats}
use googletrends.Web.Charts.{
  Chart, Charting, charted, raised, index_error, cons_charted, map_result, Coord, XTick, Shown,
  coord_of, coords_from, select_tick_indexes, x_ticks_from, build_chart_x_ticks, drawn, with_coords,
  build_chart_with_size,
}
use googletrends.Web.Charts.Ticks.{select_tick_indexes-IsTickList}

-- A list of a length, or an exception of which something is known.
abbrev HasLength : {A : Type 0} → (Error → Type 0) → ℕ → Charting (List A) → Type 0
HasLength E n (charted xs) = length xs ≡ n
HasLength E n (raised e) = E e
HasLength E n index_error = ⊥

cons-HasLength :
    {A : Type 0} (E : Error → Type 0) (a : A) (rest : Charting (List A)) (n : ℕ)
    → HasLength E n rest
    → HasLength E (suc n) (cons_charted (charted a) rest)
cons-HasLength E a (charted xs) n h = ap suc h
cons-HasLength E a (raised e) n h = h
cons-HasLength E a index_error n h = h

map_result-HasLength :
    {A B : Type 0} (E : Error → Type 0) (f : A → B) (r : Result A) (rest : Charting (List B))
    (n : ℕ)
    → ((e : Error) → r ≡ raise e → E e)
    → HasLength E n rest
    → HasLength E (suc n) (cons_charted (map_result f r) rest)
map_result-HasLength E f (ok a) rest n w h = cons-HasLength E (f a) rest n h
map_result-HasLength E f (raise e) rest n w h = w e refl

get_elem?-In : {A : Type 0} (xs : List A) (i : ℕ) (x : A) → get_elem? xs i ≡ some x → In x xs
get_elem?-In [] i x e = cc e
get_elem?-In (y ∷ ys) zero x e = here (cc e)
get_elem?-In (y ∷ ys) (suc i) x e = there (get_elem?-In ys i x e)

module _ {R D : Type 0} (F : Floats R) (S : Shown R D) where
  -- An exception that the date of one of the points raises: as a date to show, or as a label of the
  -- axis in the window of the chart.
  abbrev pub IsOfDate : List Point → String → Error → Type 0
  IsOfDate points timeframe e =
      (p : Point) × In p points
      × ((format_beijing S.calendar p.point_date p.timeframe ≡ raise e)
          ⊎ (format_chart_axis_label S.calendar p.point_date timeframe ≡ raise e))

  coords_from-HasLength :
      (w h px py m i : ℕ) (all points : List Point) (timeframe : String)
      → ((p : Point) → In p points → In p all)
      → HasLength (IsOfDate all timeframe) (length points) (coords_from F S w h px py m i points)
  unfolding coords_from
  coords_from-HasLength w h px py m i all [] timeframe inside = refl
  coords_from-HasLength w h px py m i all (p ∷ ps) timeframe inside =
      map_result-HasLength (IsOfDate all timeframe) (coord_of F S w h px py m i p)
        (format_beijing S.calendar p.point_date p.timeframe)
        (coords_from F S w h px py m (i + 1) ps) (length ps)
        (λ e r. (p, inside p (here refl), inl r))
        (coords_from-HasLength w h px py m (i + 1) all ps timeframe (λ q n. inside q (there n)))

  x_ticks_from-HasLength :
      (points : List Point) (coords : List (Coord R)) (timeframe : String) (count position : ℕ)
      (indexes : List ℕ)
      → length coords ≡ length points
      → All (λ i. i < length points) indexes
      → HasLength
          (IsOfDate points timeframe)
          (length indexes)
          (x_ticks_from F S points coords timeframe count position indexes)
  unfolding x_ticks_from
  x_ticks_from-HasLength points coords timeframe count position [] e a = refl
  x_ticks_from-HasLength points coords timeframe count position (i ∷ rest) e a =
      let (point, at_point) = get_elem?-some points i a.0 in
      let (coord, at_coord) = get_elem?-some coords i (omega (arith, e, a.0)) in
      rw (at_point, at_coord)
        (map_result-HasLength (IsOfDate points timeframe) _
          (format_chart_axis_label S.calendar point.point_date timeframe)
          (x_ticks_from F S points coords timeframe count (position + 1) rest) (length rest)
          (λ x r. (point, get_elem?-In points i point at_point, inr r))
          (x_ticks_from-HasLength points coords timeframe count (position + 1) rest e a.1))

  -- The window of a chart is that of its first point.
  abbrev pub window_of : List Point → String
  window_of [] = ""
  window_of (p ∷ ps) = p.timeframe

  -- What drawing the points gives.
  abbrev pub IsChartOf : List Point → Charting (Chart R) → Type 0
  IsChartOf points (charted chart) =
      (length chart.points ≡ length points) × (length chart.x_ticks ≤ 5)
  IsChartOf points (raised e) = IsOfDate points (window_of points) e
  IsChartOf points index_error = ⊥

  drawn-IsChartOf :
      (width height py count n : ℕ) (points : List Point) (coords : List (Coord R))
      (ticks : Charting (List (XTick R)))
      → length coords ≡ length points
      → n ≤ 5
      → HasLength (IsOfDate points (window_of points)) n ticks
      → IsChartOf points (drawn F S width height py count coords ticks)
  drawn-IsChartOf width height py count n points coords (raised x) e l h = h
  drawn-IsChartOf width height py count n points coords index_error e l h = h
  drawn-IsChartOf width height py count n points coords (charted ticks) e l h =
      (e, omega (arith, l, h))

  with_coords-IsChartOf :
      (p : Point) (ps : List Point) (width height py : ℕ) (coords : Charting (List (Coord R)))
      → HasLength (IsOfDate (p ∷ ps) p.timeframe) (suc (length ps)) coords
      → IsChartOf (p ∷ ps) (with_coords F S (p ∷ ps) p.timeframe width height py coords)
  unfolding build_chart_x_ticks
  with_coords-IsChartOf p ps width height py (charted []) h = absurd (omega (arith, h))
  with_coords-IsChartOf p ps width height py (charted (c ∷ cs)) h =
      let points = p ∷ ps in
      let indexes = select_tick_indexes (length points) 5 in
      let ticked = select_tick_indexes-IsTickList (length points) 5 (omega arith) in
      drawn-IsChartOf width height py (length points) (length indexes) points (c ∷ cs)
        (x_ticks_from F S points (c ∷ cs) p.timeframe (length indexes) 0 indexes) h
        (omega (arith, ticked.at_most))
        (x_ticks_from-HasLength points (c ∷ cs) p.timeframe (length indexes) 0 indexes h
          ticked.in_range)
  with_coords-IsChartOf p ps width height py (raised e) h = h
  with_coords-IsChartOf p ps width height py index_error h = h

  -- Drawing a list of points never takes an index out of range. It gives a chart, with a
  -- coordinate for each point and at most five ticks, or raises what the date of one of the points
  -- raises when it is formatted to be shown, or as a label in the window of the first point.
  pub build_chart_with_size-IsChartOf :
      (points : List Point) (width height padding_x padding_y : ℕ)
      → IsChartOf points (build_chart_with_size F S points width height padding_x padding_y)
  unfolding build_chart_with_size
  build_chart_with_size-IsChartOf [] width height px py = (refl, omega arith)
  build_chart_with_size-IsChartOf (p ∷ ps) width height px py =
      with_coords-IsChartOf p ps width height py
        (coords_from F S (width - px * 2) (height - py * 2) px py (max (length (p ∷ ps) - 1) 1) 0
          (p ∷ ps))
        (coords_from-HasLength (width - px * 2) (height - py * 2) px py
          (max (length (p ∷ ps) - 1) 1) 0 (p ∷ ps) (p ∷ ps) p.timeframe (λ q m. m))
