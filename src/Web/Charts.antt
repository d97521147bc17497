-- ===== src/Web/Charts.antt =====
-- googletrends_app/main.py, the charts of the pages: coordinates, ticks and the path. The text of a
-- float and Python's dates are arguments.
pub mod Sorted
pub mod Ticks
pub mod Drawn
use googletrends.Base.{
  ℕ, zero, suc, ◌+◌, ◌-◌, ◌*◌, ◌/◌, ◌%◌, max, String, Bool, Option, none, some, List, [], ◌∷◌, map,
  length, get_elem?, is_empty, ltb, leb, nat_eq, append, if◌then◌else◌,
}
use googletrends.Database.{Point, Error, Result, ok, raise}
use googletrends.Dates.{Calendar, format_beijing, format_chart_axis_label}
use googletrends.Collector.Floats.{Floats}

-- `round(a / n)`, which takes a half to the even neighbour. The quotient of the ticks is exact as a
-- float: the charts ask for five ticks, and divide by 4.
abbrev pub round_to : ℕ → ℕ → ℕ → ℕ
round_to q r n =
    if ltb (2 * r) n
    then q
    else if ltb n (2 * r)
    then q + 1
    else if nat_eq (q % 2) 0
    then q
    else q + 1

unfoldable pub rounded : ℕ → ℕ → ℕ
rounded a n = round_to (a / n) (a % n) n

-- `range(i, i + n)`
abbrev pub range_from : ℕ → ℕ → List ℕ
range_from i zero = []
range_from i (suc n) = i ∷ range_from (i + 1) n

abbrev pub insert_sorted : ℕ → List ℕ → List ℕ
insert_sorted n [] = n ∷ []
insert_sorted n (x ∷ xs) =
    if ltb n x then n ∷ x ∷ xs else if nat_eq n x then x ∷ xs else x ∷ insert_sorted n xs

-- `sorted` of a set
unfoldable pub sorted_set : List ℕ → List ℕ
sorted_set [] = []
sorted_set (x ∷ xs) = insert_sorted x (sorted_set xs)

unfoldable pub select_tick_indexes : ℕ → ℕ → List ℕ
unfolding sorted_set rounded
select_tick_indexes total max_ticks =
    if nat_eq total 0
    then []
    else if leb total max_ticks
    then range_from 0 total
    else if leb max_ticks 1
    then 0 ∷ []
    else sorted_set
        (map (λ index. rounded (index * (total - 1)) (max_ticks - 1)) (range_from 0 max_ticks))

pub record Coord (R : Type 0) : Type 0 where
  pub x : R
  pub y : R
  pub value : ℕ
  pub date : String
  pub display_date : String

pub record XTick (R : Type 0) : Type 0 where
  pub x : R
  pub label : String
  pub anchor : String

pub record YTick (R : Type 0) : Type 0 where
  pub value : ℕ
  pub y : R

pub record Chart (R : Type 0) : Type 0 where
  pub width : ℕ
  pub height : ℕ
  pub path : String
  pub points : List (Coord R)
  pub x_ticks : List (XTick R)
  pub y_ticks : List (YTick R)
  pub point_radius : R

-- What a chart takes from Python: `str` of a float, and the dates.
pub record Shown (R D : Type 0) : Type 0 where
  pub float_text : R → String
  pub calendar : Calendar D

-- What a part of the drawing gives: a value, the exception that a date raises, or an IndexError.
pub data Charting (A : Type 0) : Type 0 where
  charted : A → Charting A
  raised : Error → Charting A
  index_error : Charting A

-- `append` in front of what the rest of a loop gives.
abbrev pub cons_charted : {A : Type 0} → Charting A → Charting (List A) → Charting (List A)
cons_charted (charted a) (charted as') = charted (a ∷ as')
cons_charted (charted a) (raised e) = raised e
cons_charted (charted a) index_error = index_error
cons_charted (raised e) later = raised e
cons_charted index_error later = index_error

abbrev pub map_result : {A B : Type 0} → (A → B) → Result A → Charting B
map_result f (ok a) = charted (f a)
map_result f (raise e) = raised e

-- The anchor of the tick at a place among so many.
abbrev pub anchor_at : ℕ → ℕ → String
anchor_at count position =
    if leb count 1
    then "middle"
    else if nat_eq position 0
    then "start"
    else if nat_eq position (count - 1)
    then "end"
    else "middle"

module _ {R D : Type 0} (F : Floats R) (S : Shown R D) where
  -- `round(padding + usable - usable * value / 100, 2)`
  abbrev pub height_of : ℕ → ℕ → ℕ → R
  height_of usable padding value =
      F.round2
        (F.minus (F.of_nat (padding + usable)) (F.over (F.of_nat (usable * value)) (F.of_nat 100)))

  -- A point at a place, with its date as it is shown.
  abbrev pub coord_of : ℕ → ℕ → ℕ → ℕ → ℕ → ℕ → Point → String → Coord R
  coord_of width height padding_x padding_y max_index index point display_date = record {
    x =
        F.round2
          (F.plus (F.of_nat padding_x) (F.over (F.of_nat (width * index)) (F.of_nat max_index)));
    y = height_of height padding_y point.value;
    value = point.value;
    date = point.point_date;
    display_date = display_date;
  }

  -- The coordinates of the points from one place on.
  unfoldable pub coords_from : ℕ → ℕ → ℕ → ℕ → ℕ → ℕ → List Point → Charting (List (Coord R))
  unfolding format_beijing
  coords_from width height padding_x padding_y max_index index [] = charted []
  coords_from width height padding_x padding_y max_index index (point ∷ rest) =
      cons_charted
        (map_result (coord_of width height padding_x padding_y max_index index point)
          (format_beijing S.calendar point.point_date point.timeframe))
        (coords_from width height padding_x padding_y max_index (index + 1) rest)

  unfoldable pub build_chart_y_ticks : ℕ → ℕ → List (YTick R)
  build_chart_y_ticks height padding_y =
      map
        (λ value. record { value = value; y = height_of (height - padding_y * 2) padding_y value })
        (100 ∷ 75 ∷ 50 ∷ 25 ∷ 0 ∷ [])

  -- One tick; an IndexError where a list has no such index.
  abbrev pub tick_of : String → ℕ → ℕ → Option (Coord R) → Option Point → Charting (XTick R)
  tick_of timeframe count position (some coord) (some point) =
      map_result (λ label. record { x = coord.x; label = label; anchor = anchor_at count position })
        (format_chart_axis_label S.calendar point.point_date timeframe)
  tick_of timeframe count position _ _ = index_error

  unfoldable pub x_ticks_from :
      List Point → List (Coord R) → String → ℕ → ℕ → List ℕ → Charting (List (XTick R))
  unfolding format_chart_axis_label
  x_ticks_from points coords timeframe count position [] = charted []
  x_ticks_from points coords timeframe count position (index ∷ rest) =
      cons_charted
        (tick_of timeframe count position (get_elem? coords index) (get_elem? points index))
        (x_ticks_from points coords timeframe count (position + 1) rest)

  unfoldable pub build_chart_x_ticks :
      List Point → List (Coord R) → String → Charting (List (XTick R))
  unfolding select_tick_indexes x_ticks_from
  build_chart_x_ticks points coords timeframe =
      let indexes = select_tick_indexes (length points) 5 in
      if is_empty points
      then charted []
      else if is_empty coords
      then charted []
      else x_ticks_from points coords timeframe (length indexes) 0 indexes

  abbrev pub path_from : String → List (Coord R) → String
  path_from letter [] = ""
  path_from letter (c ∷ []) =
      append letter (append " " (append (S.float_text c.x) (append " " (S.float_text c.y))))
  path_from letter (c ∷ d ∷ rest) = append letter (
      append " " (
        append (S.float_text c.x)
          (append " " (append (S.float_text c.y) (append " " (path_from "L" (d ∷ rest)))))))

  abbrev pub radius_of : ℕ → ℕ → R
  radius_of height count =
      if leb height 100
      then (if ltb 80 count then F.literal 15 1 else F.literal 20 1)
      else (if ltb 120 count then F.literal 24 1 else F.literal 32 1)

  abbrev pub drawn : ℕ → ℕ → ℕ → ℕ → List (Coord R) → Charting (List (XTick R)) → Charting (Chart R)
  drawn width height padding_y count coords (raised e) = raised e
  drawn width height padding_y count coords index_error = index_error
  drawn width height padding_y count coords (charted x_ticks) = charted (record {
    width = width;
    height = height;
    path = path_from "M" coords;
    points = coords;
    x_ticks = x_ticks;
    y_ticks = build_chart_y_ticks height padding_y;
    point_radius = radius_of height count;
  })

  abbrev pub with_coords :
      List Point → String → ℕ → ℕ → ℕ → Charting (List (Coord R)) → Charting (Chart R)
  with_coords points timeframe width height padding_y (charted coords) =
      drawn width height padding_y (length points) coords
        (build_chart_x_ticks points coords timeframe)
  with_coords points timeframe width height padding_y (raised e) = raised e
  with_coords points timeframe width height padding_y index_error = index_error

  -- `height` and `width` leave room for the paddings, as the two calls do.
  unfoldable pub build_chart_with_size : List Point → ℕ → ℕ → ℕ → ℕ → Charting (Chart R)
  unfolding coords_from build_chart_x_ticks build_chart_y_ticks
  build_chart_with_size [] width height padding_x padding_y = charted (record {
    width = width;
    height = height;
    path = "";
    points = [];
    x_ticks = [];
    y_ticks = [];
    point_radius = F.literal 26 1;
  })
  build_chart_with_size (point ∷ rest) width height padding_x padding_y =
      let points = point ∷ rest in
      with_coords points point.timeframe width height padding_y (
        coords_from (width - padding_x * 2) (height - padding_y * 2) padding_x padding_y
          (max (length points - 1) 1) 0 points)

  unfoldable pub build_chart : List Point → Charting (Chart R)
  unfolding build_chart_with_size
  build_chart points = build_chart_with_size points 900 280 32 20
