-- ===== src/Dates.antt =====
-- googletrends_app/time_utils.py and `format_chart_axis_label` of googletrends_app/main.py: the dates
-- of points as the pages show them, in Beijing's zone. What Python's datetime and zoneinfo make of a
-- text is an argument; so is the type of its moments.
use googletrends.Base.{
  ℕ, String, Bool, false, ◌&&◌, none, some, List, nat_eq, contains, is_empty, strip, codes, length,
  get_elem?, replace_text, ◌==◌, if◌then◌else◌,
}
use googletrends.Trends.{now_timeframes, mid_timeframes, long_timeframes}
use googletrends.Database.{value_error, Result, ok, raise}

-- A day's first moment in a zone: in UTC, or in Beijing's.
pub data Zone : Type 0 where
  utc beijing : Zone

-- Python's libraries: `date.fromisoformat` with the day's first moment in a zone, and
-- `datetime.fromisoformat` with UTC for a naive result, each turned to Beijing's zone by
-- `astimezone`, and `strftime`.
pub record Calendar (D : Type 0) : Type 0 where
  pub day : Zone → String → Result D
  pub moment : String → Result D
  pub strftime : D → String → String

abbrev pub display_format : String
display_format = "%Y-%m-%d %H:%M:%S"

-- `text[i] == "-"`
abbrev pub is_dash_at : List ℕ → ℕ → Bool
is_dash_at cs i = elim (get_elem? cs i) [ none ↦ false | some c ↦ nat_eq c 45 ]

unfoldable pub is_date_text : String → Bool
is_date_text text =
    let cs = codes text in nat_eq (length cs) 10 && is_dash_at cs 4 && is_dash_at cs 7

module _ {D : Type 0} (C : Calendar D) where
  unfoldable pub parse_datetime_text : String → String → Result D
  unfolding is_date_text
  parse_datetime_text text timeframe =
      if is_date_text text
      then C.day (if timeframe == "now 7-d" then utc else beijing) text
      else C.moment (replace_text "Z" "+00:00" text)

  -- Only a ValueError is caught.
  abbrev pub displayed : String → Result D → Result String
  displayed text (ok parsed) = ok (C.strftime parsed display_format)
  displayed text (raise (value_error message)) = ok text
  displayed text (raise e) = raise e

  -- The value is a text, as a point's date is.
  unfoldable pub format_beijing : String → String → Result String
  unfolding parse_datetime_text
  format_beijing value timeframe =
      let text = strip value in
      if is_empty (codes text) then ok "-" else displayed text (parse_datetime_text text timeframe)

  abbrev pub axis_format : String → String
  axis_format timeframe =
      if timeframe == "now 1-d"
      then "%H:%M"
      else if contains timeframe now_timeframes
      then "%m-%d"
      else if contains timeframe mid_timeframes
      then "%m-%d"
      else if contains timeframe long_timeframes
      then "%Y-%m"
      else "%Y-%m-%d"

  abbrev pub labelled : String → Result D → Result String
  labelled timeframe (ok parsed) = ok (C.strftime parsed (axis_format timeframe))
  labelled timeframe (raise e) = raise e

  unfoldable pub format_chart_axis_label : String → String → Result String
  unfolding parse_datetime_text
  format_chart_axis_label value timeframe = labelled timeframe (parse_datetime_text value timeframe)
