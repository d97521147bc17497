-- ===== src/Trends.antt =====
-- googletrends_app/trends.py: the windows and search properties that a keyword can be monitored
-- with, their comma-separated form in the database, and the points that a provider returns.
pub mod Codec
pub mod RoundTrip
use googletrends.Base.{
  ℕ, String, Bool, false, Option, none, some, List, [], ◌∷◌, ◌++◌, select, is_empty, contains,
  is_blank, strip, ◌&&◌, not, if◌then◌else◌,
}
use googletrends.Trends.Codec.{split, join, remove_duplicates}

abbrev pub short_timeframe : String
short_timeframe = "now 7-d"

abbrev pub mid_timeframe : String
mid_timeframe = "today 3-m"

abbrev pub long_timeframe : String
long_timeframe = "today 12-m"

abbrev pub default_gprop : String
default_gprop = ""

abbrev pub available_gprops : List String
available_gprops = default_gprop ∷ "images" ∷ "news" ∷ "youtube" ∷ "froogle" ∷ []

abbrev pub now_timeframes : List String
now_timeframes = "now 1-d" ∷ short_timeframe ∷ []

abbrev pub mid_timeframes : List String
mid_timeframes = "today 1-m" ∷ mid_timeframe ∷ []

abbrev pub long_timeframes : List String
long_timeframes = long_timeframe ∷ "today 5-y" ∷ []

abbrev pub available_timeframes : List String
available_timeframes =
    "now 1-d" ∷ short_timeframe ∷ "today 1-m" ∷ mid_timeframe ∷ long_timeframe ∷ "today 5-y" ∷ []

abbrev pub context_timeframes : List String
context_timeframes = mid_timeframes ++ long_timeframes

abbrev pub monitored_timeframes : List String
monitored_timeframes = short_timeframe ∷ mid_timeframe ∷ []

abbrev pub default_gprops : List String
default_gprops = default_gprop ∷ []

-- `if value in available and value not in selected: selected.append(value)`
unfoldable pub add_item : List String → List String → String → List String
add_item available selected value =
    if contains value available && not (contains value selected)
    then selected ++ value ∷ []
    else selected

-- The loop that `parse_timeframes` and `parse_gprops` share.
unfoldable pub collect_items : List String → List String → List String → List String
unfolding add_item
collect_items available [] selected = selected
collect_items available (item ∷ rest) selected =
    collect_items available rest (add_item available selected (strip item))

-- `tuple(selected) or default`
abbrev pub or_default : List String → List String → List String
or_default selected default_items = if is_empty selected then default_items else selected

unfoldable pub parse_timeframes : Option String → List String
unfolding collect_items
parse_timeframes none = monitored_timeframes
parse_timeframes (some value) =
    if is_blank value
    then monitored_timeframes
    else or_default (collect_items available_timeframes (split value) []) monitored_timeframes

unfoldable pub serialize_timeframes : List String → String
unfolding remove_duplicates
serialize_timeframes timeframes = join (
    remove_duplicates (
      or_default (select (λ item. contains item available_timeframes) timeframes)
        monitored_timeframes))

unfoldable pub parse_gprops : Option String → List String
unfolding collect_items
parse_gprops none = default_gprops
parse_gprops (some value) =
    or_default (collect_items available_gprops (split value) []) default_gprops

unfoldable pub serialize_gprops : List String → String
unfolding remove_duplicates
serialize_gprops gprops = join (
    remove_duplicates
      (or_default (select (λ item. contains item available_gprops) gprops) default_gprops))

-- One point of a provider's answer; the date is already in the text form of `as_record`.
pub record TrendPoint : Type 0 where
  pub date : String
  pub value : ℕ
  pub is_partial : Bool
