-- ===== src/Web/Pages.antt =====
-- googletrends_app/main.py, what the pages show: which window and which points. The templates are not
-- part of it.
pub mod Preview
use googletrends.Base.{
  ℕ, String, Bool, true, false, not, Option, none, some, List, [], ◌∷◌, select, contains, any_of,
  nat_eq, is_empty, if◌then◌else◌,
}
use googletrends.Trends.{available_timeframes, monitored_timeframes, short_timeframe}
use googletrends.Database.{Db, Keyword, Point}
use googletrends.Repository.Keywords.{keyword_timeframes, keyword_gprops, keyword_gprop, head_or}
use googletrends.Repository.Points.{list_trend_points}

abbrev pub or_windows : List String → List String → List String
or_windows [] windows = windows
or_windows (x ∷ xs) windows = x ∷ xs

-- The window of the preview: the first available one that the keyword has.
unfoldable pub preview_timeframe : Keyword → String
preview_timeframe keyword = head_or short_timeframe (
    or_windows (select (λ t. contains t (keyword_timeframes keyword)) available_timeframes)
      monitored_timeframes)

module _ {R : Type 0} where
  unfoldable pub select_preview_points : Db R → Keyword → String × List Point
  unfolding preview_timeframe
  select_preview_points db keyword =
      let timeframe = preview_timeframe keyword in
      (
        timeframe,
        list_trend_points db keyword.id (some 80) (some timeframe) (some (keyword_gprop keyword)),
      )

-- `timeframe if timeframe in AVAILABLE_TIMEFRAMES else SHORT_TIMEFRAME`
unfoldable pub viewed_timeframe : String → String
viewed_timeframe timeframe =
    if contains timeframe available_timeframes then timeframe else short_timeframe

-- `gprop if gprop in selected_gprops else selected_gprops[0]`
unfoldable pub viewed_gprop : Keyword → Option String → String
viewed_gprop keyword none = keyword_gprop keyword
viewed_gprop keyword (some gprop) =
    if contains gprop (keyword_gprops keyword) then gprop else keyword_gprop keyword

-- The keyword of the page of the backtest: the given one, which must exist, or the first of the list.
pub data Selected : Type 0 where
  chosen : ℕ → Selected
  nothing unknown : Selected

abbrev pub first_keyword : List Keyword → Selected
first_keyword [] = nothing
first_keyword (k ∷ ks) = chosen k.id

unfoldable pub backtest_keyword : List Keyword → Option ℕ → Selected
backtest_keyword keywords none = first_keyword keywords
backtest_keyword keywords (some id) =
    if any_of (λ k. nat_eq k.id id) keywords then chosen id else unknown
