-- ===== src/Tests/Pages.antt =====
-- Charts, previews, reports and the tables of a file.
use googletrends.Base.{ℕ, ◌≡◌, refl, String, false, some, List, [], ◌∷◌, select, map, arith}
use googletrends.Database.{Db, Job, Point}
use googletrends.Database.Migrations.{migrations, initialize_tables}
use googletrends.Database.Migrations.Complete.{HasColumns, initialize_tables-HasColumns}
use googletrends.Collector.Floats.{thousandths}
use googletrends.Repository.Jobs.{job_row}
use googletrends.Repository.Reports.{job_newer, has_status, list_jobs}
use googletrends.Repository.Reports.Sorted.{IsTop}
use googletrends.Repository.Reports.Newest.{job_newer-IsOrder, list_jobs-IsTop}
use googletrends.Dates.{Calendar, format_beijing, format_chart_axis_label}
use googletrends.Database.{value_error, ok, raise}
use googletrends.Web.Charts.{Shown, select_tick_indexes, build_chart_with_size}
use googletrends.Web.Charts.Ticks.{IsTickList, select_tick_indexes-IsTickList}
use googletrends.Web.Charts.Drawn.{IsChartOf, build_chart_with_size-IsChartOf}
use googletrends.Web.Pages.{select_preview_points}
use googletrends.Web.Pages.Preview.{IsPreview, select_preview_points-IsPreview}
use googletrends.Tests.Data.{tea, tea_db}

-- The quotients 0, 2.75, 5.5, 8.25 and 11; the half goes to the even neighbour.
twelve_points : select_tick_indexes 12 5 ≡ 0 ∷ 3 ∷ 6 ∷ 8 ∷ 11 ∷ []
unfolding select_tick_indexes
twelve_points = refl

select_tick_indexes-IsTickList_example : IsTickList 12 5 (select_tick_indexes 12 5)
select_tick_indexes-IsTickList_example = select_tick_indexes-IsTickList 12 5 (omega arith)

-- A calendar that knows days only, and shows them as they are written.
abbrev days : Calendar String
days = record {
  day = λ zone text. ok text;
  moment = λ text. raise (value_error "Invalid isoformat string");
  strftime = λ date form. date;
}

abbrev plain : Shown ℕ String
plain = record { float_text = λ x. "x"; calendar = days }

-- A text that is no date is shown as it is, and has no label.
shown_as_it_is : format_beijing days " soon " "now 7-d" ≡ ok "soon"
unfolding format_beijing
shown_as_it_is = refl

without_label :
    format_chart_axis_label days "soon" "now 7-d" ≡ raise (value_error "Invalid isoformat string")
unfolding format_chart_axis_label
without_label = refl

abbrev tea_point : ℕ → String → Point
tea_point id date = record {
  id = id;
  keyword_id = 1;
  point_date = date;
  value = 40;
  is_partial = false;
  geo = "";
  gprop = "";
  timeframe = "now 7-d";
  collected_at = 50;
}

abbrev two_points : List Point
two_points = tea_point 1 "2024-01-01" ∷ tea_point 2 "2024-01-02" ∷ []

build_chart_with_size-IsChartOf_example :
    IsChartOf thousandths plain two_points
      (build_chart_with_size thousandths plain two_points 340 96 10 10)
build_chart_with_size-IsChartOf_example =
    build_chart_with_size-IsChartOf thousandths plain two_points 340 96 10 10

abbrev pointed_db : Db ℕ
pointed_db = record tea_db { points = two_points; next_point = 3 }

select_preview_points-IsPreview_example :
    let r = select_preview_points pointed_db tea in IsPreview tea r.0 r.1
select_preview_points-IsPreview_example = select_preview_points-IsPreview pointed_db tea

list_jobs-IsTop_example :
    (top : List Job) × (list_jobs tea_db 2 (some "queued") ≡ map (job_row tea_db) top)
    × IsTop job_newer job_newer-IsOrder 2 (select (has_status (some "queued")) tea_db.jobs) top
list_jobs-IsTop_example = list_jobs-IsTop tea_db 2 (some "queued")

-- A file of an earlier version.
initialize_tables-HasColumns_example :
    HasColumns
      (initialize_tables
        (("keywords", "id" ∷ "term" ∷ "enabled" ∷ []) ∷ ("related_panels", []) ∷ []))
      migrations
initialize_tables-HasColumns_example =
    initialize_tables-HasColumns
      (("keywords", "id" ∷ "term" ∷ "enabled" ∷ []) ∷ ("related_panels", []) ∷ [])
