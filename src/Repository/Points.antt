-- ===== src/Repository/Points.antt =====
-- googletrends_app/repository.py, the trend points: one row for each keyword, date, region, search
-- property and window, which a later collection overwrites.
pub mod Upsert
pub mod Stored
use googletrends.Base.{
  ℕ, ◌+◌, String, Bool, ◌&&◌, Option, none, some, List, [], ◌∷◌, ◌++◌, nat_eq, is_some, select,
  any_of, take, text_le, ◌==◌, if◌then◌else◌,
}
use googletrends.Trends.{TrendPoint}
use googletrends.Database.{Db, Point, Error, integrity_error, Result, ok, raise}
use googletrends.Database.Table.{update_where}
use googletrends.Repository.Jobs.{find_keyword}

-- The columns of the unique key, beside the date.
pub record Series : Type 0 where
  pub keyword_id : ℕ
  pub geo : String
  pub gprop : String
  pub timeframe : String

abbrev pub in_series : Series → Point → Bool
in_series s p =
    nat_eq p.keyword_id s.keyword_id
    && p.geo == s.geo
    && p.gprop == s.gprop
    && p.timeframe == s.timeframe

-- The conflict of `ON CONFLICT(keyword_id, point_date, geo, gprop, timeframe)`.
abbrev pub has_key : Series → String → Point → Bool
has_key s date p = p.point_date == date && in_series s p

abbrev pub new_point : ℕ → Series → ℕ → TrendPoint → Point
new_point id s collected_at point = record {
  id = id;
  keyword_id = s.keyword_id;
  point_date = point.date;
  value = point.value;
  is_partial = point.is_partial;
  geo = s.geo;
  gprop = s.gprop;
  timeframe = s.timeframe;
  collected_at = collected_at;
}

-- `DO UPDATE SET value, is_partial, collected_at`
abbrev pub overwrite : ℕ → TrendPoint → Point → Point
overwrite collected_at point p = record p {
  value = point.value;
  is_partial = point.is_partial;
  collected_at = collected_at;
}

abbrev pub insert_by_date : (Point → Point → Bool) → Point → List Point → List Point
insert_by_date le p [] = p ∷ []
insert_by_date le p (q ∷ qs) = if le p q then p ∷ q ∷ qs else q ∷ insert_by_date le p qs

-- `ORDER BY`; rows of one date stay in the order of their keys.
unfoldable pub sort_points : (Point → Point → Bool) → List Point → List Point
sort_points le [] = []
sort_points le (p ∷ ps) = insert_by_date le p (sort_points le ps)

abbrev pub date_le : Point → Point → Bool
date_le p q = text_le p.point_date q.point_date

abbrev pub date_ge : Point → Point → Bool
date_ge p q = text_le q.point_date p.point_date

-- `AND column = ?`, left out where the argument is None
abbrev pub matches : Option String → String → Bool
matches none s = Bool.true
matches (some t) s = s == t

module _ {R : Type 0} where
  unfoldable pub upsert_point : Db R → Series → ℕ → TrendPoint → Result Unit × Db R
  upsert_point db s collected_at point =
      if any_of (has_key s point.date) db.points
      then (
        ok tt,
        record db {
          points = update_where (has_key s point.date) (overwrite collected_at point) db.points;
        },
      )
      else if is_some (find_keyword db s.keyword_id)
      then (
        ok tt,
        record db {
          points = db.points ++ new_point db.next_point s collected_at point ∷ [];
          next_point = db.next_point + 1;
        },
      )
      else (raise (integrity_error "FOREIGN KEY constraint failed"), db)

  -- What the loop does after a statement: it goes on, or the exception leaves it.
  abbrev pub upsert_next : Result ℕ × Db R → Result Unit × Db R → Result ℕ × Db R
  upsert_next later (ok _, db) = later
  upsert_next later (raise e, db) = (raise e, db)

  -- The loop over the points; `count` is the number written so far.
  unfoldable pub upsert_from : Db R → Series → ℕ → ℕ → List TrendPoint → Result ℕ × Db R
  upsert_from db s collected_at count [] = (ok count, db)
  upsert_from db s collected_at count (point ∷ rest) =
      let r = upsert_point db s collected_at point in
      upsert_next (upsert_from r.1 s collected_at (count + 1) rest) r

  unfoldable pub upsert_trend_points :
      Db R → ℕ → List TrendPoint → String → String → String → ℕ → Result ℕ × Db R
  upsert_trend_points db keyword_id points geo gprop timeframe collected_at =
      let s : Series = record {
        keyword_id = keyword_id;
        geo = geo;
        gprop = gprop;
        timeframe = timeframe;
      } in
      upsert_from db s collected_at 0 points

  abbrev pub listed : Db R → ℕ → Option String → Option String → List Point
  listed db keyword_id timeframe gprop =
      select
        (λ p.
          nat_eq p.keyword_id keyword_id && matches timeframe p.timeframe && matches gprop p.gprop)
        db.points

  unfoldable pub list_trend_points :
      Db R → ℕ → Option ℕ → Option String → Option String → List Point
  unfolding sort_points
  list_trend_points db keyword_id none timeframe gprop =
      sort_points date_le (listed db keyword_id timeframe gprop)
  list_trend_points db keyword_id (some limit) timeframe gprop =
      sort_points date_le (take limit (sort_points date_ge (listed db keyword_id timeframe gprop)))
