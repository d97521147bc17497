-- ===== src/Repository/Reports/Newest.antt =====
-- googletrends_app/repository.py, list_jobs and list_alerts: the newest rows.
use googletrends.Base.{ℕ, ◌≡◌, refl, String, Option, List, select, map, take, arith}
use googletrends.Database.{Db, Job}
use googletrends.Database.Table.{IsOrder}
use googletrends.Repository.Jobs.{job_row}
use googletrends.Repository.Reports.{
  sorted_rows, job_newer, has_status, list_jobs, alert_newer, joined_alerts, list_alerts,
}
use googletrends.Repository.Reports.Sorted.{IsTop, take-sorted_rows-IsTop}

pub job_newer-IsOrder : IsOrder job_newer
job_newer-IsOrder = record {
  irrefl = λ x. ground arith;
  asym = λ x y h. ground arith;
  cotrans = λ x y z h. ground arith;
}

module _ {R : Type 0} where
  alert_newer-IsOrder : IsOrder (alert_newer {R = R})
  alert_newer-IsOrder = record {
    irrefl = λ x. ground arith;
    asym = λ x y h. ground arith;
    cotrans = λ x y z h. ground arith;
  }

  -- The list of jobs is made of rows of the table that have the asked status, in the order of
  -- their creation and key with the newest first, and at most as many as the limit; a row with the
  -- status that is left out comes before none of the listed ones, which are then as many as the
  -- limit.
  pub list_jobs-IsTop :
      (db : Db R) (limit : ℕ) (status : Option String)
      → (top : List Job) × (list_jobs db limit status ≡ map (job_row db) top)
        × IsTop job_newer job_newer-IsOrder limit (select (has_status status) db.jobs) top
  unfolding list_jobs
  list_jobs-IsTop db limit status = (
    take limit (sorted_rows job_newer (select (has_status status) db.jobs)),
    refl,
    take-sorted_rows-IsTop job_newer job_newer-IsOrder limit (select (has_status status) db.jobs),
  )

  list_alerts-IsTop :
      (db : Db R) (limit : ℕ)
      → IsTop alert_newer alert_newer-IsOrder limit
          (joined_alerts db db.alerts)
          (list_alerts db limit)
  unfolding list_alerts
  list_alerts-IsTop db limit =
      take-sorted_rows-IsTop alert_newer alert_newer-IsOrder limit (joined_alerts db db.alerts)
