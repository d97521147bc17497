-- ===== src/Repository/Alerts.antt =====
-- googletrends_app/repository.py, the alerts: the insertion that ignores a duplicate, the search
-- for a recent alert of one kind, and the remark.
pub mod Unique
use googletrends.Base.{
  ℕ, ◌+◌, String, Bool, true, false, ◌&&◌, Option, none, some, List, [], ◌∷◌, ◌++◌, leb, nat_eq,
  is_some, any_of, first_where, strip, ◌==◌, if◌then◌else◌,
}
use googletrends.Database.{Db, Alert, Keyword, Error, integrity_error, Result, ok, raise}
use googletrends.Database.Table.{update_where}
use googletrends.Repository.Jobs.{find_keyword}

module _ {R : Type 0} where
  -- `UNIQUE (keyword_id, rule, point_date)`
  abbrev pub is_same_alert : Alert R → Alert R → Bool
  is_same_alert a b =
      nat_eq a.keyword_id b.keyword_id && a.rule == b.rule && a.point_date == b.point_date

  -- `INSERT OR IGNORE` of the row; its key, its remark and `created_at` are the table's to give. The
  -- result tells whether a row was written.
  unfoldable pub insert_alert : Db R → ℕ → Alert R → Result Bool × Db R
  insert_alert db stamp alert =
      if any_of (is_same_alert alert) db.alerts
      then (ok false, db)
      else if is_some (find_keyword db alert.keyword_id)
      then (
        ok true,
        record db {
          alerts =
              db.alerts
              ++ record alert { id = db.next_alert; remark = ""; created_at = stamp } ∷ [];
          next_alert = db.next_alert + 1;
        },
      )
      else (raise (integrity_error "FOREIGN KEY constraint failed"), db)

  abbrev pub is_recent : ℕ → String → String → String → String → ℕ → Alert R → Bool
  is_recent keyword_id severity category timeframe gprop created_after a =
      nat_eq a.keyword_id keyword_id
      && a.severity == severity
      && a.category == category
      && a.timeframe == timeframe
      && a.gprop == gprop
      && leb created_after a.created_at

  unfoldable pub has_recent_alert : Db R → ℕ → String → String → String → String → ℕ → Bool
  has_recent_alert db keyword_id severity category timeframe gprop created_after =
      any_of (is_recent keyword_id severity category timeframe gprop created_after) db.alerts

  -- The inner join of an alert with its keyword's term.
  unfoldable pub get_alert : Db R → ℕ → Option (Alert R × String)
  get_alert db alert_id = elim (first_where (λ a. nat_eq a.id alert_id) db.alerts) [
    | none ↦ none
    | some a ↦ elim (find_keyword db a.keyword_id) [ none ↦ none | some k ↦ some (a, k.term) ]
  ]

  unfoldable pub update_alert_remark : Db R → ℕ → String → Option (Alert R × String) × Db R
  unfolding get_alert
  update_alert_remark db alert_id remark =
      let db' = record db {
        alerts =
            update_where (λ a. nat_eq a.id alert_id) (λ a. record a { remark = strip remark })
              db.alerts;
      } in
      (get_alert db' alert_id, db')
