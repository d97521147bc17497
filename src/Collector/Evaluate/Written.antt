-- ===== src/Collector/Evaluate/Written.antt =====
-- googletrends_app/collector.py, evaluate_alerts: the rows that the loop over the candidates writes.
use googletrends.Base.{
  ℕ, ◌+◌, ◌≡◌, String, Bool, true, false, List, [], ◌∷◌, length, Bool-cases, inl, inr,
  if◌then◌else◌, arith,
}
use mathlib.Core.Path.{subst}
use googletrends.Database.{Db, Result, ok, raise}
use googletrends.Database.Pairwise.{Pairwise}
use googletrends.Repository.Alerts.{insert_alert}
use googletrends.Repository.Alerts.Unique.{
  DifferentAlert, insert_alert-Different, grown, insert_alert-length,
}
use googletrends.Collector.Radar.{AlertDecision}
use googletrends.Collector.Evaluate.{
  Cooldown, proceed, alert_row, cons_result, create_alerts, is_alert_in_cooldown, later,
}

module _ {R : Type 0} where
  -- The table has grown by the reported alerts, if there is a report, and repeats none.
  abbrev pub IsWritten : ℕ → Result (List (AlertDecision R)) × Db R → Type 0
  IsWritten n (ok as', db) = (length db.alerts ≡ n + length as') × Pairwise DifferentAlert db.alerts
  IsWritten n (raise e, db) = Pairwise DifferentAlert db.alerts

  consed :
      (n : ℕ) (a : AlertDecision R) (r : Result (List (AlertDecision R)) × Db R)
      → IsWritten (n + 1) r
      → IsWritten n (cons_result a r)
  consed n a (ok as', db) h = (omega (arith, h.0), h.1)
  consed n a (raise e, db) h = h

  proceeded :
      (n : ℕ) (a : AlertDecision R) (continued : Result (List (AlertDecision R)) × Db R)
      (r : Result Bool × Db R)
      → Pairwise DifferentAlert r.1.alerts
      → IsWritten (n + grown r.0) continued
      → IsWritten n (proceed a continued r)
  proceeded n a continued (raise e, db) u h = u
  proceeded n a continued (ok true, db) u h = consed n a continued h
  proceeded n a continued (ok false, db) u h = let e : n + 0 ≡ n = omega arith in rw e at h

  -- From a table in which no two alerts agree in keyword, rule and date, the loop over the
  -- candidates keeps the alerts so, also where it raises, and one that does not raise has written
  -- exactly as many rows as it reports.
  pub create_alerts-IsWritten :
      (db : Db R) (clock : ℕ → ℕ) (k : ℕ) (gprop : String) (c : Cooldown)
      (as' : List (AlertDecision R))
      → Pairwise DifferentAlert db.alerts
      → IsWritten (length db.alerts) (create_alerts db clock k gprop c as')
  unfolding create_alerts
  create_alerts-IsWritten db clock k gprop c [] u = (omega arith, u)
  create_alerts-IsWritten db clock k gprop c (a ∷ rest) u =
      elim (Bool-cases (is_alert_in_cooldown db (clock 0) k a gprop c)) [
        | inl skip ↦
            rw (skip, if◌then◌else◌) (create_alerts-IsWritten db (later clock 2) k gprop c rest u)
        | inr go ↦
            let r = insert_alert db (clock 1) (alert_row k gprop a) in
            let u' = insert_alert-Different db (clock 1) (alert_row k gprop a) u in
            let grow = insert_alert-length db (clock 1) (alert_row k gprop a) in
            rw (go, if◌then◌else◌)
              (proceeded (length db.alerts) a (create_alerts r.1 (later clock 2) k gprop c rest) r
                u'
                (subst (λ n. IsWritten n (create_alerts r.1 (later clock 2) k gprop c rest)) grow
                  (create_alerts-IsWritten r.1 (later clock 2) k gprop c rest u')))
      ]
