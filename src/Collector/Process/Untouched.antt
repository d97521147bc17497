-- ===== src/Collector/Process/Untouched.antt =====
-- googletrends_app/collector.py, the collection of points and alerts: the parts of the database that
-- do not depend on points and alerts.
use googletrends.Base.{
  ℕ, ◌+◌, ◌≡◌, refl, ap, ◌∙◌, String, Bool, true, false, Option, none, some, List, [], ◌∷◌, any_of,
  is_some, Bool-cases, inl, inr, if◌then◌else◌,
}
use googletrends.Trends.{TrendPoint}
use googletrends.Database.{Db, Point, Alert, Result, ok, raise}
use googletrends.Repository.Jobs.{find_keyword}
use googletrends.Repository.Points.{
  Series, has_key, upsert_point, upsert_from, upsert_next, upsert_trend_points,
}
use googletrends.Repository.Alerts.{insert_alert, is_same_alert}
use googletrends.Collector.Floats.{Floats}
use googletrends.Collector.Radar.{AlertDecision}
use googletrends.Collector.Evaluate.{
  Cooldown, create_alerts, evaluate_alerts, alert_row, cons_result, later, proceed,
  is_alert_in_cooldown,
}
use googletrends.Collector.Process.{store_points, job_alerts, after_points, with_alerts}

module _ {R X : Type 0} (part : Db R → X)
    (ignores : (db : Db R) (ps : List Point) (n : ℕ)
      → part (record db { points = ps; next_point = n }) ≡ part db) where
  upsert_point-kept :
      (db : Db R) (s : Series) (at : ℕ) (p : TrendPoint) → part (upsert_point db s at p).1 ≡ part db
  unfolding upsert_point
  upsert_point-kept db s at p = elim (Bool-cases (any_of (has_key s p.date) db.points)) [
    | inl old ↦ rw (old, upsert_point, if◌then◌else◌) (ignores db _ db.next_point)
    | inr new ↦ elim (Bool-cases (is_some (find_keyword db s.keyword_id))) [
      | inl k ↦ rw (new, upsert_point, if◌then◌else◌) (rw (k, if◌then◌else◌) (ignores db _ _))
      | inr k ↦ rw (new, upsert_point, if◌then◌else◌) (rw (k, if◌then◌else◌) refl)
    ]
  ]

  next-kept :
      (x : X) (later : Result ℕ × Db R) (r : Result Unit × Db R)
      → part r.1 ≡ x
      → part later.1 ≡ part r.1
      → part (upsert_next later r).1 ≡ x
  next-kept x later (ok u, d) h k = k ∙ h
  next-kept x later (raise e, d) h k = h

  upsert_from-kept :
      (db : Db R) (s : Series) (at n : ℕ) (ps : List TrendPoint)
      → part (upsert_from db s at n ps).1 ≡ part db
  unfolding upsert_from
  upsert_from-kept db s at n [] = refl
  upsert_from-kept db s at n (p ∷ ps) =
      next-kept (part db) _ (upsert_point db s at p) (upsert_point-kept db s at p)
        (upsert_from-kept (upsert_point db s at p).1 s at (n + 1) ps)

  pub store_points-kept :
      (db : Db R) (k : Option ℕ) (ps : List TrendPoint) (geo gprop timeframe : String) (at : ℕ)
      → part (store_points db k ps geo gprop timeframe at).1 ≡ part db
  unfolding store_points upsert_trend_points
  store_points-kept db none [] geo gprop timeframe at = refl
  store_points-kept db none (p ∷ ps) geo gprop timeframe at = refl
  store_points-kept db (some k) ps geo gprop timeframe at = upsert_from-kept db _ at 0 ps

module _ {R X : Type 0} (part : Db R → X)
    (ignores : (db : Db R) (as' : List (Alert R)) (n : ℕ)
      → part (record db { alerts = as'; next_alert = n }) ≡ part db) where
  insert_alert-kept :
      (db : Db R) (stamp : ℕ) (a : Alert R) → part (insert_alert db stamp a).1 ≡ part db
  unfolding insert_alert
  insert_alert-kept db stamp a = elim (Bool-cases (any_of (is_same_alert a) db.alerts)) [
    | inl old ↦ rw (old, insert_alert, if◌then◌else◌) refl
    | inr new ↦ elim (Bool-cases (is_some (find_keyword db a.keyword_id))) [
      | inl k ↦ rw (new, insert_alert, if◌then◌else◌) (rw (k, if◌then◌else◌) (ignores db _ _))
      | inr k ↦ rw (new, insert_alert, if◌then◌else◌) (rw (k, if◌then◌else◌) refl)
    ]
  ]

  cons-kept :
      (a : AlertDecision R) (r : Result (List (AlertDecision R)) × Db R)
      → part (cons_result a r).1 ≡ part r.1
  cons-kept a (ok as', d) = refl
  cons-kept a (raise e, d) = refl

  proceed-kept :
      (x : X) (a : AlertDecision R) (continued : Result (List (AlertDecision R)) × Db R)
      (r : Result Bool × Db R)
      → part r.1 ≡ x
      → part continued.1 ≡ part r.1
      → part (proceed a continued r).1 ≡ x
  proceed-kept x a continued (raise e, d) h k = h
  proceed-kept x a continued (ok true, d) h k = cons-kept a continued ∙ k ∙ h
  proceed-kept x a continued (ok false, d) h k = k ∙ h

  create_alerts-kept :
      (db : Db R) (clock : ℕ → ℕ) (k : ℕ) (gprop : String) (c : Cooldown)
      (as' : List (AlertDecision R))
      → part (create_alerts db clock k gprop c as').1 ≡ part db
  unfolding create_alerts
  create_alerts-kept db clock k gprop c [] = refl
  create_alerts-kept db clock k gprop c (a ∷ rest) =
      elim (Bool-cases (is_alert_in_cooldown db (clock 0) k a gprop c)) [
        | inl skip ↦ rw (skip, if◌then◌else◌) (create_alerts-kept db (later clock 2) k gprop c rest)
        | inr go ↦
            let r = insert_alert db (clock 1) (alert_row k gprop a) in
            rw (go, if◌then◌else◌)
              (proceed-kept (part db) a _ r (insert_alert-kept db (clock 1) (alert_row k gprop a))
                (create_alerts-kept r.1 (later clock 2) k gprop c rest))
      ]

  job_alerts-kept :
      (F : Floats R) (db : Db R) (clock : ℕ → ℕ) (k : Option ℕ) (timeframe gprop : String)
      (c : Cooldown)
      → part (job_alerts F db clock k timeframe gprop c).1 ≡ part db
  unfolding job_alerts evaluate_alerts
  job_alerts-kept F db clock none timeframe gprop c = refl
  job_alerts-kept F db clock (some k) timeframe gprop c = create_alerts-kept db clock k gprop c _

  with_alerts-kept :
      (n : ℕ) (r : Result (List (AlertDecision R)) × Db R) → (with_alerts n r).1 ≡ r.1
  with_alerts-kept n (ok as', d) = refl
  with_alerts-kept n (raise e, d) = refl

  pub after_points-kept :
      (F : Floats R) (clock : ℕ → ℕ) (k : Option ℕ) (timeframe gprop : String) (c : Cooldown)
      (r : Result ℕ × Db R)
      → part (after_points F clock k timeframe gprop c r).1 ≡ part r.1
  after_points-kept F clock k timeframe gprop c (raise e, d) = refl
  after_points-kept F clock k timeframe gprop c (ok n, d) =
      ap part (with_alerts-kept n (job_alerts F d (later clock 1) k timeframe gprop c))
      ∙ job_alerts-kept F d (later clock 1) k timeframe gprop c
