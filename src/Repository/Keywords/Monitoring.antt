-- ===== src/Repository/Keywords/Monitoring.antt =====
-- googletrends_app/repository.py, the change of windows: the jobs that it drops.
use googletrends.Base.{
  ℕ, ◌≡◌, refl, String, Bool, true, not, ◌&&◌, some, List, [], ◌∷◌, contains, All, arith,
}
use googletrends.Trends.{available_timeframes, parse_timeframes, serialize_timeframes}
use googletrends.Trends.RoundTrip.{csv_has-serialize_timeframes}
use googletrends.Database.{Db, Job}
use googletrends.Database.Table.{delete_where}
use googletrends.Repository.Jobs.{opt_eq, is_queued, delete_jobs}
use googletrends.Repository.Keywords.{
  dropped_timeframe, write_keyword_timeframes, update_keyword_timeframes,
}

-- The queued jobs of a keyword whose window is not selected.
abbrev pub is_dropped : ℕ → List String → Job → Bool
is_dropped k selected j =
    opt_eq j.keyword_id k && is_queued j.status && not (contains j.timeframe selected)

drops :
    (k : ℕ) (timeframes : List String) (jobs : List Job)
    → All (λ (j : Job). contains j.timeframe available_timeframes ≡ true) jobs
    → delete_where (dropped_timeframe k (serialize_timeframes timeframes)) jobs
      ≡ delete_where (is_dropped k (parse_timeframes (some (serialize_timeframes timeframes)))) jobs
drops k ts [] a = refl
drops k ts (j ∷ jobs) a =
    ground (arith, csv_has-serialize_timeframes ts j.timeframe a.0, drops k ts jobs a.1)

module _ {R : Type 0} where
  -- Where every job has an available window, the change of a keyword's windows drops exactly the
  -- keyword's queued jobs whose window is not among those that the new text is read as.
  pub update_keyword_timeframes-drops :
      (db : Db R) (now k : ℕ) (timeframes : List String)
      → All (λ (j : Job). contains j.timeframe available_timeframes ≡ true) db.jobs
      → (update_keyword_timeframes db now k timeframes).1.jobs
        ≡ delete_where
            (is_dropped k (parse_timeframes (some (serialize_timeframes timeframes))))
            db.jobs
  unfolding update_keyword_timeframes write_keyword_timeframes delete_jobs
  update_keyword_timeframes-drops db now k ts a = drops k ts db.jobs a
