-- ===== src/Collector/Direct/Runs.antt =====
-- googletrends_app/collector.py, collect_keyword: the run that it adds.
use googletrends.Base.{
  ℕ, ◌+◌, ◌≡◌, refl, sym, ◌∙◌, String, true, Option, none, some, List, [], ◌∷◌, ◌++◌, ltb, nat_eq,
  is_some, All, if◌then◌else◌, arith,
}
use googletrends.Database.{Db, Keyword, Run, Error, success, failed, Result, ok, raise}
use googletrends.Database.Table.{update_where}
use googletrends.Repository.Jobs.{find_keyword}
use googletrends.Repository.Keywords.{get_keyword}
use googletrends.Repository.Runs.{new_run, create_run, finish_run}
use googletrends.Collector.Floats.{Floats}
use googletrends.Collector.Radar.{AlertDecision}
use googletrends.Collector.Process.{
  Clock, Collected, Reply, points, failure, error_text, store_points, after_points,
}
use googletrends.Collector.Process.Untouched.{store_points-kept, after_points-kept}
use googletrends.Collector.Due.{Provider}
use googletrends.Collector.Direct.{
  Collection, collected, uncollected, RunClock, default_cooldown, finish_failed, finish_succeeded,
  finish_collected, collect_reply, on_keyword, collect_keyword,
}

-- The row of a run that has ended as a collection says.
abbrev pub ended_run : Clock → Run → Collection → Run
ended_run clock run (collected count alerts) = record run {
  status = success;
  finished_at = some (clock.success 0);
  points_collected = count;
  error = none;
}
ended_run clock run (uncollected message) = record run {
  status = failed;
  finished_at = some (clock.ending 0);
  points_collected = 0;
  error = some message;
}

-- A success is one that SQLite takes.
abbrev pub IsTaken : Clock → Collection → Type 0
IsTaken clock (collected count alerts) = clock.success_fault ≡ none
IsTaken clock (uncollected message) = Unit

-- An update of the last row, by its key.
update_last :
    (f : Run → Run) (runs : List Run) (new : Run) (next : ℕ)
    → new.id ≡ next
    → All (λ (r : Run). ltb r.id next ≡ true) runs
    → update_where (λ (r : Run). nat_eq r.id next) f (runs ++ new ∷ []) ≡ runs ++ f new ∷ []
update_last f [] new next e h = ground arith
update_last f (r ∷ runs) new next e h = ground (arith, update_last f runs new next e h.1)

module _ {R : Type 0} where
  -- What a collection has made of the runs: its own has ended, or is left as it began.
  abbrev pub AddsRun : Clock → List Run → Run → Result Collection × Db R → Type 0
  AddsRun clock runs run (ok c, db) =
      (db.runs ≡ runs ++ ended_run clock run c ∷ []) × IsTaken clock c
  AddsRun clock runs run (raise e, db) = (db.runs ≡ runs ++ run ∷ []) × (clock.last_fault ≡ some e)

  failed-AddsRun :
      (clock : Clock) (db : Db R) (runs : List Run) (run : Run) (message : String)
      (fault : Option Error)
      → fault ≡ clock.last_fault
      → db.runs ≡ runs ++ run ∷ []
      → All (λ (r : Run). ltb r.id run.id ≡ true) runs
      → AddsRun clock runs run (finish_failed fault (clock.ending 0) run.id db message)
  unfolding finish_run
  failed-AddsRun clock db runs run message none f e h =
      (rw e (update_last (λ r. ended_run clock r (uncollected message)) runs run run.id refl h), tt)
  failed-AddsRun clock db runs run message (some x) f e h = (e, sym f)

  succeeded-AddsRun :
      (clock : Clock) (db : Db R) (runs : List Run) (run : Run) (count : ℕ)
      (alerts : List (AlertDecision R)) (fault : Option Error)
      → fault ≡ clock.success_fault
      → db.runs ≡ runs ++ run ∷ []
      → All (λ (r : Run). ltb r.id run.id ≡ true) runs
      → AddsRun clock runs run (finish_succeeded clock run.id count alerts db fault)
  unfolding finish_run
  succeeded-AddsRun clock db runs run count alerts none f e h = (
    rw e (update_last (λ r. ended_run clock r (collected count 0)) runs run run.id refl h),
    sym f,
  )
  succeeded-AddsRun clock db runs run count alerts (some x) f e h =
      failed-AddsRun clock db runs run (error_text x) clock.last_fault refl e h

  collected-AddsRun :
      (clock : Clock) (c : Collected R) (runs : List Run) (run : Run)
      → c.1.runs ≡ runs ++ run ∷ []
      → All (λ (r : Run). ltb r.id run.id ≡ true) runs
      → AddsRun clock runs run (finish_collected clock run.id c)
  collected-AddsRun clock (ok (count, alerts), db) runs run e h =
      succeeded-AddsRun clock db runs run count alerts clock.success_fault refl e h
  collected-AddsRun clock (raise x, db) runs run e h =
      failed-AddsRun clock db runs run (error_text x) clock.last_fault refl e h

module _ {P R : Type 0} (provider : Provider P) (F : Floats R) (timeframe geo : String) where
  reply-AddsRun :
      (clock : Clock) (keyword_id : ℕ) (gprop : String) (db : Db R) (runs : List Run) (run : Run)
      (reply : Reply)
      → db.runs ≡ runs ++ run ∷ []
      → All (λ (r : Run). ltb r.id run.id ≡ true) runs
      → AddsRun clock runs run
          (collect_reply provider F timeframe geo clock keyword_id gprop run.id db reply)
  unfolding collect_reply
  reply-AddsRun clock keyword_id gprop db runs run (failure message) e h =
      failed-AddsRun clock db runs run message clock.last_fault refl e h
  reply-AddsRun clock keyword_id gprop db runs run (points ps) e h =
      collected-AddsRun clock
        (after_points F clock.during (some keyword_id) timeframe gprop default_cooldown
          (store_points db (some keyword_id) ps geo gprop timeframe (clock.during 0)))
        runs run
        (after_points-kept (λ (d : Db R). d.runs) (λ d as' n. refl) F clock.during (some keyword_id)
            timeframe gprop default_cooldown _
          ∙ store_points-kept (λ (d : Db R). d.runs) (λ d ps n. refl) db (some keyword_id) ps geo
              gprop timeframe (clock.during 0)
          ∙ e)
        h

  -- The result of a collection, for the run that it has added.
  abbrev pub EndsRun : RunClock → List Run → Run → Result Collection × P × Db R → Type 0
  EndsRun clock runs run (ok c, p, db) = AddsRun clock.rest runs run (ok c, db)
  EndsRun clock runs run (raise e, p, db) = AddsRun clock.rest runs run (raise e, db)

  AddsRun-EndsRun :
      (clock : RunClock) (runs : List Run) (run : Run) (p : P) (r : Result Collection × Db R)
      → AddsRun clock.rest runs run r
      → EndsRun clock runs run (r.0, p, r.1)
  AddsRun-EndsRun clock runs run p (ok c, db) h = h
  AddsRun-EndsRun clock runs run p (raise e, db) h = h

  -- Whatever the provider answers, and whichever constraint the stored rows break, the collection
  -- of a known keyword without a job adds one run, over runs whose keys lie below the next one,
  -- and leaves the other runs as they were. Where it returns, the run has ended, as a failure with
  -- the error or as a success with the number of points, the latter only if SQLite takes the
  -- statement that says so. It raises only if SQLite refuses the statement that ends a run as
  -- failed, and then the run is left running.
  pub collect_keyword-EndsRun :
      (clock : RunClock) (p : P) (db : Db R) (keyword_id : ℕ) (gprop : String)
      → All (λ (r : Run). ltb r.id db.next_run ≡ true) db.runs
      → is_some (find_keyword db keyword_id) ≡ true
      → EndsRun clock db.runs
          (new_run db.next_run keyword_id clock.started)
          (collect_keyword provider F timeframe geo clock p db keyword_id gprop)
  unfolding collect_keyword get_keyword create_run
  collect_keyword-EndsRun clock p db keyword_id gprop h known =
      go (find_keyword db keyword_id) known
    where
      run : Run
      run = new_run db.next_run keyword_id clock.started

      go :
          (o : Option Keyword)
          → is_some o ≡ true
          → EndsRun clock db.runs
              (new_run db.next_run keyword_id clock.started)
              (on_keyword provider F timeframe geo clock p db keyword_id gprop o)
      go none t = cc
      go (some k) t =
          let asked = provider.collect p k.term timeframe geo gprop in
          let db' = record db { runs = db.runs ++ run ∷ []; next_run = db.next_run + 1 } in
          rw (known, if◌then◌else◌)
            (AddsRun-EndsRun clock db.runs run asked.0
              (collect_reply provider F timeframe geo clock.rest keyword_id gprop run.id db'
                asked.1)
              (reply-AddsRun clock.rest keyword_id gprop db' db.runs run asked.1 refl h))
