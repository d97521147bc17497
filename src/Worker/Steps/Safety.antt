-- ===== src/Worker/Steps/Safety.antt =====
-- googletrends_app/worker.py with googletrends_app/main.py: what every order of requests, scheduled
-- jobs and steps of the worker's thread keeps.
use googletrends.Base.{ℕ, ◌≡◌, refl, Bool, true, false, not}
use googletrends.Database.{Db}
use googletrends.Repository.Jobs.Table.{JobsOk}
use googletrends.Collector.Floats.{Floats}
use googletrends.Collector.Process.{Config, process_collection_job}
use googletrends.Collector.Process.Table.{process_collection_job-JobsOk}
use googletrends.Collector.Enqueue.Invariant.{create_collection_jobs_for_enabled-Harmless}
use googletrends.Worker.{start_worker}
use googletrends.Web.Bulk.{Digits}
use googletrends.Web.Routes.Invariant.{handle-Harmless}
use googletrends.Web.Routes.Held.{handle_held}
use googletrends.Worker.Steps.{
  is_running, System, startup, Step, request, scheduled, ticked, repaired, claims, handles,
  ended_by, Reach, start, next,
}
use googletrends.Worker.Steps.Sound.{
  IsSound, IsBusy-Harmless, served-IsSound, claimed-IsSound, repaired-IsSound, handled-IsSound,
  tick-IsSound, startup-IsSound,
}

module _ {R : Type 0} (F : Floats R) (config : Config) (d : Digits) (max_attempts : ℕ) where
  Step-IsSound : {s s' : System R} → Step F config d max_attempts s s' → IsSound s → IsSound s'
  Step-IsSound {s} (request clock post) i =
      served-IsSound s _ (handle-Harmless d max_attempts clock s.server post)
        (handle_held d max_attempts clock s.server post) i
  Step-IsSound {s} (scheduled clock req timeframes) i =
      let h = create_collection_jobs_for_enabled-Harmless s.server.db clock req timeframes in
      record {
        jobs = h.keeps_JobsOk i.jobs;
        lock = i.lock;
        busy = IsBusy-Harmless s.phase s.server.db _ h i.busy;
      }
  Step-IsSound {s} ticked i = tick-IsSound s i
  Step-IsSound {s} (repaired before stamp p) i = repaired-IsSound s before stamp i p
  Step-IsSound {s} (claims now stamp p) i = claimed-IsSound s now stamp i p
  Step-IsSound {s} (handles row clock trace reply p) i =
      handled-IsSound s row (process_collection_job F config s.server.db clock row trace reply)
        (process_collection_job-JobsOk F config s.server.db clock row trace reply (rw p at i.busy)
          i.jobs)
        p i
  Step-IsSound {s} (ended_by p) i = record { jobs = i.jobs; lock = refl; busy = tt }

  Reach-IsSound : {s s' : System R} → Reach F config d max_attempts s s' → IsSound s → IsSound s'
  Reach-IsSound start i = i
  Reach-IsSound (next r t) i = Step-IsSound t (Reach-IsSound r i)

  start_free : (held running : Bool) → held ≡ running → (start_worker held).0 ≡ not running
  unfolding start_worker
  start_free held true e = rw e refl
  start_free held false e = rw e refl

  -- Let the application start on a job table in which job keys are unique and below the next key,
  -- and no keyword, window, region and search property has two active jobs. However requests,
  -- scheduled jobs and the steps of the worker's thread follow each other, also where the thread
  -- ends by an exception, the job table stays so, the lock is held exactly while there is a
  -- thread, all rows of the key of a job that is being handled are active, and a call of
  -- start_worker starts a thread exactly if there is none.
  pub Reach-exclusive :
      (db : Db R) (stale_before stamp : ℕ) {s : System R}
      → JobsOk db
      → Reach F config d max_attempts (startup db stale_before stamp) s
      → IsSound s × ((start_worker s.server.worker_held).0 ≡ not (is_running s.phase))
  Reach-exclusive db before stamp {s} t r =
      let i = Reach-IsSound r (startup-IsSound db before stamp t) in
      (i, start_free s.server.worker_held (is_running s.phase) i.lock)
