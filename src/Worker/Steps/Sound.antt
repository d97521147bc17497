-- ===== src/Worker/Steps/Sound.antt =====
-- googletrends_app/worker.py with googletrends_app/main.py: the invariant of the whole application,
-- and that the steps of the worker keep it.
use googletrends.Base.{
  ℕ, ◌≡◌, refl, ◌∙◌, Bool, true, false, ◌&&◌, ◌⊎◌, some, List, [], ◌∷◌, nat_eq, nat_eq_refl, In,
  Bool-cases, inl, inr, if◌then◌else◌,
}
use googletrends.Database.{Db, Job, Result, ok, raise}
use googletrends.Database.Table.{In-update_where}
use googletrends.Database.Pairwise.{UniqueIds, Pairwise, All-map_of}
use googletrends.Repository.Jobs.{
  JobRow, is_active, is_queued, start_job, job_row, claim_next_collection_job,
}
use googletrends.Repository.Jobs.Table.{JobsOk, Apart}
use googletrends.Repository.Jobs.Claim.{
  Claimed, idle, taken, start_in, claim_next_collection_job_lem, queued_of_claimable,
}
use googletrends.Repository.Jobs.Kept.{IsActiveJob}
use googletrends.Repository.Jobs.Harmless.{
  Harmless, same-Harmless, then-Harmless, claim-Harmless, stale-Harmless, unmonitored-Harmless,
}
use googletrends.Collector.Process.{Outcome, Message}
use googletrends.Collector.Due.{repair}
use googletrends.Collector.Due.Weights.{same_row}
use googletrends.Web.{Server}
use googletrends.Web.Routes.Held.{start_worker-held}
use googletrends.Worker.Steps.{
  Phase, stopped, starting, looping, handling, is_running, System, handled, begun, served, with_db,
  tick, claimed, startup,
}

UniqueIds-JobsOk : (jobs : List Job) → Pairwise Apart jobs → UniqueIds (λ (j : Job). j.id) jobs
UniqueIds-JobsOk [] a = tt
UniqueIds-JobsOk (j ∷ js) a = (
  All-map_of (Apart j) (λ (k : Job). nat_eq j.id k.id ≡ false) js (λ k h. h.0) a.0,
  UniqueIds-JobsOk js a.1,
)

-- A lock that is held exactly while there is a thread.
begun_lock :
    (before after : Bool) (phase : Phase)
    → before ≡ is_running phase
    → (after ≡ before) ⊎ (after ≡ true)
    → after ≡ is_running (begun before after phase)
begun_lock true after phase l (inl e) = e ∙ l
begun_lock true after phase l (inr e) = e ∙ l
begun_lock false true phase l w = refl
begun_lock false false phase l w = l

module _ {R : Type 0} where
  -- While a job is handled, all rows of its key are active.
  abbrev pub IsBusy : Phase → Db R → Type 0
  IsBusy (handling row) db = IsActiveJob db row.job.id
  IsBusy _ db = Unit

  pub record IsSound (s : System R) : Type 0 where
    pub jobs : JobsOk s.server.db
    pub lock : s.server.worker_held ≡ is_running s.phase
    pub busy : IsBusy s.phase s.server.db

  pub IsBusy-Harmless :
      (phase : Phase) (db db' : Db R) → Harmless db db' → IsBusy phase db → IsBusy phase db'
  IsBusy-Harmless stopped db db' h b = tt
  IsBusy-Harmless starting db db' h b = tt
  IsBusy-Harmless looping db db' h b = tt
  IsBusy-Harmless (handling row) db db' h b = h.keeps_active row.job.id b

  IsBusy-begun :
      (before after : Bool) (phase : Phase) (db : Db R)
      → IsBusy phase db
      → IsBusy (begun before after phase) db
  IsBusy-begun true after phase db b = b
  IsBusy-begun false true phase db b = tt
  IsBusy-begun false false phase db b = b

  -- A server that keeps the lock, or takes a free one.
  pub served-IsSound :
      (s : System R) (server : Server R)
      → Harmless s.server.db server.db
      → (server.worker_held ≡ s.server.worker_held) ⊎ (server.worker_held ≡ true)
      → IsSound s
      → IsSound (served s server)
  served-IsSound s server h w i = record {
    jobs = h.keeps_JobsOk i.jobs;
    lock = begun_lock s.server.worker_held server.worker_held s.phase i.lock w;
    busy =
        IsBusy-begun s.server.worker_held server.worker_held s.phase server.db
          (IsBusy-Harmless s.phase s.server.db server.db h i.busy);
  }

  claim_active :
      (db : Db R) (now stamp : ℕ) (job : Job)
      → UniqueIds (λ (j : Job). j.id) db.jobs
      → In job db.jobs
      → is_queued job.status ≡ true
      → IsActiveJob (start_in db job.id now stamp) job.id
  claim_active db now stamp job u m q j i e =
      let r =
        In-update_where (λ x. nat_eq x.id job.id && is_queued x.status) (start_job now stamp)
          db.jobs i in
      rw (r.2) (
        started r.0 r.1 (rw (r.2) at e) (Bool-cases (nat_eq r.0.id job.id && is_queued r.0.status)))
    where
      true≢false_of : (true ≡ false) → ⊥
      true≢false_of h = cc h

      started :
          (x : Job)
          → In x db.jobs
          → nat_eq
              (if nat_eq x.id job.id && is_queued x.status then start_job now stamp x else x).id
              job.id
            ≡ true
          → ((nat_eq x.id job.id && is_queued x.status) ≡ true)
            ⊎ ((nat_eq x.id job.id && is_queued x.status) ≡ false)
          → is_active
              (if nat_eq x.id job.id && is_queued x.status then start_job now stamp x else x).status
            ≡ true
      started x mx i (inl t) = rw (t, if◌then◌else◌) refl
      started x mx i (inr f) =
          let same = same_row db.jobs job x u m mx (rw (f, if◌then◌else◌) at i) in
          absurd (true≢false_of (rw (same, nat_eq_refl job.id, q) at f))

  pub claimed-IsSound :
      (s : System R) (now stamp : ℕ)
      → IsSound s
      → s.phase ≡ looping
      → IsSound (claimed s (claim_next_collection_job s.server.db now stamp))
  unfolding job_row
  claimed-IsSound s now stamp i p = cases (claim_next_collection_job_lem s.server.db now stamp u)
    where
      u : UniqueIds (λ (j : Job). j.id) s.server.db.jobs
      u = UniqueIds-JobsOk s.server.db.jobs i.jobs.apart

      kept : JobsOk (claim_next_collection_job s.server.db now stamp).1
      kept = (claim-Harmless s.server.db now stamp).keeps_JobsOk i.jobs

      cases :
          Claimed s.server.db now stamp (claim_next_collection_job s.server.db now stamp)
          → IsSound (claimed s (claim_next_collection_job s.server.db now stamp))
      cases (idle none_left e) = rw e (record { jobs = i.jobs; lock = refl; busy = tt })
      cases (taken job m c oldest e) = rw e (record {
        jobs = rw e at kept;
        lock = i.lock ∙ rw p refl;
        busy =
            claim_active s.server.db now stamp job u m (queued_of_claimable s.server.db now job c);
      })

  pub handled-IsSound :
      (s : System R) (row : JobRow) (r : Result Outcome × List (Message R) × Db R)
      → JobsOk r.2
      → s.phase ≡ handling row
      → IsSound s
      → IsSound (handled s r)
  handled-IsSound s row (ok o, sent, db) j p i = record {
    jobs = j;
    lock = i.lock ∙ rw p refl;
    busy = tt;
  }
  handled-IsSound s row (raise e, sent, db) j p i = record { jobs = j; lock = refl; busy = tt }

  pub repaired-IsSound :
      (s : System R) (stale_before stamp : ℕ)
      → IsSound s
      → s.phase ≡ starting
      → IsSound (with_db s looping (repair (some stale_before) stamp s.server.db))
  unfolding repair
  repaired-IsSound s before stamp i p = record {
    jobs =
        (then-Harmless (stale-Harmless s.server.db before stamp)
            (unmonitored-Harmless _)).keeps_JobsOk
          i.jobs;
    lock = i.lock ∙ rw p refl;
    busy = tt;
  }

  pub tick-IsSound : (s : System R) → IsSound s → IsSound (tick s)
  unfolding tick
  tick-IsSound s i =
      served-IsSound s _ (same-Harmless s.server.db s.server.db refl refl)
        (inr (start_worker-held s.server.worker_held)) i

  pub startup-IsSound :
      (db : Db R) (stale_before stamp : ℕ) → JobsOk db → IsSound (startup db stale_before stamp)
  unfolding startup
  startup-IsSound db before stamp t = record {
    jobs = (then-Harmless (stale-Harmless db before stamp) (unmonitored-Harmless _)).keeps_JobsOk t;
    lock = refl;
    busy = tt;
  }
