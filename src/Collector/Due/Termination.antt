-- ===== src/Collector/Due/Termination.antt =====
-- googletrends_app/collector.py, process_due_jobs: the end of the worker's loop.
use googletrends.Base.{
  String, ℕ, zero, suc, ◌+◌, ◌<◌, ◌≡◌, ap, sym, true, false, ◌&&◌, ◌⊎◌, List, Option, none, nat_eq,
  nat_eq_refl, refl, Bool-cases, inl, inr, if◌then◌else◌, arith, In,
}
use mathlib.Core.Path.{subst}
use googletrends.Database.{Db, running, Error, Job, Result, ok, raise}
use googletrends.Database.Table.{In-update_where_left}
use googletrends.Repository.Jobs.{
  JobRow, is_queued, is_claimable, start_job, job_row, claim_next_collection_job,
}
use googletrends.Repository.Jobs.Claim.{
  Claimed, idle, taken, start_in, claim_next_collection_job_lem, queued_of_claimable,
}
use googletrends.Collector.Floats.{Floats}
use googletrends.Collector.Process.{
  Clock, Config, Message, Outcome, Reply, process_collection_job, term_of, timeframe_of,
}
use googletrends.Collector.Process.Updates.{
  outcome_update, IsRaised, Updates, process_collection_job-Updates,
}
use googletrends.Collector.Due.{
  Provider, Round, Worker, Ending, finished, aborted, out_of_fuel, after_job, on_job, on_claim,
  may_go_on, run_job, due_loop,
}
use googletrends.Collector.Due.Weights.{
  pending, UniqueJobs, pending_lt, row_lt, rows_le, UniqueJobs-ended,
}

module _ {P R : Type 0} (provider : Provider P) (F : Floats R) (config : Config) where
  -- Why the handling of a job raises, after the provider's answer to the request for it.
  abbrev pub Raises : Clock → Job → Error → Type 0
  Raises clock job e =
      (p : P) × (term : String) × IsRaised config clock job
        (provider.collect p term (timeframe_of config job) job.geo job.gprop).1 e

  -- A round on a claimed job leaves unique keys and fewer pending attempts, or raises.
  abbrev IsRound : Worker P R → Clock → Job → Result Unit × Worker P R → Type 0
  IsRound w clock job (ok _, w') = UniqueJobs w'.db.jobs × (pending w'.db.jobs < pending w.db.jobs)
  IsRound w clock job (raise e, w') =
      In job w'.db.jobs × (job.status ≡ running) × Raises clock job e

  run_job-IsRound :
      (w : Worker P R) (now stamp : ℕ) (clock : Clock) (job : Job)
      → UniqueJobs w.db.jobs
      → In job w.db.jobs
      → is_claimable w.db now job ≡ true
      → let db = start_in w.db job.id now stamp in
        IsRound w clock
          (start_job now stamp job)
          (run_job provider F config w db clock (job_row db (start_job now stamp job)))
  unfolding run_job job_row
  run_job-IsRound w now stamp clock job u m c =
      from (process_collection_job F config db clock row (provider.trace asked.0) asked.1)
        (process_collection_job-Updates F config db clock row (provider.trace asked.0) asked.1)
    where
      db : Db R
      db = start_in w.db job.id now stamp

      row : JobRow
      row = job_row db (start_job now stamp job)

      asked : P × Reply
      asked =
          provider.collect w.provider (term_of row.term) (timeframe_of config row.job) row.job.geo
            row.job.gprop

      started : In (start_job now stamp job) db.jobs
      started =
          let q = queued_of_claimable w.db now job c in
          rw (nat_eq_refl job.id, q, if◌then◌else◌) at
            (In-update_where_left (λ j. nat_eq j.id job.id && is_queued j.status)
              (start_job now stamp) w.db.jobs m)

      from :
          (r : Result Outcome × List (Message R) × Db R)
          → Updates config clock (start_job now stamp job) asked.1 db.jobs r
          → IsRound w clock (start_job now stamp job) (after_job provider F config w asked.0 r)
      from (ok o, sent, db') (e, d) =
          let q = queued_of_claimable w.db now job c in
          (
            subst UniqueJobs (sym e) (UniqueJobs-ended now stamp clock o w.db.jobs job.id u),
            subst (λ js. pending js < pending w.db.jobs) (sym e)
                (pending_lt (λ j. nat_eq j.id job.id && is_queued j.status)
                  (λ j. nat_eq j.id job.id) (start_job now stamp) (outcome_update clock o) w.db.jobs
                  job (rows_le now stamp clock o w.db.jobs job u m q d) m
                  (row_lt now stamp clock o job q d)),
          )
      from (raise x, sent, db') (e, why) = (rw e started, refl, (w.provider, term_of row.term, why))

  -- How the loop has ended: by its limit on jobs, because no job was claimable at its last reading
  -- of the clock, or because the handling of a job raised.
  abbrev pub HasEnded : (ℕ → Round) → Option ℕ → Ending P R → Type 0
  HasEnded rounds max_jobs (finished w) =
      (may_go_on max_jobs w.results ≡ false)
      ⊎ ((i : ℕ) × ((j : Job) → In j w.db.jobs → is_claimable w.db (rounds i).now j ≡ false))
  HasEnded rounds max_jobs (aborted e w) =
      (i : ℕ) × (job : Job) × In job w.db.jobs
      × (job.status ≡ running)
      × Raises (rounds i).job job e
  HasEnded rounds max_jobs out_of_fuel = ⊥

  due_loop-step :
      (fuel : ℕ) (rounds : ℕ → Round) (max_jobs : Option ℕ) (w : Worker P R)
      (r : Result (Option JobRow) × Db R)
      → may_go_on max_jobs w.results ≡ true
      → claim_next_collection_job w.db (rounds 0).now (rounds 0).stamp ≡ r
      → due_loop provider F config (suc fuel) rounds max_jobs w
        ≡ on_claim provider F config
            (λ w'. due_loop provider F config fuel (λ i. rounds (i + 1)) max_jobs w')
            (rounds 0).job
            w
            r
  unfolding due_loop
  due_loop-step fuel rounds max_jobs w r go e =
      rw (go, if◌then◌else◌)
        (ap
          (on_claim provider F config
            (λ w'. due_loop provider F config fuel (λ i. rounds (i + 1)) max_jobs w') (rounds 0).job
            w)
          e)

  due_loop-stop :
      (fuel : ℕ) (rounds : ℕ → Round) (max_jobs : Option ℕ) (w : Worker P R)
      → may_go_on max_jobs w.results ≡ false
      → due_loop provider F config (suc fuel) rounds max_jobs w ≡ finished w
  unfolding due_loop
  due_loop-stop fuel rounds max_jobs w stop = rw (stop, if◌then◌else◌)

  HasEnded-shift :
      (rounds : ℕ → Round) (max_jobs : Option ℕ) (r : Ending P R)
      → HasEnded (λ i. rounds (i + 1)) max_jobs r
      → HasEnded rounds max_jobs r
  HasEnded-shift rounds max_jobs (finished w) (inl stop) = inl stop
  HasEnded-shift rounds max_jobs (finished w) (inr (i, n)) = inr (i + 1, n)
  HasEnded-shift rounds max_jobs (aborted e w) (i, job, m, s, why) = (i + 1, job, m, s, why)
  HasEnded-shift rounds max_jobs out_of_fuel h = h

  -- With more fuel than the queued jobs have attempts left (and one more for each of them), over a
  -- job table with unique keys, the worker's loop does not run out of fuel, whatever the provider
  -- answers. It ends by its own tests, having reached its limit on jobs or a reading of the clock
  -- at which no job is claimable, or it lets an exception through. That happens only where SQLite
  -- refuses the last statement of the handling of a job, or where the next attempt of a running
  -- job of the table, which has attempts left, would, after the delay that its error calls for,
  -- lie behind the year 9999.
  pub due_loop-HasEnded :
      (fuel : ℕ) (rounds : ℕ → Round) (max_jobs : Option ℕ) (w : Worker P R)
      → UniqueJobs w.db.jobs
      → pending w.db.jobs < fuel
      → HasEnded rounds max_jobs (due_loop provider F config fuel rounds max_jobs w)
  due_loop-HasEnded zero rounds max_jobs w u lt = absurd (omega arith)
  due_loop-HasEnded (suc fuel) rounds max_jobs w u lt =
      elim (Bool-cases (may_go_on max_jobs w.results)) [
        | inr stop ↦ rw (due_loop-stop fuel rounds max_jobs w stop) (inl stop)
        | inl go ↦
            claimed go (λ w' u' l. due_loop-HasEnded fuel (λ i. rounds (i + 1)) max_jobs w' u' l)
              (claim_next_collection_job_lem w.db (rounds 0).now (rounds 0).stamp u)
      ]
    where
      rest : Worker P R → Ending P R
      rest w' = due_loop provider F config fuel (λ i. rounds (i + 1)) max_jobs w'

      after :
          ((w' : Worker P R)
            → UniqueJobs w'.db.jobs
            → pending w'.db.jobs < fuel
            → HasEnded (λ i. rounds (i + 1)) max_jobs (rest w'))
          → (job : Job) (r : Result Unit × Worker P R) → IsRound w (rounds 0).job job r
          → HasEnded rounds max_jobs (on_job provider F config rest r)
      after rec job (ok _, w') (u', l) =
          HasEnded-shift rounds max_jobs (rest w') (rec w' u' (omega (arith, lt, l)))
      after rec job (raise e, w') (m, s, why) = (0, job, m, s, why)

      claimed :
          may_go_on max_jobs w.results ≡ true
          → ((w' : Worker P R)
              → UniqueJobs w'.db.jobs
              → pending w'.db.jobs < fuel
              → HasEnded (λ i. rounds (i + 1)) max_jobs (rest w'))
          → Claimed w.db
              (rounds 0).now
              (rounds 0).stamp
              (claim_next_collection_job w.db (rounds 0).now (rounds 0).stamp)
          → HasEnded rounds max_jobs (due_loop provider F config (suc fuel) rounds max_jobs w)
      claimed go rec (idle none_left e) =
          rw (due_loop-step fuel rounds max_jobs w (ok none, w.db) go e) (inr (0, none_left))
      claimed go rec (taken job m c oldest e) = rw (due_loop-step fuel rounds max_jobs w _ go e) (
          after rec (start_job (rounds 0).now (rounds 0).stamp job) _
            (run_job-IsRound w (rounds 0).now (rounds 0).stamp (rounds 0).job job u m c))
