-- ===== src/Collector/Due/Repair.antt =====
-- googletrends_app/collector.py, process_due_jobs: the repairs, and the run from its start.
use googletrends.Base.{
  ℕ, ◌<◌, ◌≡◌, refl, Option, none, some, List, [], Bool-cases, inl, inr, if◌then◌else◌,
}
use googletrends.Database.{Db, Job}
use googletrends.Database.Pairwise.{UniqueIds, Pairwise-select, Pairwise-update_where}
use googletrends.Database.Table.{update_where}
use googletrends.Repository.Jobs.{
  is_stale, requeue_stale, requeue_stale_running_jobs, delete_unmonitored_queued_jobs, delete_jobs,
}
use googletrends.Collector.Floats.{Floats}
use googletrends.Collector.Process.{Config}
use googletrends.Collector.Due.{Provider, Round, repair, process_due_jobs}
use googletrends.Collector.Due.Weights.{pending}
use googletrends.Collector.Due.Termination.{HasEnded, due_loop-HasEnded}

UniqueIds-requeue_stale :
    (stale_before stamp : ℕ) (jobs : List Job)
    → UniqueIds (λ (j : Job). j.id) jobs
    → UniqueIds
        (λ (j : Job). j.id)
        (update_where (is_stale stale_before) (requeue_stale stamp) jobs)
UniqueIds-requeue_stale b stamp jobs u =
    Pairwise-update_where _ (is_stale b) (requeue_stale stamp) jobs (λ x y h. rw (same x, same y) h)
      u
  where
    same : (x : Job) → (if is_stale b x then requeue_stale stamp x else x).id ≡ x.id
    same x = elim (Bool-cases (is_stale b x)) [
      | inl t ↦ rw (t, if◌then◌else◌) refl
      | inr f ↦ rw (f, if◌then◌else◌) refl
    ]

module _ {R : Type 0} where
  UniqueIds-repair :
      (stale_before : Option ℕ) (stamp : ℕ) (db : Db R)
      → UniqueIds (λ (j : Job). j.id) db.jobs
      → UniqueIds (λ (j : Job). j.id) (repair stale_before stamp db).jobs
  unfolding repair delete_unmonitored_queued_jobs requeue_stale_running_jobs delete_jobs
  UniqueIds-repair none stamp db u = u
  UniqueIds-repair (some b) stamp db u =
      Pairwise-select _ _ (update_where (is_stale b) (requeue_stale stamp) db.jobs)
        (UniqueIds-requeue_stale b stamp db.jobs u)

module _ {P R : Type 0} (provider : Provider P) (F : Floats R) (config : Config) where
  -- The worker's run over a database with unique job keys, the repairs included, does not run
  -- out of fuel if it has more than the repaired jobs have attempts left (and one more for each
  -- that is queued), whatever the provider answers: it ends by its own tests, or raises where the
  -- handling of a job does.
  pub process_due_jobs-HasEnded :
      (fuel : ℕ) (rounds : ℕ → Round) (stale_before : Option ℕ) (stamp : ℕ) (max_jobs : Option ℕ)
      (p : P) (db : Db R)
      → UniqueIds (λ (j : Job). j.id) db.jobs
      → pending (repair stale_before stamp db).jobs < fuel
      → HasEnded provider F config rounds max_jobs
          (process_due_jobs provider F config fuel rounds stale_before stamp max_jobs p db)
  unfolding process_due_jobs
  process_due_jobs-HasEnded fuel rounds stale_before stamp max_jobs p db u l =
      due_loop-HasEnded provider F config fuel rounds max_jobs
        (record { provider = p; db = repair stale_before stamp db; sent = []; results = [] })
        (UniqueIds-repair stale_before stamp db u) l
