-- ===== src/Collector/Process/Ends.antt =====
-- googletrends_app/collector.py, process_collection_job: how the row of the job stands afterwards.
use googletrends.Base.{
  ℕ, ◌≡◌, refl, ◌⊎◌, String, Bool, true, false, Option, none, some, List, [], ◌∷◌, nat_eq, inl, inr,
  if◌then◌else◌,
}
use googletrends.Database.{Db, Job, Status, success, queued, failed, Result, ok, raise}
use googletrends.Database.Table.{update_where}
use googletrends.Repository.Jobs.{JobRow}
use googletrends.Repository.Jobs.Table.{target}
use googletrends.Collector.Floats.{Floats}
use googletrends.Collector.Process.{
  Clock, Config, Message, Outcome, succeeded, requeued, gave_up, Reply, Trace,
  process_collection_job,
}
use googletrends.Collector.Process.Updates.{
  outcome_update, IsDueOutcome, IsRaised, Updates, process_collection_job-Updates,
}

-- The columns that tell how a job stands.
pub record Standing : Type 0 where
  pub status : Status
  pub next_attempt_at : Option ℕ
  pub finished_at : Option ℕ
  pub points_collected : ℕ
  pub error : Option String
  pub attempts : ℕ
  pub max_attempts : ℕ

abbrev pub standing : Job → Standing
standing j = record {
  status = j.status;
  next_attempt_at = j.next_attempt_at;
  finished_at = j.finished_at;
  points_collected = j.points_collected;
  error = j.error;
  attempts = j.attempts;
  max_attempts = j.max_attempts;
}

-- How a job stands after an outcome: a success has the number of points, and neither an error nor a
-- next attempt; a repetition is queued with its error and its next attempt; a job that was given up
-- has failed, with its error and no next attempt.
abbrev pub standing_after : Clock → Outcome → Standing → Standing
standing_after clock (succeeded count alerts) s = record {
  status = success;
  next_attempt_at = none;
  finished_at = some (clock.success 0);
  points_collected = count;
  error = none;
  attempts = s.attempts;
  max_attempts = s.max_attempts;
}
standing_after clock (requeued error at delay) s = record {
  status = queued;
  next_attempt_at = some at;
  finished_at = s.finished_at;
  points_collected = s.points_collected;
  error = some error;
  attempts = s.attempts;
  max_attempts = s.max_attempts;
}
standing_after clock (gave_up error) s = record {
  status = failed;
  next_attempt_at = none;
  finished_at = some (clock.ending 2);
  points_collected = s.points_collected;
  error = some error;
  attempts = s.attempts;
  max_attempts = s.max_attempts;
}

-- A row before and after: a row of the handled key stands as the outcome says and keeps its target,
-- and every other row is as it was.
abbrev pub EndsRow : Clock → ℕ → Outcome → Job → Job → Type 0
EndsRow clock id outcome before after =
    ((nat_eq before.id id ≡ true)
      × (target after ≡ target before)
      × (standing after ≡ standing_after clock outcome (standing before)))
    ⊎ ((nat_eq before.id id ≡ false) × (after ≡ before))

-- Two tables with as many rows, related row by row.
abbrev pub RowByRow : (Job → Job → Type 0) → List Job → List Job → Type 0
RowByRow P [] [] = Unit
RowByRow P (x ∷ xs) (y ∷ ys) = P x y × RowByRow P xs ys
RowByRow P _ _ = ⊥

outcome_update-EndsRow :
    (clock : Clock) (o : Outcome) (id : ℕ) (j : Job)
    → nat_eq j.id id ≡ true
    → EndsRow clock id o j (outcome_update clock o j)
outcome_update-EndsRow clock (succeeded count alerts) id j t = inl (t, refl, refl)
outcome_update-EndsRow clock (requeued error at delay) id j t = inl (t, refl, refl)
outcome_update-EndsRow clock (gave_up error) id j t = inl (t, refl, refl)

if-EndsRow :
    (clock : Clock) (o : Outcome) (id : ℕ) (j : Job) (b : Bool)
    → nat_eq j.id id ≡ b
    → EndsRow clock id o j (if b then outcome_update clock o j else j)
if-EndsRow clock o id j true e = outcome_update-EndsRow clock o id j e
if-EndsRow clock o id j false e = inr (e, refl)

update_where-EndsRow :
    (clock : Clock) (o : Outcome) (id : ℕ) (jobs : List Job)
    → RowByRow
        (EndsRow clock id o)
        jobs
        (update_where (λ (j : Job). nat_eq j.id id) (outcome_update clock o) jobs)
update_where-EndsRow clock o id [] = tt
update_where-EndsRow clock o id (j ∷ jobs) =
    (if-EndsRow clock o id j (nat_eq j.id id) refl, update_where-EndsRow clock o id jobs)

module _ {R : Type 0} where
  -- The result of a handling, on the jobs of the database it began with.
  abbrev pub EndsBy :
      Config → Clock → Job → Reply → List Job → Result Outcome × List (Message R) × Db R → Type 0
  EndsBy config clock job reply jobs (ok o, sent, db) =
      RowByRow (EndsRow clock job.id o) jobs db.jobs × IsDueOutcome clock job o
  EndsBy config clock job reply jobs (raise e, sent, db) =
      (db.jobs ≡ jobs) × IsRaised config clock job reply e

  -- Whatever the provider answers, and whichever constraint the stored rows break: where the
  -- handling of a job returns an outcome, the rows of the job's key keep their target and stand as
  -- the outcome says (succeeded with the number of points and no error, queued again with the
  -- error and the next attempt, or failed with the error), and every other row is as it was. A job
  -- succeeds only if SQLite takes the statement that says so, is repeated only if it has attempts
  -- left, after the delay and not behind the year 9999, and fails only if it has none. The
  -- handling raises only if SQLite refuses the last statement of the except block, or if the job
  -- has attempts left and its next one would, after the delay that its error calls for, lie behind
  -- the year 9999; then the table of jobs is as it was.
  pub process_collection_job-EndsBy :
      (F : Floats R) (config : Config) (db : Db R) (clock : Clock) (row : JobRow) (trace : Trace)
      (reply : Reply)
      → EndsBy config clock row.job reply db.jobs
          (process_collection_job F config db clock row trace reply)
  process_collection_job-EndsBy F config db clock row trace reply =
      from (process_collection_job F config db clock row trace reply)
        (process_collection_job-Updates F config db clock row trace reply)
    where
      from :
          (r : Result Outcome × List (Message R) × Db R)
          → Updates config clock row.job reply db.jobs r
          → EndsBy config clock row.job reply db.jobs r
      from (ok o, sent, db') (e, d) = (rw e (update_where-EndsRow clock o row.job.id db.jobs), d)
      from (raise x, sent, db') (e, w) = (e, w)
