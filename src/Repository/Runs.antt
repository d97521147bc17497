-- ===== src/Repository/Runs.antt =====
-- googletrends_app/repository.py, the collection runs of `collect_keyword`.
use googletrends.Base.{
  ℕ, ◌+◌, String, Option, none, some, [], ◌∷◌, ◌++◌, nat_eq, is_some, if◌then◌else◌,
}
use googletrends.Database.{Db, Run, Status, running, integrity_error, Result, ok, raise}
use googletrends.Database.Table.{update_where}
use googletrends.Repository.Jobs.{find_keyword}

abbrev pub new_run : ℕ → ℕ → ℕ → Run
new_run id keyword_id started_at = record {
  id = id;
  keyword_id = some keyword_id;
  started_at = started_at;
  finished_at = none;
  status = running;
  points_collected = 0;
  error = none;
}

module _ {R : Type 0} where
  -- The result is the key of the new row, which is all that the caller reads.
  unfoldable pub create_run : Db R → ℕ → ℕ → Result ℕ × Db R
  create_run db keyword_id started_at =
      if is_some (find_keyword db keyword_id)
      then (
        ok db.next_run,
        record db {
          runs = db.runs ++ new_run db.next_run keyword_id started_at ∷ [];
          next_run = db.next_run + 1;
        },
      )
      else (raise (integrity_error "FOREIGN KEY constraint failed"), db)

  unfoldable pub finish_run : Db R → ℕ → Status → ℕ → ℕ → Option String → Db R
  finish_run db run_id status finished_at points_collected error = record db {
    runs =
        update_where (λ r. nat_eq r.id run_id)
          (λ r. record r {
            status = status;
            finished_at = some finished_at;
            points_collected = points_collected;
            error = error;
          })
          db.runs;
  }
