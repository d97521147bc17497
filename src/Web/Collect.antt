-- ===== src/Web/Collect.antt =====
-- googletrends_app/main.py, the handlers that queue jobs and start the worker.
use googletrends.Base.{
  decimal, ℕ, String, Bool, true, false, Option, none, some, List, length, map, append,
}
use googletrends.Database.{Db, Keyword, Result, ok, raise}
use googletrends.Repository.Jobs.{JobRow}
use googletrends.Repository.Keywords.{get_keyword, keyword_timeframes, keyword_gprops}
use googletrends.Collector.Enqueue.{
  Request, enqueue_keyword_jobs, create_collection_jobs_for_enabled,
}
use googletrends.Worker.{start_worker}
use googletrends.Web.{
  Response, redirect, not_found, uncaught, Server, keyword_path, next_path, search_property_label,
  comma_joined,
}

abbrev pub manual : ℕ → Request
manual max_attempts = record { source = "manual"; max_attempts = max_attempts; geo = "" }

-- f"Queued {n} collection jobs for: {timeframes} x {labels}."
abbrev pub queued_message : ℕ → List String → List String → String
queued_message n timeframes gprops = append "Queued " (
    append (decimal n) (
      append " collection jobs for: " (
        append (comma_joined timeframes)
          (append " x " (append (comma_joined (map search_property_label gprops)) ".")))))

abbrev pub worker_status : Bool → String
worker_status true = "worker started"
worker_status false = "worker already running"

module _ {R : Type 0} where
  -- After the jobs are queued: the worker is started, and the answer is a redirect.
  abbrev pub collect_answer :
      Server R
      → String
      → List String
      → List String
      → Result (List JobRow) × Db R
      → Response × Server R
  collect_answer server target timeframes gprops (raise e, db) =
      (uncaught e, record server { db = db })
  collect_answer server target timeframes gprops (ok jobs, db) = (
    redirect target (some (queued_message (length jobs) timeframes gprops)) none,
    record { db = db; worker_held = (start_worker server.worker_held).1 },
  )

  abbrev pub collect_keyword_now :
      Server R → (ℕ → ℕ) → ℕ → ℕ → Option String → Option Keyword → Response × Server R
  collect_keyword_now server clock max_attempts keyword_id next_url none =
      (not_found "Keyword not found.", server)
  collect_keyword_now server clock max_attempts keyword_id next_url (some keyword) =
      let timeframes = keyword_timeframes keyword in
      let gprops = keyword_gprops keyword in
      collect_answer server (next_path next_url (keyword_path keyword_id)) timeframes gprops (
        enqueue_keyword_jobs server.db clock keyword_id (manual max_attempts) (some timeframes)
          (some gprops))

  unfoldable pub handle_collect_one :
      Server R → (ℕ → ℕ) → ℕ → ℕ → Option String → Response × Server R
  unfolding next_path search_property_label
  handle_collect_one server clock max_attempts keyword_id next_url =
      collect_keyword_now server clock max_attempts keyword_id next_url
        (get_keyword server.db keyword_id)

  abbrev pub all_queued : Server R → Result (List JobRow) × Db R → Response × Server R
  all_queued server (raise e, db) = (uncaught e, record server { db = db })
  all_queued server (ok jobs, db) =
      let (started, held) = start_worker server.worker_held in
      (
        redirect "/runs"
            (some (
              append "Queued " (
                append (decimal (length jobs))
                  (append " collection jobs; " (append (worker_status started) ".")))))
            none,
        record { db = db; worker_held = held },
      )

  unfoldable pub handle_collect_now : Server R → (ℕ → ℕ) → ℕ → Response × Server R
  handle_collect_now server clock max_attempts =
      all_queued server
        (create_collection_jobs_for_enabled server.db clock (manual max_attempts) none)
