-- ===== src/Worker/Steps/Starts.antt =====
-- googletrends_app/main.py, collect_one and collect_now with googletrends_app/worker.py: the worker
-- after a request for a collection.
use googletrends.Base.{
  ℕ, ◌≡◌, refl, sym, ◌∙◌, String, Bool, true, false, Option, none, some, is_some, List,
}
use googletrends.Database.{Db, Keyword, Result, ok, raise}
use googletrends.Repository.Jobs.{JobRow}
use googletrends.Repository.Keywords.{get_keyword, keyword_timeframes, keyword_gprops}
use googletrends.Collector.Enqueue.{enqueue_keyword_jobs, create_collection_jobs_for_enabled}
use googletrends.Repository.Jobs.Create.{is_ok}
use googletrends.Repository.Jobs.Table.{JobsOk}
use googletrends.Collector.Enqueue.Total.{
  enqueue_keyword_jobs-ok, create_collection_jobs_for_enabled-ok,
}
use googletrends.Web.{Response, redirect, Server, next_path, keyword_path}
use googletrends.Web.Bulk.{Digits}
use googletrends.Web.Collect.{
  manual, collect_answer, collect_keyword_now, all_queued, handle_collect_one, handle_collect_now,
}
use googletrends.Web.Routes.{Post, collect_one, collect_now, handle}
use googletrends.Web.Routes.Held.{start_worker-held, handle_held}
use googletrends.Web.Routes.Invariant.{handle-Harmless}
use googletrends.Worker.Steps.{System, is_running, served}
use googletrends.Worker.Steps.Sound.{IsSound, served-IsSound}

abbrev pub is_redirect : Response → Bool
is_redirect (redirect target message error) = true
is_redirect _ = false

-- The requests for a collection: of one keyword, with the path to return to, or of all.
pub data Wish : Type 0 where
  one : ℕ → Option String → Wish
  all : Wish

abbrev pub wished : Wish → Post
wished (one id url) = collect_one id url
wished all = collect_now

module _ {R : Type 0} where
  abbrev pub asks_known : Db R → Wish → Bool
  asks_known db (one id url) = is_some (get_keyword db id)
  asks_known db all = true

  -- An answer that is a redirect, of a server that holds the lock.
  abbrev IsStarted : Response × Server R → Type 0
  IsStarted a = (is_redirect a.0 ≡ true) × (a.1.worker_held ≡ true)

  answer-IsStarted :
      (server : Server R) (target : String) (ts gs : List String) (r : Result (List JobRow) × Db R)
      → is_ok r.0 ≡ true
      → IsStarted (collect_answer server target ts gs r)
  answer-IsStarted server target ts gs (ok jobs, db) h =
      (refl, start_worker-held server.worker_held)
  answer-IsStarted server target ts gs (raise e, db) h = cc h

  one-IsStarted :
      (server : Server R) (clock : ℕ → ℕ) (m id : ℕ) (url : Option String) (k : Option Keyword)
      → JobsOk server.db
      → is_some (get_keyword server.db id) ≡ true
      → is_some k ≡ true
      → IsStarted (collect_keyword_now server clock m id url k)
  one-IsStarted server clock m id url none j known h = cc h
  one-IsStarted server clock m id url (some k) j known h =
      answer-IsStarted server (next_path url (keyword_path id)) (keyword_timeframes k)
        (keyword_gprops k)
        (enqueue_keyword_jobs server.db clock id (manual m) (some (keyword_timeframes k))
          (some (keyword_gprops k)))
        (enqueue_keyword_jobs-ok server.db clock id (manual m) (keyword_timeframes k)
          (keyword_gprops k) j known)

  all-IsStarted :
      (server : Server R) (r : Result (List JobRow) × Db R)
      → is_ok r.0 ≡ true
      → IsStarted (all_queued server r)
  all-IsStarted server (ok jobs, db) h = (refl, start_worker-held server.worker_held)
  all-IsStarted server (raise e, db) h = cc h

  wished-IsStarted :
      (d : Digits) (m : ℕ) (clock : ℕ → ℕ) (server : Server R) (wish : Wish)
      → JobsOk server.db
      → asks_known server.db wish ≡ true
      → IsStarted (handle d m clock server (wished wish))
  unfolding handle handle_collect_one handle_collect_now
  wished-IsStarted d m clock server (one id url) j h =
      one-IsStarted server clock m id url (get_keyword server.db id) j h h
  wished-IsStarted d m clock server all j h =
      all-IsStarted server (create_collection_jobs_for_enabled server.db clock (manual m) none)
        (create_collection_jobs_for_enabled-ok server.db clock (manual m) none j)

  -- A request to collect one keyword of the database, or all of them, is answered by a redirect,
  -- and then the worker's thread runs. Before the request, the job table keeps its invariant, the
  -- lock is held exactly while there is a thread, and all rows of the key of a job that is being
  -- handled are active.
  pub wished-starts :
      (d : Digits) (m : ℕ) (clock : ℕ → ℕ) (s : System R) (wish : Wish)
      → IsSound s
      → asks_known s.server.db wish ≡ true
      → let answer = handle d m clock s.server (wished wish) in
        (is_redirect answer.0 ≡ true) × (is_running (served s answer.1).phase ≡ true)
  wished-starts d m clock s wish i h =
      let started = wished-IsStarted d m clock s.server wish i.jobs h in
      (
        started.0,
        sym
              (served-IsSound s _ (handle-Harmless d m clock s.server (wished wish))
                (handle_held d m clock s.server (wished wish)) i).lock
            ∙ started.1,
      )
