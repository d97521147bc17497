-- ===== src/Web/Routes/Held.antt =====
-- googletrends_app/main.py, the requests that change the state: what they do to the worker's lock.
use googletrends.Base.{
  ℕ, ◌≡◌, refl, Bool, true, false, String, Option, none, some, List, ◌⊎◌, inl, inr,
}
use googletrends.Database.{Db, Keyword, Result, ok, raise}
use googletrends.Repository.Jobs.{JobRow}
use googletrends.Repository.Keywords.{get_keyword, keyword_timeframes, keyword_gprops}
use googletrends.Collector.Enqueue.{enqueue_keyword_jobs, create_collection_jobs_for_enabled}
use googletrends.Worker.{start_worker}
use googletrends.Web.{Server}
use googletrends.Web.Bulk.{Digits}
use googletrends.Web.Collect.{
  manual, collect_answer, collect_keyword_now, all_queued, handle_collect_one, handle_collect_now,
}
use googletrends.Web.Routes.{
  Post, add_keyword, toggle_keyword, update_keyword_remark, update_keyword_timeframes,
  bulk_update_keyword_timeframes, update_keyword_gprops, update_keyword_gprop, delete_keyword,
  collect_one, collect_now, update_alert_remark, handle,
}

-- A call of `start_worker` leaves the lock held.
pub start_worker-held : (held : Bool) → (start_worker held).1 ≡ true
unfolding start_worker
start_worker-held true = refl
start_worker-held false = refl

module _ {R : Type 0} where
  -- The lock is as it was, or held.
  abbrev pub IsTakenAtMost : Server R → Server R → Type 0
  IsTakenAtMost before after = (after.worker_held ≡ before.worker_held) ⊎ (after.worker_held ≡ true)

  answer_held :
      (server : Server R) (target : String) (ts gs : List String) (r : Result (List JobRow) × Db R)
      → IsTakenAtMost server (collect_answer server target ts gs r).1
  answer_held server target ts gs (ok jobs, db) = inr (start_worker-held server.worker_held)
  answer_held server target ts gs (raise e, db) = inl refl

  one_held :
      (server : Server R) (clock : ℕ → ℕ) (m id : ℕ) (url : Option String) (k : Option Keyword)
      → IsTakenAtMost server (collect_keyword_now server clock m id url k).1
  one_held server clock m id url none = inl refl
  one_held server clock m id url (some k) =
      answer_held server _ (keyword_timeframes k) (keyword_gprops k)
        (enqueue_keyword_jobs server.db clock id (manual m) _ _)

  all_held :
      (server : Server R) (r : Result (List JobRow) × Db R)
      → IsTakenAtMost server (all_queued server r).1
  all_held server (ok jobs, db) = inr (start_worker-held server.worker_held)
  all_held server (raise e, db) = inl refl

  pub handle_held :
      (d : Digits) (max_attempts : ℕ) (clock : ℕ → ℕ) (server : Server R) (post : Post)
      → IsTakenAtMost server (handle d max_attempts clock server post).1
  unfolding handle handle_collect_one handle_collect_now
  handle_held d m clock server (collect_one id url) =
      one_held server clock m id url (get_keyword server.db id)
  handle_held d m clock server collect_now =
      all_held server (create_collection_jobs_for_enabled server.db clock (manual m) none)
  handle_held d m clock server (add_keyword term) = inl refl
  handle_held d m clock server (toggle_keyword id) = inl refl
  handle_held d m clock server (update_keyword_remark id remark) = inl refl
  handle_held d m clock server (update_keyword_timeframes id form) = inl refl
  handle_held d m clock server (bulk_update_keyword_timeframes form) = inl refl
  handle_held d m clock server (update_keyword_gprops id form) = inl refl
  handle_held d m clock server (update_keyword_gprop id gprop url) = inl refl
  handle_held d m clock server (delete_keyword id) = inl refl
  handle_held d m clock server (update_alert_remark id remark) = inl refl
