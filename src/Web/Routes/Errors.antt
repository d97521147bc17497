-- ===== src/Web/Routes/Errors.antt =====
-- googletrends_app/main.py, the requests that change the state: what a refused one leaves.
use googletrends.Base.{ℕ, ◌≡◌, refl, ap, String, true, false, Option, none, some, List, is_empty}
use googletrends.Trends.{available_timeframes}
use googletrends.Database.{Db, Keyword, Error, value_error, integrity_error, Result, ok, raise}
use googletrends.Repository.Jobs.{JobRow}
use googletrends.Repository.Keywords.{
  Action, no_faults, get_keyword, keyword_timeframes, keyword_gprops,
  bulk_adjust_keyword_timeframes,
}
use googletrends.Repository.Keywords.Bulk.{bulk_adjust_keyword_timeframes-error}
use googletrends.Collector.Enqueue.{enqueue_keyword_jobs, create_collection_jobs_for_enabled}
use googletrends.Web.{
  Response, redirect, Server, Form, chosen_values, text_of, search_property_options, option_values,
  next_path, keyword_path,
}
use googletrends.Web.Keywords.{
  ensured, handle_toggle_keyword, handle_update_keyword_timeframes, handle_update_keyword_gprops,
  handle_delete_keyword,
}
use googletrends.Web.Bulk.{
  Digits, read_ids, action_of, bulk_answer, bulk_with, bulk_of,
  handle_bulk_update_keyword_timeframes,
}
use googletrends.Web.Collect.{
  manual, collect_answer, collect_keyword_now, all_queued, handle_collect_one, handle_collect_now,
}
use googletrends.Web.Routes.{
  Post, add_keyword, toggle_keyword, update_keyword_remark, update_keyword_timeframes,
  bulk_update_keyword_timeframes, update_keyword_gprops, update_keyword_gprop, delete_keyword,
  collect_one, collect_now, update_alert_remark, on_db, handle,
}
use googletrends.Web.Keywords.Cautious.{
  is_refusal, IsCautious, HasKeywords, ensured-IsCautious, checked-IsCautious, add-IsCautious,
  remark-IsCautious, alert-IsCautious, gprop-IsCautious,
}

module _ {R : Type 0} where
  bulk_answer-IsCautious :
      (db : Db R) (action : Action) (ts : List String) (target : String) (r : Result ℕ × Db R)
      → ((e : Error) → r.0 ≡ raise e → r.1 ≡ db)
      → IsCautious db (bulk_answer action ts target r)
  bulk_answer-IsCautious db action ts target (ok n, db') h r = cc r
  bulk_answer-IsCautious db action ts target (raise (value_error m), db') h r = h _ refl
  bulk_answer-IsCautious db action ts target (raise (Error.keyword_not_found m), db') h r = cc r
  bulk_answer-IsCautious db action ts target (raise (Error.job_not_found m), db') h r = cc r
  bulk_answer-IsCautious db action ts target (raise (Error.term_not_found m), db') h r = cc r
  bulk_answer-IsCautious db action ts target (raise (integrity_error m), db') h r = cc r
  bulk_answer-IsCautious db action ts target (raise (Error.operational_error m), db') h r = cc r
  bulk_answer-IsCautious db action ts target (raise (Error.overflow_error m), db') h r = cc r

  bulk_with-IsCautious :
      (db : Db R) (now : ℕ) (ids : List ℕ) (ts : List String) (a : Option Action) (target : String)
      → IsCautious db (bulk_with db now ids ts a target)
  bulk_with-IsCautious db now ids ts none target = λ r. refl
  bulk_with-IsCautious db now ids ts (some a) target =
      bulk_answer-IsCautious db a ts target
        (bulk_adjust_keyword_timeframes no_faults db now ids ts a)
        (bulk_adjust_keyword_timeframes-error no_faults db now ids ts a)

  bulk_of-IsCautious :
      (db : Db R) (now : ℕ) (form : Form) (ids : Result (List ℕ))
      → IsCautious db (bulk_of db now form ids)
  bulk_of-IsCautious db now form (raise e) = λ r. refl
  bulk_of-IsCautious db now form (ok ids) =
      let ts = chosen_values available_timeframes form.timeframes in
      checked-IsCautious db (is_empty ids) _ _ (λ r. refl)
        (checked-IsCautious db (is_empty ts) _ _ (λ r. refl)
          (bulk_with-IsCautious db now ids ts (action_of (text_of form.action)) _))

  collect_accepted :
      (server : Server R) (target : String) (ts gs : List String) (r : Result (List JobRow) × Db R)
      → is_refusal (collect_answer server target ts gs r).0 ≡ false
  collect_accepted server target ts gs (ok jobs, db) = refl
  collect_accepted server target ts gs (raise e, db) = refl

  one-IsCautious :
      (server : Server R) (clock : ℕ → ℕ) (m id : ℕ) (url : Option String) (k : Option Keyword)
      → is_refusal (collect_keyword_now server clock m id url k).0 ≡ true
      → (collect_keyword_now server clock m id url k).1 ≡ server
  one-IsCautious server clock m id url none r = refl
  one-IsCautious server clock m id url (some k) r = cc (
    r,
    collect_accepted server (next_path url (keyword_path id)) (keyword_timeframes k)
        (keyword_gprops k)
        (enqueue_keyword_jobs server.db clock id (manual m) (some (keyword_timeframes k))
          (some (keyword_gprops k))),
  )

  all-IsCautious :
      (server : Server R) (r : Result (List JobRow) × Db R)
      → is_refusal (all_queued server r).0 ≡ true
      → (all_queued server r).1 ≡ server
  all-IsCautious server (ok jobs, db) r = cc r
  all-IsCautious server (raise e, db) r = cc r

  -- A handler of the database alone.
  on_db-IsCautious :
      (server : Server R) (r : Response × Db R)
      → IsCautious server.db r
      → is_refusal (on_db server r).0 ≡ true
      → (on_db server r).1 ≡ server
  on_db-IsCautious server r h t = ap (λ db. record server { db = db }) (h t)

  done-IsCautious :
      (db db' : Db R) (k : Option Keyword) (target message : String)
      → IsCautious db (ensured db k (redirect target (some message) none, db'))
  done-IsCautious db db' k target message = ensured-IsCautious db k _ (λ x e r. cc r)

  -- Where every alert has its keyword, a POST request that is answered by the status 404 or by a
  -- redirect with an error has changed nothing in the database, and not started the worker.
  pub handle-refused :
      (d : Digits) (max_attempts : ℕ) (clock : ℕ → ℕ) (server : Server R) (post : Post)
      → HasKeywords server.db
      → is_refusal (handle d max_attempts clock server post).0 ≡ true
      → (handle d max_attempts clock server post).1 ≡ server
  unfolding handle handle_toggle_keyword handle_update_keyword_timeframes
      handle_update_keyword_gprops handle_delete_keyword handle_bulk_update_keyword_timeframes
      handle_collect_one handle_collect_now
  handle-refused d m clock server (add_keyword term) keyed =
      on_db-IsCautious server _ (add-IsCautious server.db (clock 0) term)
  handle-refused d m clock server (toggle_keyword id) keyed =
      on_db-IsCautious server _ (done-IsCautious server.db _ (get_keyword server.db id) _ _)
  handle-refused d m clock server (update_keyword_remark id remark) keyed =
      on_db-IsCautious server _ (remark-IsCautious server.db (clock 0) id remark)
  handle-refused d m clock server (update_keyword_timeframes id form) keyed =
      on_db-IsCautious server _ (
        ensured-IsCautious server.db (get_keyword server.db id) _ (λ x e.
          checked-IsCautious server.db
            (is_empty (chosen_values available_timeframes form.timeframes)) _ _ (λ r. refl)
            (λ r. cc r)))
  handle-refused d m clock server (bulk_update_keyword_timeframes form) keyed =
      on_db-IsCautious server _
        (bulk_of-IsCautious server.db (clock 0) form (read_ids d form.keyword_ids))
  handle-refused d m clock server (update_keyword_gprops id form) keyed =
      on_db-IsCautious server _ (
        ensured-IsCautious server.db (get_keyword server.db id) _ (λ x e.
          checked-IsCautious server.db
            (is_empty (chosen_values (option_values search_property_options) form.gprops)) _ _
            (λ r. refl) (λ r. cc r)))
  handle-refused d m clock server (update_keyword_gprop id gprop url) keyed =
      on_db-IsCautious server _ (gprop-IsCautious server.db (clock 0) id gprop url)
  handle-refused d m clock server (delete_keyword id) keyed =
      on_db-IsCautious server _ (done-IsCautious server.db _ (get_keyword server.db id) _ _)
  handle-refused d m clock server (collect_one id url) keyed =
      one-IsCautious server clock m id url (get_keyword server.db id)
  handle-refused d m clock server collect_now keyed =
      all-IsCautious server (create_collection_jobs_for_enabled server.db clock (manual m) none)
  handle-refused d m clock server (update_alert_remark id remark) keyed =
      on_db-IsCautious server _ (alert-IsCautious server.db id remark keyed)
