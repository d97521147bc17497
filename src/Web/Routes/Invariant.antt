-- ===== src/Web/Routes/Invariant.antt =====
-- googletrends_app/main.py, the requests that change the state: what they keep of the table of jobs.
use googletrends.Base.{
  ℕ, refl, String, Bool, true, false, Option, none, some, List, [], ◌∷◌, is_empty, Bool-cases, inl,
  inr, if◌then◌else◌,
}
use googletrends.Trends.{available_timeframes}
use googletrends.Database.{Db, Keyword, Error, value_error, Result, ok, raise}
use googletrends.Repository.Jobs.{JobRow}
use googletrends.Repository.Jobs.Harmless.{Harmless, same-Harmless, drop_keyword-Harmless}
use googletrends.Repository.Keywords.{Action, get_keyword, keyword_timeframes, keyword_gprops}
use googletrends.Repository.Keywords.{no_faults}
use googletrends.Repository.Keywords.Bulk.{bulk_adjust_keyword_timeframes-Harmless}
use googletrends.Repository.Keywords.Harmless.{
  create_keyword-Harmless, toggle_keyword-Harmless, update_keyword_remark-Harmless,
  update_keyword_timeframes-Harmless, update_keyword_gprops-Harmless,
}
use googletrends.Repository.Alerts
use googletrends.Collector.Enqueue.Invariant.{
  enqueue_keyword_jobs-Harmless, create_collection_jobs_for_enabled-Harmless,
}
use googletrends.Web.{Response, Server, Form, chosen_values, search_property_options, option_values}
use googletrends.Web.Keywords.{
  ensured, handle_add_keyword, handle_toggle_keyword, handle_update_keyword_remark,
  handle_update_alert_remark, handle_update_keyword_timeframes, handle_update_keyword_gprops,
  handle_update_keyword_gprop, handle_delete_keyword,
}
use googletrends.Web.Bulk.{
  Digits, read_ids, bulk_answer, bulk_with, bulk_of, handle_bulk_update_keyword_timeframes,
}
use googletrends.Web.Collect.{
  manual, collect_answer, collect_keyword_now, all_queued, handle_collect_one, handle_collect_now,
}
use googletrends.Web.Routes.{
  Post, add_keyword, toggle_keyword, update_keyword_remark, update_keyword_timeframes,
  bulk_update_keyword_timeframes, update_keyword_gprops, update_keyword_gprop, delete_keyword,
  collect_one, collect_now, update_alert_remark, handle,
}

module _ {R : Type 0} where
  ensured-Harmless :
      (db : Db R) (k : Option Keyword) (rest : Response × Db R)
      → Harmless db rest.1
      → Harmless db (ensured db k rest).1
  ensured-Harmless db none rest h = same-Harmless db db refl refl
  ensured-Harmless db (some k) rest h = h

  -- A handler that checks its form changes nothing where the form is refused.
  checked-Harmless :
      (db : Db R) (refused : Bool) (a b : Response) (db' : Db R)
      → Harmless db db'
      → Harmless db (if◌then◌else◌ {A = Response × Db R} refused (a, db) (b, db')).1
  checked-Harmless db true a b db' h = same-Harmless db db refl refl
  checked-Harmless db false a b db' h = h

  timeframes-Harmless :
      (db : Db R) (now id : ℕ) (form : Form)
      → Harmless db (handle_update_keyword_timeframes db now id form).1
  unfolding handle_update_keyword_timeframes
  timeframes-Harmless db now id form = ensured-Harmless db (get_keyword db id) _ (
      checked-Harmless db (is_empty (chosen_values available_timeframes form.timeframes)) _ _ _
        (update_keyword_timeframes-Harmless db now id _))

  gprops-Harmless :
      (db : Db R) (now id : ℕ) (form : Form)
      → Harmless db (handle_update_keyword_gprops db now id form).1
  unfolding handle_update_keyword_gprops
  gprops-Harmless db now id form = ensured-Harmless db (get_keyword db id) _ (
      checked-Harmless db
        (is_empty (chosen_values (option_values search_property_options) form.gprops)) _ _ _
        (update_keyword_gprops-Harmless db now id _))

  bulk_answer-Harmless :
      (db : Db R) (action : Action) (ts : List String) (target : String) (r : Result ℕ × Db R)
      → Harmless db r.1
      → Harmless db (bulk_answer action ts target r).1
  bulk_answer-Harmless db action ts target (ok n, db') h = h
  bulk_answer-Harmless db action ts target (raise (value_error m), db') h = h
  bulk_answer-Harmless db action ts target (raise (Error.keyword_not_found m), db') h = h
  bulk_answer-Harmless db action ts target (raise (Error.job_not_found m), db') h = h
  bulk_answer-Harmless db action ts target (raise (Error.term_not_found m), db') h = h
  bulk_answer-Harmless db action ts target (raise (Error.integrity_error m), db') h = h
  bulk_answer-Harmless db action ts target (raise (Error.operational_error m), db') h = h
  bulk_answer-Harmless db action ts target (raise (Error.overflow_error m), db') h = h

  bulk_with-Harmless :
      (db : Db R) (now : ℕ) (ids : List ℕ) (ts : List String) (a : Option Action) (target : String)
      → Harmless db (bulk_with db now ids ts a target).1
  bulk_with-Harmless db now ids ts none target = same-Harmless db db refl refl
  bulk_with-Harmless db now ids ts (some a) target =
      bulk_answer-Harmless db a ts target _
        (bulk_adjust_keyword_timeframes-Harmless no_faults db now ids ts a)

  bulk_of-Harmless :
      (db : Db R) (now : ℕ) (form : Form) (ids : Result (List ℕ))
      → Harmless db (bulk_of db now form ids).1
  bulk_of-Harmless db now form (raise e) = same-Harmless db db refl refl
  bulk_of-Harmless db now form (ok ids) = elim (Bool-cases (is_empty ids)) [
    | inl a ↦ rw (a, if◌then◌else◌) (same-Harmless db db refl refl)
    | inr a ↦ elim (Bool-cases (is_empty (chosen_values available_timeframes form.timeframes))) [
      | inl b ↦ rw (a, b, if◌then◌else◌) (same-Harmless db db refl refl)
      | inr b ↦ rw (a, b, if◌then◌else◌) (bulk_with-Harmless db now ids _ _ _)
    ]
  ]

  collect_answer-Harmless :
      (server : Server R) (target : String) (ts gs : List String) (r : Result (List JobRow) × Db R)
      → Harmless server.db r.1
      → Harmless server.db (collect_answer server target ts gs r).1.db
  collect_answer-Harmless server target ts gs (ok jobs, db) h = h
  collect_answer-Harmless server target ts gs (raise e, db) h = h

  collect_keyword-Harmless :
      (server : Server R) (clock : ℕ → ℕ) (m id : ℕ) (url : Option String) (k : Option Keyword)
      → Harmless server.db (collect_keyword_now server clock m id url k).1.db
  collect_keyword-Harmless server clock m id url none = same-Harmless server.db _ refl refl
  collect_keyword-Harmless server clock m id url (some k) =
      collect_answer-Harmless server _ (keyword_timeframes k) (keyword_gprops k) _
        (enqueue_keyword_jobs-Harmless server.db clock id (manual m) _ _)

  all_queued-Harmless :
      (server : Server R) (r : Result (List JobRow) × Db R)
      → Harmless server.db r.1
      → Harmless server.db (all_queued server r).1.db
  all_queued-Harmless server (ok jobs, db) h = h
  all_queued-Harmless server (raise e, db) h = h

  -- No POST request breaks the invariant of the job table, and none makes an active job inactive:
  -- where all rows of a key are active, all rows of it that are left still are.
  pub handle-Harmless :
      (d : Digits) (max_attempts : ℕ) (clock : ℕ → ℕ) (server : Server R) (post : Post)
      → Harmless server.db (handle d max_attempts clock server post).1.db
  unfolding handle handle_add_keyword handle_toggle_keyword handle_update_keyword_remark
      handle_update_alert_remark handle_update_keyword_gprop handle_delete_keyword
      handle_bulk_update_keyword_timeframes handle_collect_one handle_collect_now
      googletrends.Repository.Alerts.update_alert_remark
  handle-Harmless d m clock server (add_keyword term) =
      create_keyword-Harmless server.db (clock 0) term
  handle-Harmless d m clock server (toggle_keyword id) =
      ensured-Harmless server.db (get_keyword server.db id) _
        (toggle_keyword-Harmless server.db (clock 0) id)
  handle-Harmless d m clock server (update_keyword_remark id remark) =
      update_keyword_remark-Harmless server.db (clock 0) id remark
  handle-Harmless d m clock server (update_keyword_timeframes id form) =
      timeframes-Harmless server.db (clock 0) id form
  handle-Harmless d m clock server (bulk_update_keyword_timeframes form) =
      bulk_of-Harmless server.db (clock 0) form (read_ids d form.keyword_ids)
  handle-Harmless d m clock server (update_keyword_gprops id form) =
      gprops-Harmless server.db (clock 0) id form
  handle-Harmless d m clock server (update_keyword_gprop id gprop url) =
      ensured-Harmless server.db (get_keyword server.db id) _
        (update_keyword_gprops-Harmless server.db (clock 0) id (gprop ∷ []))
  handle-Harmless d m clock server (delete_keyword id) =
      ensured-Harmless server.db (get_keyword server.db id) _ (drop_keyword-Harmless server.db id)
  handle-Harmless d m clock server (collect_one id url) =
      collect_keyword-Harmless server clock m id url (get_keyword server.db id)
  handle-Harmless d m clock server collect_now =
      all_queued-Harmless server _
        (create_collection_jobs_for_enabled-Harmless server.db clock (manual m) none)
  handle-Harmless d m clock server (update_alert_remark id remark) =
      same-Harmless server.db _ refl refl
