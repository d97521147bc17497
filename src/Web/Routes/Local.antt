-- ===== src/Web/Routes/Local.antt =====
-- googletrends_app/main.py, the requests that change the state: the paths of their redirects.
use googletrends.Base.{
  ℕ, ◌≡◌, refl, String, Bool, true, false, Option, none, some, List, is_empty, Bool-cases, inl, inr,
  if◌then◌else◌,
}
use googletrends.Trends.{available_timeframes}
use googletrends.Database.{
  Db, Keyword, Alert, Error, value_error, integrity_error, Result, ok, raise,
}
use googletrends.Repository.Jobs.{JobRow}
use googletrends.Repository.Keywords.{
  Action, no_faults, get_keyword, keyword_timeframes, keyword_gprops,
  bulk_adjust_keyword_timeframes,
}
use googletrends.Collector.Enqueue.{enqueue_keyword_jobs, create_collection_jobs_for_enabled}
use googletrends.Web.{
  Response, redirect, remark_of, not_found, uncaught, Server, Form, chosen_values, next_path,
  text_of, is_local, keyword_path, search_property_options, option_values,
}
use googletrends.Web.Keywords.{
  keyword_added, keyword_remark, alert_remark, gprop_updated, ensured, handle_add_keyword,
  handle_toggle_keyword, handle_update_keyword_remark, handle_update_alert_remark,
  handle_update_keyword_timeframes, handle_update_keyword_gprops, handle_update_keyword_gprop,
  handle_delete_keyword,
}
use googletrends.Web.Bulk.{
  Digits, read_ids, action_of, bulk_answer, bulk_with, bulk_of,
  handle_bulk_update_keyword_timeframes,
}
use googletrends.Web.Collect.{
  manual, collect_answer, collect_keyword_now, all_queued, handle_collect_one, handle_collect_now,
}
use googletrends.Web.Routes.{
  Post, add_keyword, toggle_keyword, update_keyword_remark, update_keyword_timeframes,
  bulk_update_keyword_timeframes, update_keyword_gprops, update_keyword_gprop, delete_keyword,
  collect_one, collect_now, update_alert_remark, handle,
}

-- A redirect goes to a path of this server.
abbrev pub GoesToLocal : Response → Type 0
GoesToLocal (redirect target message error) = is_local target ≡ true
GoesToLocal (remark_of remark) = Unit
GoesToLocal (not_found detail) = Unit
GoesToLocal (uncaught e) = Unit

next_path_local :
    (url : Option String) (default_target : String)
    → is_local default_target ≡ true
    → is_local (next_path url default_target) ≡ true
unfolding next_path
next_path_local none t h = h
next_path_local (some url) t h = elim (Bool-cases (is_local url)) [
  | inl l ↦ rw (l, if◌then◌else◌) l
  | inr l ↦ rw (l, if◌then◌else◌) h
]

keyword_target : (url : Option String) (id : ℕ) → is_local (next_path url (keyword_path id)) ≡ true
keyword_target url id = next_path_local url (keyword_path id) refl

added_local : (r : Result Keyword) → GoesToLocal (keyword_added r)
added_local (ok k) = refl
added_local (raise (value_error m)) = refl
added_local (raise (integrity_error m)) = refl
added_local (raise (Error.keyword_not_found m)) = tt
added_local (raise (Error.job_not_found m)) = tt
added_local (raise (Error.term_not_found m)) = tt
added_local (raise (Error.operational_error m)) = tt
added_local (raise (Error.overflow_error m)) = tt

remark_local : (k : Option Keyword) → GoesToLocal (keyword_remark k)
remark_local none = tt
remark_local (some k) = tt

gprop_local :
    (k : Option Keyword) (target : String)
    → is_local target ≡ true
    → GoesToLocal (gprop_updated k target)
gprop_local none target h = tt
gprop_local (some k) target h = h

module _ {R : Type 0} where
  ensured_local :
      (db : Db R) (k : Option Keyword) (rest : Response × Db R)
      → GoesToLocal rest.0
      → GoesToLocal (ensured db k rest).0
  ensured_local db none rest h = tt
  ensured_local db (some k) rest h = h

  checked_local :
      (refused : Bool) (a b : Response × Db R)
      → GoesToLocal a.0
      → GoesToLocal b.0
      → GoesToLocal (if refused then a else b).0
  checked_local true a b h k = h
  checked_local false a b h k = k

  alert_local : (a : Option (Alert R × String)) → GoesToLocal (alert_remark a)
  alert_local none = tt
  alert_local (some (a, term)) = tt

  bulk_answer_local :
      (action : Action) (ts : List String) (target : String) (r : Result ℕ × Db R)
      → is_local target ≡ true
      → GoesToLocal (bulk_answer action ts target r).0
  bulk_answer_local action ts target (ok n, db) h = h
  bulk_answer_local action ts target (raise (value_error m), db) h = refl
  bulk_answer_local action ts target (raise (Error.keyword_not_found m), db) h = tt
  bulk_answer_local action ts target (raise (Error.job_not_found m), db) h = tt
  bulk_answer_local action ts target (raise (Error.term_not_found m), db) h = tt
  bulk_answer_local action ts target (raise (integrity_error m), db) h = tt
  bulk_answer_local action ts target (raise (Error.operational_error m), db) h = tt
  bulk_answer_local action ts target (raise (Error.overflow_error m), db) h = tt

  bulk_with_local :
      (db : Db R) (now : ℕ) (ids : List ℕ) (ts : List String) (a : Option Action) (target : String)
      → is_local target ≡ true
      → GoesToLocal (bulk_with db now ids ts a target).0
  bulk_with_local db now ids ts none target h = refl
  bulk_with_local db now ids ts (some a) target h =
      bulk_answer_local a ts target (bulk_adjust_keyword_timeframes no_faults db now ids ts a) h

  bulk_of_local :
      (db : Db R) (now : ℕ) (form : Form) (ids : Result (List ℕ))
      → GoesToLocal (bulk_of db now form ids).0
  bulk_of_local db now form (raise e) = tt
  bulk_of_local db now form (ok ids) =
      let ts = chosen_values available_timeframes form.timeframes in
      checked_local (is_empty ids) _ _ refl (
        checked_local (is_empty ts) _ _ refl (
          bulk_with_local db now ids ts (action_of (text_of form.action)) _
            (next_path_local (text_of form.next_url) "/" refl)))

  collect_local :
      (server : Server R) (target : String) (ts gs : List String) (r : Result (List JobRow) × Db R)
      → is_local target ≡ true
      → GoesToLocal (collect_answer server target ts gs r).0
  collect_local server target ts gs (ok jobs, db) h = h
  collect_local server target ts gs (raise e, db) h = tt

  one_local :
      (server : Server R) (clock : ℕ → ℕ) (m id : ℕ) (url : Option String) (k : Option Keyword)
      → GoesToLocal (collect_keyword_now server clock m id url k).0
  one_local server clock m id url none = tt
  one_local server clock m id url (some k) =
      collect_local server _ (keyword_timeframes k) (keyword_gprops k)
        (enqueue_keyword_jobs server.db clock id (manual m) _ _) (keyword_target url id)

  all_local :
      (server : Server R) (r : Result (List JobRow) × Db R) → GoesToLocal (all_queued server r).0
  all_local server (ok jobs, db) = refl
  all_local server (raise e, db) = tt

  -- Every path that a POST handler gives to redirect begins with exactly one slash, whatever the
  -- form names as the page to return to.
  pub handle-GoesToLocal :
      (d : Digits) (max_attempts : ℕ) (clock : ℕ → ℕ) (server : Server R) (post : Post)
      → GoesToLocal (handle d max_attempts clock server post).0
  unfolding handle handle_add_keyword handle_toggle_keyword handle_update_keyword_remark
      handle_update_alert_remark handle_update_keyword_timeframes handle_update_keyword_gprops
      handle_update_keyword_gprop handle_delete_keyword handle_bulk_update_keyword_timeframes
      handle_collect_one handle_collect_now
  handle-GoesToLocal d m clock server (add_keyword term) = added_local _
  handle-GoesToLocal d m clock server (toggle_keyword id) =
      ensured_local server.db (get_keyword server.db id) _ refl
  handle-GoesToLocal d m clock server (update_keyword_remark id remark) = remark_local _
  handle-GoesToLocal d m clock server (update_keyword_timeframes id form) =
      ensured_local server.db (get_keyword server.db id) _ (
        checked_local (is_empty (chosen_values available_timeframes form.timeframes)) _ _ refl
          (keyword_target (text_of form.next_url) id))
  handle-GoesToLocal d m clock server (bulk_update_keyword_timeframes form) =
      bulk_of_local server.db (clock 0) form (read_ids d form.keyword_ids)
  handle-GoesToLocal d m clock server (update_keyword_gprops id form) =
      ensured_local server.db (get_keyword server.db id) _ (
        checked_local (is_empty (chosen_values (option_values search_property_options) form.gprops))
          _ _ refl (keyword_target (text_of form.next_url) id))
  handle-GoesToLocal d m clock server (update_keyword_gprop id gprop url) =
      ensured_local server.db (get_keyword server.db id) _
        (gprop_local _ (next_path url (keyword_path id)) (keyword_target url id))
  handle-GoesToLocal d m clock server (delete_keyword id) =
      ensured_local server.db (get_keyword server.db id) _ refl
  handle-GoesToLocal d m clock server (collect_one id url) =
      one_local server clock m id url (get_keyword server.db id)
  handle-GoesToLocal d m clock server collect_now =
      all_local server (create_collection_jobs_for_enabled server.db clock (manual m) none)
  handle-GoesToLocal d m clock server (update_alert_remark id remark) = alert_local _
