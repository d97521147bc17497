-- ===== src/Web/Routes.antt =====
-- googletrends_app/main.py, the requests that change the state, and the handlers that the router
-- gives them to. The pages that only read are not among them.
pub mod Invariant
pub mod Errors
pub mod Local
pub mod Held
use googletrends.Base.{ℕ, String, Option, List}
use googletrends.Database.{Db}
use googletrends.Web.{Response, Server, Form}
use googletrends.Web.Keywords.{
  handle_add_keyword, handle_toggle_keyword, handle_update_keyword_remark,
  handle_update_alert_remark, handle_update_keyword_timeframes, handle_update_keyword_gprops,
  handle_update_keyword_gprop, handle_delete_keyword,
}
use googletrends.Web.Bulk.{Digits, handle_bulk_update_keyword_timeframes}
use googletrends.Web.Collect.{handle_collect_one, handle_collect_now}

-- `@router.post(…)` with the values of the path and of the form.
pub data Post : Type 0 where
  add_keyword : String → Post
  toggle_keyword : ℕ → Post
  update_keyword_remark : ℕ → String → Post
  update_keyword_timeframes : ℕ → Form → Post
  bulk_update_keyword_timeframes : Form → Post
  update_keyword_gprops : ℕ → Form → Post
  update_keyword_gprop : ℕ → String → Option String → Post
  delete_keyword : ℕ → Post
  collect_one : ℕ → Option String → Post
  collect_now : Post
  update_alert_remark : ℕ → String → Post

module _ {R : Type 0} where
  abbrev pub on_db : Server R → Response × Db R → Response × Server R
  on_db server (response, db) = (response, record server { db = db })

  -- `clock` gives CURRENT_TIMESTAMP for each statement; `max_attempts` is `app.state.max_attempts`.
  unfoldable pub handle : Digits → ℕ → (ℕ → ℕ) → Server R → Post → Response × Server R
  handle d max_attempts clock server (add_keyword term) =
      on_db server (handle_add_keyword server.db (clock 0) term)
  handle d max_attempts clock server (toggle_keyword id) =
      on_db server (handle_toggle_keyword server.db (clock 0) id)
  handle d max_attempts clock server (update_keyword_remark id remark) =
      on_db server (handle_update_keyword_remark server.db (clock 0) id remark)
  handle d max_attempts clock server (update_keyword_timeframes id form) =
      on_db server (handle_update_keyword_timeframes server.db (clock 0) id form)
  handle d max_attempts clock server (bulk_update_keyword_timeframes form) =
      on_db server (handle_bulk_update_keyword_timeframes d server.db (clock 0) form)
  handle d max_attempts clock server (update_keyword_gprops id form) =
      on_db server (handle_update_keyword_gprops server.db (clock 0) id form)
  handle d max_attempts clock server (update_keyword_gprop id gprop next_url) =
      on_db server (handle_update_keyword_gprop server.db (clock 0) id gprop next_url)
  handle d max_attempts clock server (delete_keyword id) =
      on_db server (handle_delete_keyword server.db id)
  handle d max_attempts clock server (collect_one id next_url) =
      handle_collect_one server clock max_attempts id next_url
  handle d max_attempts clock server collect_now = handle_collect_now server clock max_attempts
  handle d max_attempts clock server (update_alert_remark id remark) =
      on_db server (handle_update_alert_remark server.db id remark)
