-- ===== src/Web/Keywords.antt =====
-- googletrends_app/main.py, the handlers of requests that change one keyword. `now` is
-- CURRENT_TIMESTAMP; the number in a path is not negative here, and no keyword has a negative key.
pub mod Cautious
use googletrends.Base.{ℕ, String, Option, none, some, List, [], ◌∷◌, is_empty, if◌then◌else◌}
use googletrends.Trends.{available_timeframes}
use googletrends.Database.{
  Db, Keyword, Alert, Error, value_error, integrity_error, Result, ok, raise,
}
use googletrends.Repository.Keywords.{
  get_keyword, create_keyword, toggle_keyword, update_keyword_remark, update_keyword_timeframes,
  update_keyword_gprops, delete_keyword,
}
use googletrends.Repository.Alerts.{update_alert_remark}
use googletrends.Web.{
  Response, redirect, remark_of, not_found, uncaught, Form, chosen_values, keyword_path, next_path,
  text_of, search_property_options, option_values,
}

abbrev pub home : String
home = "/"

abbrev pub keyword_added : Result Keyword → Response
keyword_added (ok keyword) = redirect home (some "Keyword added.") none
keyword_added (raise (value_error message)) = redirect home none (some message)
keyword_added (raise (integrity_error message)) =
    redirect home none (some "Keyword already exists.")
keyword_added (raise e) = uncaught e

abbrev pub keyword_remark : Option Keyword → Response
keyword_remark none = not_found "Keyword not found."
keyword_remark (some keyword) = remark_of keyword.remark

-- `updated is None`
abbrev pub gprop_updated : Option Keyword → String → Response
gprop_updated none target = not_found "Keyword not found."
gprop_updated (some keyword) target = redirect target (some "Keyword search property updated.") none

module _ {R : Type 0} where
  -- `ensure_keyword` in front of the rest of a handler.
  abbrev pub ensured : Db R → Option Keyword → Response × Db R → Response × Db R
  ensured db none rest = (not_found "Keyword not found.", db)
  ensured db (some keyword) rest = rest

  unfoldable pub handle_add_keyword : Db R → ℕ → String → Response × Db R
  handle_add_keyword db now term =
      let (result, db') = create_keyword db now term in (keyword_added result, db')

  unfoldable pub handle_toggle_keyword : Db R → ℕ → ℕ → Response × Db R
  handle_toggle_keyword db now keyword_id =
      ensured db (get_keyword db keyword_id)
        (redirect home (some "Keyword updated.") none, toggle_keyword db now keyword_id)

  unfoldable pub handle_update_keyword_remark : Db R → ℕ → ℕ → String → Response × Db R
  handle_update_keyword_remark db now keyword_id remark =
      let (updated, db') = update_keyword_remark db now keyword_id remark in
      (keyword_remark updated, db')

  abbrev pub alert_remark : Option (Alert R × String) → Response
  alert_remark none = not_found "Alert not found."
  alert_remark (some (alert, term)) = remark_of alert.remark

  unfoldable pub handle_update_alert_remark : Db R → ℕ → String → Response × Db R
  handle_update_alert_remark db alert_id remark =
      let (updated, db') = update_alert_remark db alert_id remark in (alert_remark updated, db')

  unfoldable pub handle_update_keyword_timeframes : Db R → ℕ → ℕ → Form → Response × Db R
  unfolding chosen_values next_path
  handle_update_keyword_timeframes db now keyword_id form =
      let selected = chosen_values available_timeframes form.timeframes in
      ensured db (get_keyword db keyword_id) (
        if is_empty selected
        then (
          redirect (keyword_path keyword_id) none (some "At least one timeframe must be selected."),
          db,
        )
        else (
          redirect (next_path (text_of form.next_url) (keyword_path keyword_id))
              (some "Keyword timeframes updated.") none,
          (update_keyword_timeframes db now keyword_id selected).1,
        ))

  unfoldable pub handle_update_keyword_gprops : Db R → ℕ → ℕ → Form → Response × Db R
  unfolding chosen_values next_path
  handle_update_keyword_gprops db now keyword_id form =
      let selected = chosen_values (option_values search_property_options) form.gprops in
      ensured db (get_keyword db keyword_id) (
        if is_empty selected
        then (
          redirect (keyword_path keyword_id) none
              (some "At least one source type must be selected."),
          db,
        )
        else (
          redirect (next_path (text_of form.next_url) (keyword_path keyword_id))
              (some "Keyword search sources updated.") none,
          (update_keyword_gprops db now keyword_id selected).1,
        ))

  unfoldable pub handle_update_keyword_gprop :
      Db R → ℕ → ℕ → String → Option String → Response × Db R
  unfolding next_path
  handle_update_keyword_gprop db now keyword_id gprop next_url =
      let (updated, db') = update_keyword_gprops db now keyword_id (gprop ∷ []) in
      ensured db (get_keyword db keyword_id)
        (gprop_updated updated (next_path next_url (keyword_path keyword_id)), db')

  unfoldable pub handle_delete_keyword : Db R → ℕ → Response × Db R
  handle_delete_keyword db keyword_id =
      ensured db (get_keyword db keyword_id)
        (redirect home (some "Keyword deleted.") none, delete_keyword db keyword_id)
