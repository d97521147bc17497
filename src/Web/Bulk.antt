-- ===== src/Web/Bulk.antt =====
-- googletrends_app/main.py, bulk_update_keyword_timeframes. Python's tables of Unicode digits are an
-- argument: which code points `str.isdigit` accepts, and which are decimal digits with a value. SQLite
-- takes the statements of the transaction.
use googletrends.Base.{
  decimal, ℕ, ◌+◌, ◌*◌, String, Bool, true, not, ◌&&◌, Option, none, some, List, [], ◌∷◌, codes,
  is_empty, append, ◌==◌, if◌then◌else◌,
}
use googletrends.Trends.{available_timeframes}
use googletrends.Database.{Db, value_error, Result, ok, raise}
use googletrends.Repository.Keywords.{
  Action, add, remove, no_faults, bulk_adjust_keyword_timeframes,
}
use googletrends.Web.{
  Response, redirect, uncaught, FormValue, text, upload, Form, chosen_values, next_path, text_of,
  comma_joined,
}

pub record Digits : Type 0 where
  pub is_digit : ℕ → Bool
  pub decimal_value : ℕ → Option ℕ

abbrev all_digits : Digits → List ℕ → Bool
all_digits d [] = true
all_digits d (c ∷ cs) = d.is_digit c && all_digits d cs

-- `value.isdigit()`
abbrev pub is_digit_text : Digits → String → Bool
is_digit_text d s = not (is_empty (codes s)) && all_digits d (codes s)

-- `int` of a text that has digits only: every one of them must be decimal.
abbrev pub number_from : Digits → ℕ → List ℕ → Option ℕ
number_from d n [] = some n
number_from d n (c ∷ cs) = elim (d.decimal_value c) [
  | none ↦ none
  | some v ↦ number_from d (10 * n + v) cs
]

abbrev pub cons_id : ℕ → Result (List ℕ) → Result (List ℕ)
cons_id n (ok ids) = ok (n ∷ ids)
cons_id n (raise e) = raise e

abbrev pub read_id : Option ℕ → String → Result (List ℕ) → Result (List ℕ)
read_id none value later =
    raise (value_error (append "invalid literal for int() with base 10: '" (append value "'")))
read_id (some n) value later = cons_id n later

-- The loop over the field `keyword_ids`.
unfoldable pub read_ids : Digits → List FormValue → Result (List ℕ)
read_ids d [] = ok []
read_ids d (upload ∷ rest) = read_ids d rest
read_ids d (text value ∷ rest) =
    let later = read_ids d rest in
    if is_digit_text d value then read_id (number_from d 0 (codes value)) value later else later

-- `action not in {"add", "remove"}`
abbrev pub action_of : Option String → Option Action
action_of none = none
action_of (some a) = if a == "add" then some add else if a == "remove" then some remove else none

abbrev pub verb : Action → String
verb add = "added to"
verb _ = "removed from"

abbrev pub home_error : String → Response
home_error message = redirect "/" none (some message)

module _ {R : Type 0} where
  abbrev pub bulk_answer : Action → List String → String → Result ℕ × Db R → Response × Db R
  bulk_answer action timeframes target (ok updated, db) = (
    redirect target
        (some (
          append (comma_joined timeframes) (
            append " "
              (append (verb action) (append " " (append (decimal updated) " keyword(s)."))))))
        none,
    db,
  )
  bulk_answer action timeframes target (raise (value_error message), db) = (home_error message, db)
  bulk_answer action timeframes target (raise e, db) = (uncaught e, db)

  abbrev pub bulk_with : Db R → ℕ → List ℕ → List String → Option Action → String → Response × Db R
  bulk_with db now ids timeframes none target = (home_error "Please choose add or remove.", db)
  bulk_with db now ids timeframes (some action) target =
      bulk_answer action timeframes target
        (bulk_adjust_keyword_timeframes no_faults db now ids timeframes action)

  abbrev pub bulk_of : Db R → ℕ → Form → Result (List ℕ) → Response × Db R
  bulk_of db now form (raise e) = (uncaught e, db)
  bulk_of db now form (ok ids) =
      let timeframes = chosen_values available_timeframes form.timeframes in
      if is_empty ids
      then (home_error "Please select at least one keyword.", db)
      else if is_empty timeframes
      then (home_error "Please choose at least one valid timeframe.", db)
      else bulk_with db now ids timeframes (action_of (text_of form.action))
          (next_path (text_of form.next_url) "/")

  unfoldable pub handle_bulk_update_keyword_timeframes : Digits → Db R → ℕ → Form → Response × Db R
  unfolding read_ids chosen_values next_path
  handle_bulk_update_keyword_timeframes d db now form =
      bulk_of db now form (read_ids d form.keyword_ids)
