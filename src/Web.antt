-- ===== src/Web.antt =====
-- googletrends_app/main.py, what the handlers of requests share: their responses, the form, the
-- targets of redirects and the labels of search properties.
pub mod Keywords
pub mod Bulk
pub mod Collect
pub mod Routes
pub mod Charts
pub mod Pages
use googletrends.Base.{
  decimal, ℕ, String, Bool, true, false, not, ◌&&◌, Option, none, some, List, [], ◌∷◌, is_prefix,
  append, contains, map, is_blank, ◌==◌, if◌then◌else◌,
}
use googletrends.Database.{Db, Error}
use googletrends.Trends.{default_gprop}

-- What a handler answers: a call of `redirect` with its path, message and error; the remark of a
-- JSON answer; HTTPException with status 404; or an exception that no handler catches, status 500.
pub data Response : Type 0 where
  redirect : String → Option String → Option String → Response
  remark_of : String → Response
  not_found : String → Response
  uncaught : Error → Response

-- `app.state.worker_lock` and the database behind the connection.
pub record Server (R : Type 0) : Type 0 where
  pub db : Db R
  pub worker_held : Bool

-- A value of a form: a text, or an uploaded file.
pub data FormValue : Type 0 where
  text : String → FormValue
  upload : FormValue

-- `form.getlist` of the fields that the handlers read, and `form.get` of the others.
pub record Form : Type 0 where
  pub timeframes : List FormValue
  pub gprops : List FormValue
  pub keyword_ids : List FormValue
  pub action : Option FormValue
  pub next_url : Option FormValue

-- `[value for value in values if isinstance(value, str) and value in available]`
unfoldable pub chosen_values : List String → List FormValue → List String
chosen_values available [] = []
chosen_values available (upload ∷ rest) = chosen_values available rest
chosen_values available (text value ∷ rest) =
    let others = chosen_values available rest in
    if contains value available then value ∷ others else others

-- f"/keywords/{keyword_id}"
abbrev pub keyword_path : ℕ → String
keyword_path keyword_id = append "/keywords/" (decimal keyword_id)

-- `next_url.startswith("/") and not next_url.startswith("//")`
abbrev pub is_local : String → Bool
is_local url = is_prefix "/" url && not (is_prefix "//" url)

-- The target after a change: the given `next_url` where it is a local path.
unfoldable pub next_path : Option String → String → String
next_path none default_target = default_target
next_path (some url) default_target = if is_local url then url else default_target

-- `isinstance(value, str)`
abbrev pub text_of : Option FormValue → Option String
text_of (some (text value)) = some value
text_of _ = none

-- SEARCH_PROPERTY_OPTIONS
abbrev pub search_property_options : List (String × String)
search_property_options =
    (default_gprop, "网页搜索")
    ∷ ("youtube", "YouTube")
    ∷ ("news", "新闻")
    ∷ ("images", "图片")
    ∷ ("froogle", "Shopping")
    ∷ []

abbrev pub option_values : List (String × String) → List String
option_values [] = []
option_values ((value, label) ∷ rest) = value ∷ option_values rest

abbrev pub label_in : List (String × String) → String → String
label_in [] item = if is_blank item then "网页搜索" else item
label_in ((value, label) ∷ rest) item = if value == item then label else label_in rest item

-- `SEARCH_PROPERTY_LABELS.get(item, item or "网页搜索")`
unfoldable pub search_property_label : String → String
search_property_label item = label_in search_property_options item

abbrev pub comma_joined : List String → String
comma_joined [] = ""
comma_joined (x ∷ []) = x
comma_joined (x ∷ y ∷ rest) = append x (append ", " (comma_joined (y ∷ rest)))
