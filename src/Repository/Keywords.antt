-- ===== src/Repository/Keywords.antt =====
-- googletrends_app/repository.py, the keywords: creation, switches, windows and search properties
-- with the queued jobs that they end, the bulk change, and the deletion with its cascade.
pub mod Monitoring
pub mod Harmless
pub mod Bulk
use googletrends.Base.{
  ℕ, ◌+◌, String, Bool, true, false, not, ◌&&◌, Option, none, some, List, [], ◌∷◌, ◌++◌, map,
  nat_eq, select, first_where, any_of, contains, is_empty, is_blank, is_some, strip, nocase_eq,
  append, length, ◌==◌, if◌then◌else◌,
}
use googletrends.Trends.{
  available_timeframes, default_gprop, monitored_timeframes, parse_timeframes, parse_gprops,
  serialize_timeframes, serialize_gprops,
}
use googletrends.Trends.Codec.{join, csv_has, remove_duplicates}
use googletrends.Database.{
  Db, Keyword, Run, Job, Error, value_error, term_not_found, integrity_error, Result, ok, raise,
}
use googletrends.Database.Table.{update_where, delete_where}
use googletrends.Repository.Jobs.{find_keyword, delete_jobs, is_queued, opt_eq}

unfoldable pub keyword_timeframes : Keyword → List String
keyword_timeframes keyword = parse_timeframes (some keyword.timeframes)

unfoldable pub keyword_gprops : Keyword → List String
keyword_gprops keyword = parse_gprops (some keyword.gprop)

abbrev pub head_or : String → List String → String
head_or default_item [] = default_item
head_or default_item (x ∷ xs) = x

-- `parse_gprops(…)[0]`; the list is never empty.
unfoldable pub keyword_gprop : Keyword → String
unfolding keyword_gprops
keyword_gprop keyword = head_or default_gprop (keyword_gprops keyword)

abbrev pub new_keyword : ℕ → ℕ → String → Keyword
new_keyword id now term = record {
  id = id;
  term = term;
  enabled = true;
  remark = "";
  gprop = default_gprop;
  timeframes = join monitored_timeframes;
  created_at = now;
  updated_at = now;
}

-- `list(dict.fromkeys(keyword_ids))`
abbrev pub has_id : ℕ → List ℕ → Bool
has_id k xs = any_of (λ x. nat_eq k x) xs

unfoldable pub unique_from : List ℕ → List ℕ → List ℕ
unique_from kept [] = kept
unique_from kept (x ∷ xs) = unique_from (if has_id x kept then kept else kept ++ x ∷ []) xs

pub data Action : Type 0 where
  add remove : Action
  other : String → Action

-- The loop that adds the windows which are not selected yet.
unfoldable pub add_timeframes : List String → List String → List String
add_timeframes selected [] = selected
add_timeframes selected (t ∷ rest) =
    add_timeframes (if contains t selected then selected else selected ++ t ∷ []) rest

unfoldable pub adjusted : Action → List String → List String → List String
unfolding add_timeframes
adjusted add timeframes selected = add_timeframes selected timeframes
adjusted _ timeframes selected = select (λ item. not (contains item timeframes)) selected

-- The WHERE clause of the deletion: the keyword's queued jobs whose window is not selected.
abbrev pub dropped_timeframe : ℕ → String → Job → Bool
dropped_timeframe keyword_id selected j =
    opt_eq j.keyword_id keyword_id && is_queued j.status && not (csv_has selected j.timeframe)

abbrev pub is_action : Action → Bool
is_action add = true
is_action remove = true
is_action (other _) = false

abbrev pub clear_job : ℕ → Job → Job
clear_job keyword_id j =
    if opt_eq j.keyword_id keyword_id then record j { keyword_id = none } else j

abbrev pub clear_run : ℕ → Run → Run
clear_run keyword_id r =
    if opt_eq r.keyword_id keyword_id then record r { keyword_id = none } else r

-- What SQLite raises in a transaction, if it does: at its BEGIN, at its statements in turn, and at
-- its COMMIT.
pub record WriteFaults : Type 0 where
  pub at_begin : Option Error
  pub at_statement : ℕ → Option Error
  pub at_commit : Option Error

abbrev pub no_faults : WriteFaults
no_faults = record { at_begin = none; at_statement = λ i. none; at_commit = none }

-- A transaction that has begun: the database that a rollback restores, and what is written so far.
pub record Transaction (R : Type 0) : Type 0 where
  pub saved : Db R
  pub written : Db R

module _ {R : Type 0} where
  unfoldable pub get_keyword : Db R → ℕ → Option Keyword
  unfolding find_keyword
  get_keyword db keyword_id = find_keyword db keyword_id

  unfoldable pub get_keyword_by_term : Db R → String → Result Keyword
  get_keyword_by_term db term = elim (first_where (λ k. nocase_eq k.term term) db.keywords) [
    | none ↦ raise (term_not_found term)
    | some k ↦ ok k
  ]

  -- The INSERT, whose UNIQUE column compares without regard to case.
  unfoldable pub insert_keyword : Db R → ℕ → String → Result Keyword × Db R
  unfolding get_keyword_by_term
  insert_keyword db now cleaned =
      if any_of (λ k. nocase_eq k.term cleaned) db.keywords
      then (raise (integrity_error "UNIQUE constraint failed: keywords.term"), db)
      else (let db' = record db {
        keywords = db.keywords ++ new_keyword db.next_keyword now cleaned ∷ [];
        next_keyword = db.next_keyword + 1;
      } in
          (get_keyword_by_term db' cleaned, db'))

  unfoldable pub create_keyword : Db R → ℕ → String → Result Keyword × Db R
  unfolding insert_keyword
  create_keyword db now term =
      let cleaned = strip term in
      if is_blank cleaned
      then (raise (value_error "Keyword cannot be empty."), db)
      else insert_keyword db now cleaned

  -- `ORDER BY id`: rows stand in the order of their keys, which only grow.
  unfoldable pub list_enabled_keywords : Db R → List Keyword
  list_enabled_keywords db = select (λ k. k.enabled) db.keywords

  abbrev pub update_keyword : ℕ → (Keyword → Keyword) → Db R → Db R
  update_keyword keyword_id f db = record db {
    keywords = update_where (λ k. nat_eq k.id keyword_id) f db.keywords;
  }

  unfoldable pub set_keyword_enabled : Db R → ℕ → ℕ → Bool → Db R
  set_keyword_enabled db now keyword_id enabled =
      update_keyword keyword_id (λ k. record k { enabled = enabled; updated_at = now }) db

  unfoldable pub toggle_keyword : Db R → ℕ → ℕ → Db R
  toggle_keyword db now keyword_id =
      update_keyword keyword_id (λ k. record k { enabled = not k.enabled; updated_at = now }) db

  unfoldable pub update_keyword_remark : Db R → ℕ → ℕ → String → Option Keyword × Db R
  update_keyword_remark db now keyword_id remark =
      let db' =
        update_keyword keyword_id (λ k. record k { remark = strip remark; updated_at = now }) db in
      (find_keyword db' keyword_id, db')

  abbrev pub set_timeframes : Db R → ℕ → ℕ → String → Db R
  set_timeframes db now keyword_id selected =
      update_keyword keyword_id (λ k. record k { timeframes = selected; updated_at = now }) db

  unfoldable pub write_keyword_timeframes : Db R → ℕ → ℕ → String → Db R
  unfolding delete_jobs
  write_keyword_timeframes db now keyword_id selected =
      delete_jobs (dropped_timeframe keyword_id selected)
        (set_timeframes db now keyword_id selected)

  unfoldable pub update_keyword_timeframes : Db R → ℕ → ℕ → List String → Option Keyword × Db R
  unfolding write_keyword_timeframes
  update_keyword_timeframes db now keyword_id timeframes =
      let db' = write_keyword_timeframes db now keyword_id (serialize_timeframes timeframes) in
      (find_keyword db' keyword_id, db')

  -- The loop of `bulk_adjust_keyword_timeframes` that plans the writes: it skips unknown keywords,
  -- and raises where no window would be left.
  unfoldable pub plan_targets : Db R → Action → List String → List ℕ → Result (List (ℕ × String))
  unfolding adjusted
  plan_targets db action timeframes [] = ok []
  plan_targets db action timeframes (keyword_id ∷ rest) =
      let later = plan_targets db action timeframes rest in
      elim (find_keyword db keyword_id) [
        | none ↦ later
        | some keyword ↦
            let selected = adjusted action timeframes (keyword_timeframes keyword) in
            if is_empty selected
            then raise (
                value_error
                  (append "Keyword " (append keyword.term " must keep at least one timeframe.")))
            else elim later [
              | ok targets ↦ ok ((keyword_id, serialize_timeframes selected) ∷ targets)
              | raise e ↦ raise e
            ]
      ]

  abbrev pub begin : Db R → Transaction R
  begin db = record { saved = db; written = db }

  abbrev pub commit : Transaction R → Db R
  commit t = t.written

  abbrev pub rollback : Transaction R → Db R
  rollback t = t.saved

  -- The loop inside the transaction: for each target the UPDATE and the DELETE of
  -- `_write_keyword_timeframes`, the first that SQLite refuses being the last.
  unfoldable pub write_targets :
      (ℕ → Option Error) → Transaction R → ℕ → List (ℕ × String) → Result Unit × Transaction R
  unfolding write_keyword_timeframes
  write_targets faults t now [] = (ok tt, t)
  write_targets faults t now ((keyword_id, selected) ∷ rest) =
      let updated = record t { written = set_timeframes t.written now keyword_id selected } in
      let both = record t {
        written = write_keyword_timeframes t.written now keyword_id selected;
      } in
      elim (faults 0) [
        | some e ↦ (raise e, t)
        | none ↦ elim (faults 1) [
          | some e ↦ (raise e, updated)
          | none ↦ write_targets (λ i. faults (i + 2)) both now rest
        ]
      ]

  -- `conn.commit()` and the `except` block
  abbrev pub end_transaction : ℕ → Option Error → Result Unit × Transaction R → Result ℕ × Db R
  end_transaction updated none (ok _, t) = (ok updated, commit t)
  end_transaction updated (some e) (ok _, t) = (raise e, rollback t)
  end_transaction updated commit_fault (raise e, t) = (raise e, rollback t)

  abbrev pub transact : WriteFaults → Db R → ℕ → List (ℕ × String) → Option Error → Result ℕ × Db R
  transact faults db now targets (some e) = (raise e, db)
  transact faults db now targets none =
      end_transaction (length targets) faults.at_commit
        (write_targets faults.at_statement (begin db) now targets)

  abbrev pub write_plan : WriteFaults → Db R → ℕ → Result (List (ℕ × String)) → Result ℕ × Db R
  write_plan faults db now (ok []) = (ok 0, db)
  write_plan faults db now (ok (target ∷ rest)) =
      transact faults db now (target ∷ rest) faults.at_begin
  write_plan faults db now (raise e) = (raise e, db)

  unfoldable pub bulk_adjust_keyword_timeframes :
      WriteFaults → Db R → ℕ → List ℕ → List String → Action → Result ℕ × Db R
  unfolding unique_from plan_targets write_targets
  bulk_adjust_keyword_timeframes faults db now keyword_ids timeframes action =
      let selected = select (λ t. contains t available_timeframes) (remove_duplicates timeframes) in
      if not (is_action action)
      then (raise (value_error "Invalid action."), db)
      else if is_empty selected
      then (raise (value_error "Please choose at least one valid timeframe."), db)
      else write_plan faults db now (plan_targets db action selected (unique_from [] keyword_ids))

  -- The WHERE clause of the deletion after a change of search properties.
  abbrev pub dropped_gprop : Db R → ℕ → Job → Bool
  dropped_gprop db keyword_id j =
      opt_eq j.keyword_id keyword_id
      && is_queued j.status
      && not (any_of (λ k. nat_eq k.id keyword_id && csv_has k.gprop j.gprop) db.keywords)

  unfoldable pub update_keyword_gprops : Db R → ℕ → ℕ → List String → Option Keyword × Db R
  unfolding delete_jobs
  update_keyword_gprops db now keyword_id gprops =
      let db' =
        update_keyword keyword_id
          (λ k. record k { gprop = serialize_gprops gprops; updated_at = now }) db in
      let db'' = delete_jobs (dropped_gprop db' keyword_id) db' in
      (find_keyword db'' keyword_id, db'')

  -- ON DELETE SET NULL for runs and jobs, ON DELETE CASCADE for points and alerts.
  unfoldable pub delete_keyword : Db R → ℕ → Db R
  delete_keyword db keyword_id = record db {
    keywords = delete_where (λ k. nat_eq k.id keyword_id) db.keywords;
    runs = map (clear_run keyword_id) db.runs;
    jobs = map (clear_job keyword_id) db.jobs;
    points = delete_where (λ p. nat_eq p.keyword_id keyword_id) db.points;
    alerts = delete_where (λ a. nat_eq a.keyword_id keyword_id) db.alerts;
  }
