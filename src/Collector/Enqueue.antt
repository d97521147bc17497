-- ===== src/Collector/Enqueue.antt =====
-- googletrends_app/collector.py and repository.py, the creation of jobs for one keyword and for all
-- enabled keywords. The clock gives CURRENT_TIMESTAMP for each insertion in turn.
pub mod Invariant
pub mod Total
use googletrends.Base.{
  ℕ, String, Option, none, some, List, [], ◌∷◌, ◌++◌, select, contains, is_empty, if◌then◌else◌,
}
use googletrends.Database.{Db, Keyword, keyword_not_found, Result, ok, raise}
use googletrends.Repository.Jobs.{JobRow, create_collection_job}
use googletrends.Repository.Keywords.{
  get_keyword, list_enabled_keywords, keyword_timeframes, keyword_gprops,
}
use googletrends.Collector.Evaluate.{later, cons_result}

-- The arguments that all jobs of one call share.
pub record Request : Type 0 where
  pub source : String
  pub max_attempts : ℕ
  pub geo : String

-- A job to create: keyword, timeframe and gprop.
pub record Target : Type 0 where
  pub keyword_id : ℕ
  pub timeframe : String
  pub gprop : String

-- `for timeframe in timeframes for gprop in gprops`
abbrev pub gprop_targets : ℕ → String → List String → List Target
gprop_targets keyword_id timeframe [] = []
gprop_targets keyword_id timeframe (g ∷ gs) =
    record { keyword_id = keyword_id; timeframe = timeframe; gprop = g }
    ∷ gprop_targets keyword_id timeframe gs

unfoldable pub targets_of : ℕ → List String → List String → List Target
targets_of keyword_id [] gprops = []
targets_of keyword_id (t ∷ ts) gprops =
    gprop_targets keyword_id t gprops ++ targets_of keyword_id ts gprops

-- `timeframes or selected_timeframes`, then those that the keyword monitors
abbrev pub requested : Option (List String) → List String → List String
requested none selected = selected
requested (some ts) selected = if is_empty ts then selected else ts

unfoldable pub keyword_targets : Option (List String) → Keyword → List Target
unfolding targets_of
keyword_targets timeframes keyword =
    let selected = keyword_timeframes keyword in
    targets_of keyword.id (select (λ t. contains t selected) (requested timeframes selected))
      (keyword_gprops keyword)

unfoldable pub all_targets : Option (List String) → List Keyword → List Target
unfolding keyword_targets
all_targets timeframes [] = []
all_targets timeframes (k ∷ ks) = keyword_targets timeframes k ++ all_targets timeframes ks

-- `selected = argument`, or what the keyword's row says where the argument is None
abbrev pub chosen_or : Option (List String) → List String → List String
chosen_or none own = own
chosen_or (some given) own = given

module _ {R : Type 0} where
  unfoldable pub enqueue_keyword_job : Db R → ℕ → Request → Target → Result JobRow × Db R
  enqueue_keyword_job db now req t =
      create_collection_job db now t.keyword_id req.source req.max_attempts none t.timeframe req.geo
        t.gprop

  -- What follows the creation of a job: an exception ends the loop.
  abbrev pub created :
      Result (List JobRow) × Db R → Result JobRow × Db R → Result (List JobRow) × Db R
  created continued (raise e, db) = (raise e, db)
  created continued (ok row, db) = cons_result row continued

  unfoldable pub create_jobs : Db R → (ℕ → ℕ) → Request → List Target → Result (List JobRow) × Db R
  unfolding enqueue_keyword_job
  create_jobs db clock req [] = (ok [], db)
  create_jobs db clock req (t ∷ rest) =
      let r = enqueue_keyword_job db (clock 0) req t in
      created (create_jobs r.1 (later clock 1) req rest) r

  unfoldable pub create_collection_jobs_for_enabled :
      Db R → (ℕ → ℕ) → Request → Option (List String) → Result (List JobRow) × Db R
  unfolding create_jobs all_targets
  create_collection_jobs_for_enabled db clock req timeframes =
      create_jobs db clock req (all_targets timeframes (list_enabled_keywords db))

  -- The keyword's row is read only where an argument is None.
  abbrev pub enqueue_for :
      Db R
      → (ℕ → ℕ)
      → ℕ
      → Request
      → Option (List String)
      → Option (List String)
      → Option Keyword
      → Result (List JobRow) × Db R
  enqueue_for db clock keyword_id req (some timeframes) (some gprops) k =
      create_jobs db clock req (targets_of keyword_id timeframes gprops)
  enqueue_for db clock keyword_id req timeframes gprops (some k) = create_jobs db clock req (
      targets_of keyword_id (chosen_or timeframes (keyword_timeframes k))
        (chosen_or gprops (keyword_gprops k)))
  enqueue_for db clock keyword_id req timeframes gprops none =
      (raise (keyword_not_found keyword_id), db)

  unfoldable pub enqueue_keyword_jobs :
      Db R
      → (ℕ → ℕ)
      → ℕ
      → Request
      → Option (List String)
      → Option (List String)
      → Result (List JobRow) × Db R
  unfolding create_jobs targets_of
  enqueue_keyword_jobs db clock keyword_id req timeframes gprops =
      enqueue_for db clock keyword_id req timeframes gprops (get_keyword db keyword_id)
