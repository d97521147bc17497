-- ===== src/Repository/Reports.antt =====
-- googletrends_app/repository.py, the lists that the pages show: jobs, the attempts of a job, and
-- alerts.
pub mod Sorted
pub mod Newest
use googletrends.Base.{
  ℕ, zero, suc, String, Bool, true, false, not, ◌&&◌, ◌||◌, Option, none, some, List, [], ◌∷◌, take,
  map, select, ltb, nat_eq, is_blank, lower_codes, codes, drop_text, codes_eq, ◌==◌, if◌then◌else◌,
}
use googletrends.Database.{Db, Job, Attempt, Alert, Status, queued, running, success, failed}
use googletrends.Repository.Jobs.{JobRow, job_row, job_before, find_keyword}

-- `ORDER BY`, where the first argument tells which of two rows comes first.
abbrev pub insert_row {ℓ} : {A : Type ℓ} → (A → A → Bool) → A → List A → List A
insert_row before x [] = x ∷ []
insert_row before x (y ∷ ys) = if before y x then y ∷ insert_row before x ys else x ∷ y ∷ ys

unfoldable pub sorted_rows {ℓ} : {A : Type ℓ} → (A → A → Bool) → List A → List A
sorted_rows before [] = []
sorted_rows before (x ∷ xs) = insert_row before x (sorted_rows before xs)

-- The text in the column of the status.
abbrev pub status_text : Status → String
status_text queued = "queued"
status_text running = "running"
status_text success = "success"
status_text failed = "failed"

-- `if status:` and `WHERE cj.status = ?`
abbrev pub has_status : Option String → Job → Bool
has_status none j = true
has_status (some status) j = is_blank status || status_text j.status == status

-- `ORDER BY created_at DESC, id DESC`
abbrev pub job_newer : Job → Job → Bool
job_newer j k = job_before k j

-- `ORDER BY attempt_no ASC, id ASC`
abbrev pub attempt_before : Attempt → Attempt → Bool
attempt_before a b =
    ltb a.attempt_no b.attempt_no || (nat_eq a.attempt_no b.attempt_no && ltb a.id b.id)

-- `LIKE 'clash:%'`, which folds the ASCII letters
abbrev pub is_clash_key : String → Bool
is_clash_key key = codes_eq (take 6 (lower_codes key)) (codes "clash:")

abbrev pub text_or : Option String → String → String
text_or none default_text = default_text
text_or (some s) default_text = if is_blank s then default_text else s

-- The CASE of `display_proxy_name`.
unfoldable pub display_proxy_name : Attempt → String
display_proxy_name a = elim a.profile_key [
  | none ↦ text_or a.proxy_name "-"
  | some key ↦
      if is_clash_key key then drop_text 6 key else text_or a.proxy_name (text_or (some key) "-")
]

module _ {R : Type 0} where
  unfoldable pub list_jobs : Db R → ℕ → Option String → List JobRow
  unfolding sorted_rows job_row
  list_jobs db limit status =
      map (job_row db) (take limit (sorted_rows job_newer (select (has_status status) db.jobs)))

  unfoldable pub list_collection_job_attempts : Db R → ℕ → List (Attempt × String)
  unfolding sorted_rows display_proxy_name
  list_collection_job_attempts db job_id =
      map (λ a. (a, display_proxy_name a))
        (sorted_rows attempt_before (select (λ a. nat_eq a.job_id job_id) db.attempts))

  abbrev pub alert_newer : Alert R × String → Alert R × String → Bool
  alert_newer (a, s) (b, t) =
      ltb b.created_at a.created_at || (nat_eq b.created_at a.created_at && ltb b.id a.id)

  -- The inner join of the alerts with their keywords' terms.
  abbrev pub joined_alerts : Db R → List (Alert R) → List (Alert R × String)
  joined_alerts db [] = []
  joined_alerts db (a ∷ rest) = elim (find_keyword db a.keyword_id) [
    | none ↦ joined_alerts db rest
    | some keyword ↦ (a, keyword.term) ∷ joined_alerts db rest
  ]

  unfoldable pub list_alerts : Db R → ℕ → List (Alert R × String)
  unfolding sorted_rows
  list_alerts db limit = take limit (sorted_rows alert_newer (joined_alerts db db.alerts))
