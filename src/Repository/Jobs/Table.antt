-- ===== src/Repository/Jobs/Table.antt =====
-- googletrends_app/repository.py, the table of collection jobs: its invariant, and the creation of a
-- job.
use googletrends.Base.{
  ap, Option, String, ℕ, inl, ℕ, ◌+◌, ◌≡◌, refl, String, Bool, true, false, ◌&&◌, Option, none,
  some, List, [], ◌∷◌, ◌++◌, select, nat_eq, ltb, All, All-append, All-select, Option-cases,
  Bool-cases, inl, inr, ◌⊎◌, if◌then◌else◌, is_some, arith, ◌==◌,
}
use googletrends.Database.{Db, Job}
use googletrends.Database.Table.{update_where, least, least-none}
use googletrends.Database.Pairwise.{
  Pairwise, Pairwise-append_one, Pairwise-select, Pairwise-update_where, All-map_of,
}
use googletrends.Repository.Jobs.{
  is_active, same_target, create_collection_job, insert_job, new_job, find_keyword, job_before,
}

abbrev pub same_key : Option ℕ → Option ℕ → Bool
same_key (some i) (some j) = nat_eq i j
same_key _ _ = false

-- Two active jobs of one keyword, window, region and search property.
abbrev pub clash : Job → Job → Bool
clash a b =
    is_active a.status
    && is_active b.status
    && same_key a.keyword_id b.keyword_id
    && a.timeframe == b.timeframe
    && a.geo == b.geo
    && a.gprop == b.gprop

abbrev pub Apart : Job → Job → Type 0
Apart a b = (nat_eq a.id b.id ≡ false) × (clash a b ≡ false)

-- The table with the next value of its key.
pub record IsJobTable (jobs : List Job) (next : ℕ) : Type 0 where
  pub apart : Pairwise Apart jobs
  pub bounded : All (λ (j : Job). ltb j.id next ≡ true) jobs

-- A changed job with the same key and target, or with its keyword cleared, which is not active unless the job was.
pub record Follows (j k : Job) : Type 0 where
  pub same_id : k.id ≡ j.id
  pub same_keyword : (k.keyword_id ≡ j.keyword_id) ⊎ (k.keyword_id ≡ none)
  pub same_timeframe : k.timeframe ≡ j.timeframe
  pub same_geo : k.geo ≡ j.geo
  pub same_gprop : k.gprop ≡ j.gprop
  pub not_woken : is_active k.status ≡ true → is_active j.status ≡ true

-- The key of a job and what it collects.
abbrev pub target : Job → ℕ × Option ℕ × String × String × String
target j = (j.id, j.keyword_id, j.timeframe, j.geo, j.gprop)

pub target-Follows :
    (j k : Job)
    → target k ≡ target j
    → (is_active k.status ≡ true → is_active j.status ≡ true)
    → Follows j k
target-Follows j k e w = record {
  same_id = ap (λ t. t.0) e;
  same_keyword = inl (ap (λ t. t.1) e);
  same_timeframe = ap (λ t. t.2) e;
  same_geo = ap (λ t. t.3) e;
  same_gprop = ap (λ t. t.4) e;
  not_woken = w;
}

clash-Follows : (a b c d : Job) → Follows a c → Follows b d → clash c d ≡ true → clash a b ≡ true
clash-Follows a b c d f g h = ground arith

pub Apart-Follows : (a b c d : Job) → Follows a c → Follows b d → Apart a b → Apart c d
Apart-Follows a b c d f g h = (rw (f.same_id, g.same_id) h.0, no_clash (Bool-cases (clash c d)))
  where
    no_clash : (clash c d ≡ true) ⊎ (clash c d ≡ false) → clash c d ≡ false
    no_clash (inl t) = cc (clash-Follows a b c d f g t, h.1)
    no_clash (inr e) = e

-- A statement that changes rows, and none of them in a way that could break the invariant.
pub update_where-IsJobTable :
    (p : Job → Bool) (f : Job → Job) (jobs : List Job) (next : ℕ)
    → ((j : Job) → p j ≡ true → Follows j (f j))
    → IsJobTable jobs next
    → IsJobTable (update_where p f jobs) next
update_where-IsJobTable p f jobs next q t = record {
  apart =
      Pairwise-update_where Apart p f jobs (λ a b. Apart-Follows a b _ _ (step a) (step b)) t.apart;
  bounded = bound jobs t.bounded;
}
  where
    stay : (j : Job) → Follows j j
    stay j = record {
      same_id = refl;
      same_keyword = inl refl;
      same_timeframe = refl;
      same_geo = refl;
      same_gprop = refl;
      not_woken = λ h. h;
    }

    step : (j : Job) → Follows j (if p j then f j else j)
    step j = elim (Bool-cases (p j)) [
      | inl t ↦ rw (t, if◌then◌else◌) (q j t)
      | inr e ↦ rw (e, if◌then◌else◌) (stay j)
    ]

    bound :
        (xs : List Job)
        → All (λ (j : Job). ltb j.id next ≡ true) xs
        → All (λ (j : Job). ltb j.id next ≡ true) (update_where p f xs)
    bound [] b = tt
    bound (x ∷ xs) b = (rw ((step x).same_id) b.0, bound xs b.1)

pub delete_where-IsJobTable :
    (p : Job → Bool) (jobs : List Job) (next : ℕ)
    → IsJobTable jobs next
    → IsJobTable (select p jobs) next
delete_where-IsJobTable p jobs next t = record {
  apart = Pairwise-select Apart p jobs t.apart;
  bounded = All-select _ p jobs t.bounded;
}

append-IsJobTable :
    (jobs : List Job) (next : ℕ) (job : Job)
    → job.id ≡ next
    → All (λ j. clash j job ≡ false) jobs
    → IsJobTable jobs next
    → IsJobTable (jobs ++ job ∷ []) (next + 1)
append-IsJobTable jobs next job e a t = record {
  apart = Pairwise-append_one Apart jobs job t.apart (both jobs a t.bounded);
  bounded =
      All-append _ jobs (job ∷ []) (All-map_of _ _ jobs (λ j h. ground arith) t.bounded)
        (ground arith, tt);
}
  where
    both :
        (xs : List Job)
        → All (λ j. clash j job ≡ false) xs
        → All (λ (j : Job). ltb j.id next ≡ true) xs
        → All (λ j. Apart j job) xs
    both [] c b = tt
    both (x ∷ xs) c b = ((ground arith, c.0), both xs c.1 b.1)

no_clash_with_new :
    (keyword_id : ℕ) (timeframe geo gprop : String) (job : Job) (jobs : List Job)
    → job.keyword_id ≡ some keyword_id
    → job.timeframe ≡ timeframe
    → job.geo ≡ geo
    → job.gprop ≡ gprop
    → select (same_target keyword_id timeframe geo gprop) jobs ≡ []
    → All (λ j. clash j job ≡ false) jobs
no_clash_with_new k tf geo gprop job [] a b c d e = tt
no_clash_with_new k tf geo gprop job (j ∷ jobs) a b c d e =
    (ground arith, no_clash_with_new k tf geo gprop job jobs a b c d (ground arith))

module _ {R : Type 0} where
  -- The invariant of a database's jobs.
  abbrev pub JobsOk : Db R → Type 0
  JobsOk db = IsJobTable db.jobs db.next_job

  -- Creating a job, whether it finds an active one, inserts or fails, keeps the invariant: never are
  -- there two active jobs for one target.
  pub create_collection_job-JobsOk :
      (db : Db R) (now keyword_id : ℕ) (source : String) (max_attempts : ℕ)
      (next_attempt_at : Option ℕ) (timeframe geo gprop : String)
      → JobsOk db
      → JobsOk
          (create_collection_job db now keyword_id source max_attempts next_attempt_at timeframe geo
            gprop).1
  unfolding create_collection_job insert_job
  create_collection_job-JobsOk db now k source m na tf geo gprop t =
      elim (Option-cases (least job_before (select (same_target k tf geo gprop) db.jobs))) [
        | inr (job, e) ↦ rw (e, create_collection_job) t
        | inl e ↦ elim (Bool-cases (is_some (find_keyword db k))) [
          | inl known ↦
              rw (e, create_collection_job)
                (rw (known, if◌then◌else◌)
                  (append-IsJobTable db.jobs db.next_job (new_job db now k source m na tf geo gprop)
                    refl
                    (no_clash_with_new k tf geo gprop (new_job db now k source m na tf geo gprop)
                      db.jobs refl refl refl refl (least-none job_before _ e))
                    t))
          | inr unknown ↦ rw (e, create_collection_job) (rw (unknown, if◌then◌else◌) t)
        ]
      ]
