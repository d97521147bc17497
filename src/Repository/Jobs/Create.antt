-- ===== src/Repository/Jobs/Create.antt =====
-- googletrends_app/repository.py, create_collection_job: a creation for a known keyword, and two for one
-- target.
use googletrends.Base.{
  ℕ, ◌+◌, ◌≡◌, refl, ap, sym, ◌∙◌, String, Bool, true, false, Option, none, some, List, [], ◌∷◌,
  ◌++◌, select, ltb, nat_eq, first_where, is_some, All, Option-cases, Bool-cases, inl, inr,
  if◌then◌else◌, arith, eq_iff,
}
use mathlib.Core.Path.{subst}
use googletrends.Database.{Db, Job, Result, ok, raise}
use googletrends.Database.Table.{least, least-none}
use googletrends.Repository.Jobs.{
  JobRow, same_target, job_before, create_collection_job, insert_job, new_job, find_keyword,
  find_job, get_collection_job, job_row,
}
use googletrends.Repository.Jobs.Table.{JobsOk}

abbrev pub is_ok : {A : Type 0} → Result A → Bool
is_ok (ok a) = true
is_ok (raise e) = false

select-append_one :
    {A : Type 0} (p : A → Bool) (xs : List A) (y : A)
    → select p xs ≡ []
    → p y ≡ true
    → select p (xs ++ y ∷ []) ≡ y ∷ []
select-append_one p [] y e t = rw (t, if◌then◌else◌) refl
select-append_one p (x ∷ xs) y e t = elim (Bool-cases (p x)) [
  | inl a ↦ absurd (ground (arith, a, e))
  | inr a ↦ rw (a, if◌then◌else◌) (select-append_one p xs y (rw (a, if◌then◌else◌) at e) t)
]

find_appended :
    (jobs : List Job) (new : Job) (next : ℕ)
    → new.id ≡ next
    → All (λ (j : Job). ltb j.id next ≡ true) jobs
    → first_where (λ (j : Job). nat_eq j.id new.id) (jobs ++ new ∷ []) ≡ some new
find_appended [] new next e h = ground arith
find_appended (j ∷ jobs) new next e h = ground (arith, find_appended jobs new next e h.1)

module _ {R : Type 0} where
  -- The database with a row more.
  abbrev with_job : Db R → Job → Db R
  with_job db job = record db { jobs = db.jobs ++ job ∷ []; next_job = db.next_job + 1 }

  creates_existing :
      (db : Db R) (now k : ℕ) (source : String) (m : ℕ) (at : Option ℕ) (tf geo gprop : String)
      (job : Job)
      → least job_before (select (same_target k tf geo gprop) db.jobs) ≡ some job
      → create_collection_job db now k source m at tf geo gprop ≡ (ok (job_row db job), db)
  unfolding create_collection_job
  creates_existing db now k source m at tf geo gprop job e = rw (e, create_collection_job) refl

  creates_new :
      (db : Db R) (now k : ℕ) (source : String) (m : ℕ) (at : Option ℕ) (tf geo gprop : String)
      → least job_before (select (same_target k tf geo gprop) db.jobs) ≡ none
      → is_some (find_keyword db k) ≡ true
      → let job = new_job db now k source m at tf geo gprop in
        create_collection_job db now k source m at tf geo gprop
        ≡ (get_collection_job (with_job db job) job.id, with_job db job)
  unfolding create_collection_job insert_job
  creates_new db now k source m at tf geo gprop e known =
      rw (e, create_collection_job) (rw (known, if◌then◌else◌) refl)

  finds_new :
      (db : Db R) (job : Job)
      → job.id ≡ db.next_job
      → JobsOk db
      → get_collection_job (with_job db job) job.id ≡ ok (job_row (with_job db job) job)
  unfolding get_collection_job find_job
  finds_new db job e t =
      rw (find_appended db.jobs job db.next_job e t.bounded, get_collection_job) refl

  new-same_target :
      (db : Db R) (now k : ℕ) (source : String) (m : ℕ) (at : Option ℕ) (tf geo gprop : String)
      → same_target k tf geo gprop (new_job db now k source m at tf geo gprop) ≡ true
  new-same_target db now k source m at tf geo gprop =
      ground (arith, (eq_iff tf tf).1 refl, (eq_iff geo geo).1 refl, (eq_iff gprop gprop).1 refl)

  -- A creation for a known keyword returns a row, and leaves the keywords alone.
  pub create_collection_job-known :
      (db : Db R) (now k : ℕ) (source : String) (m : ℕ) (at : Option ℕ) (tf geo gprop : String)
      → JobsOk db
      → is_some (find_keyword db k) ≡ true
      → let r = create_collection_job db now k source m at tf geo gprop in
        (is_ok r.0 ≡ true) × (r.1.keywords ≡ db.keywords)
  create_collection_job-known db now k source m at tf geo gprop t known =
      elim (Option-cases (least job_before (select (same_target k tf geo gprop) db.jobs))) [
        | inr (job, e) ↦ rw (creates_existing db now k source m at tf geo gprop job e) (refl, refl)
        | inl e ↦
            let job = new_job db now k source m at tf geo gprop in
            rw (creates_new db now k source m at tf geo gprop e known, finds_new db job refl t)
              (refl, refl)
      ]

  -- Creating a job twice for one known keyword, window, region and search property gives the row
  -- and the database of the first time, whatever the time, the source and the attempts of the
  -- second are, in a job table that keeps its invariant.
  pub create_collection_job-again :
      (db : Db R) (now k : ℕ) (source : String) (m : ℕ) (at : Option ℕ) (tf geo gprop : String)
      (now' : ℕ) (source' : String) (m' : ℕ) (at' : Option ℕ)
      → JobsOk db
      → is_some (find_keyword db k) ≡ true
      → let r = create_collection_job db now k source m at tf geo gprop in
        create_collection_job r.1 now' k source' m' at' tf geo gprop ≡ r
  create_collection_job-again db now k source m at tf geo gprop now' source' m' at' t known =
      elim (Option-cases (least job_before (select (same_target k tf geo gprop) db.jobs))) [
        | inr (job, e) ↦
            let first = creates_existing db now k source m at tf geo gprop job e in
            repeat _ first (creates_existing db now' k source' m' at' tf geo gprop job e)
        | inl e ↦
            let job = new_job db now k source m at tf geo gprop in
            let first =
              creates_new db now k source m at tf geo gprop e known
              ∙ ap (λ g. (g, with_job db job)) (finds_new db job refl t) in
            repeat _ first (
              creates_existing (with_job db job) now' k source' m' at' tf geo gprop job (
                ap (least job_before) (
                  select-append_one (same_target k tf geo gprop) db.jobs job
                    (least-none job_before _ e)
                    (new-same_target db now k source m at tf geo gprop))))
      ]
    where
      repeat :
          (r : Result JobRow × Db R)
          → create_collection_job db now k source m at tf geo gprop ≡ r
          → create_collection_job r.1 now' k source' m' at' tf geo gprop ≡ r
          → create_collection_job
              (create_collection_job db now k source m at tf geo gprop).1
              now'
              k
              source'
              m'
              at'
              tf
              geo
              gprop
            ≡ create_collection_job db now k source m at tf geo gprop
      repeat r e f =
          subst (λ x. create_collection_job x.1 now' k source' m' at' tf geo gprop ≡ x) (sym e) f
