-- ===== src/Repository/Jobs/Claim.antt =====
-- googletrends_app/repository.py, claim_next_collection_job: which job a claim takes, and what it
-- leaves.
use googletrends.Base.{
  ℕ, ◌≡◌, refl, ◌∙◌, true, false, ◌&&◌, Option, none, some, [], select, nat_eq, In, In-select,
  Option-cases, Bool-cases, inl, inr, arith,
}
use googletrends.Database.{Db, Job, Result, ok}
use googletrends.Database.Table.{
  update_where, least, least-In, least-none, least_minimal, IsOrder, In-select_of,
  first_where-update_where,
}
use googletrends.Database.Pairwise.{UniqueIds, first_where-UniqueIds}
use googletrends.Repository.Jobs.{
  JobRow, claim_next_collection_job, get_collection_job, is_claimable, job_before, job_row,
  start_job, find_job, is_queued,
}

job_before-IsOrder : IsOrder job_before
job_before-IsOrder = record {
  irrefl = λ x. ground arith;
  asym = λ x y h. ground arith;
  cotrans = λ x y z h. ground arith;
}

module _ {R : Type 0} where
  abbrev pub start_in : Db R → ℕ → ℕ → ℕ → Db R
  start_in db id now stamp = record db {
    jobs = update_where (λ j. nat_eq j.id id && is_queued j.status) (start_job now stamp) db.jobs;
  }

  -- What a claim has done when it returns: nothing if no job is claimable, and otherwise it has
  -- started one that no claimable job precedes, and returns its row.
  pub data Claimed (db : Db R) (now stamp : ℕ) : Result (Option JobRow) × Db R → Type 0 where
    idle :
        {r : Result (Option JobRow) × Db R}
        → ((j : Job) → In j db.jobs → is_claimable db now j ≡ false)
        → r ≡ (ok none, db)
        → Claimed db now stamp r
    taken :
        {r : Result (Option JobRow) × Db R} (job : Job)
        → In job db.jobs
        → is_claimable db now job ≡ true
        → ((j : Job) → In j db.jobs → is_claimable db now j ≡ true → job_before j job ≡ false)
        → r ≡ (
          ok (some (job_row (start_in db job.id now stamp) (start_job now stamp job))),
          start_in db job.id now stamp,
        )
        → Claimed db now stamp r

  find_started :
      (db : Db R) (now stamp : ℕ) (job : Job)
      → UniqueIds (λ (j : Job). j.id) db.jobs
      → In job db.jobs
      → is_queued job.status ≡ true
      → find_job (start_in db job.id now stamp) job.id ≡ some (start_job now stamp job)
  unfolding find_job
  find_started db now stamp job u m q =
      first_where-update_where (λ j. nat_eq j.id job.id)
        (λ j. nat_eq j.id job.id && is_queued j.status) (start_job now stamp) db.jobs (λ j. refl)
      ∙ rw (first_where-UniqueIds (λ (j : Job). j.id) db.jobs u m) (ground arith)

  not_claimable :
      (db : Db R) (now : ℕ) (j : Job)
      → select (is_claimable db now) db.jobs ≡ []
      → In j db.jobs
      → is_claimable db now j ≡ false
  not_claimable db now j e m = elim (Bool-cases (is_claimable db now j)) [
    | inl t ↦ absurd (none_in (rw e at (In-select_of (is_claimable db now) db.jobs m t)))
    | inr f ↦ f
  ]
    where
      none_in : In j [] → ⊥
      none_in m = elim m [ ]

  pub queued_of_claimable :
      (db : Db R) (now : ℕ) (j : Job) → is_claimable db now j ≡ true → is_queued j.status ≡ true
  unfolding is_claimable
  queued_of_claimable db now j h = ground arith

  -- In a job table with unique keys, a claim either finds no claimable job and changes nothing, or
  -- starts a claimable job that no claimable job precedes by creation time and key, changes no
  -- other row, and returns the started row.
  pub claim_next_collection_job_lem :
      (db : Db R) (now stamp : ℕ)
      → UniqueIds (λ (j : Job). j.id) db.jobs
      → Claimed db now stamp (claim_next_collection_job db now stamp)
  unfolding claim_next_collection_job get_collection_job
  claim_next_collection_job_lem db now stamp u =
      elim (Option-cases (least job_before (select (is_claimable db now) db.jobs))) [
        | inl e ↦ idle (λ j m. not_claimable db now j (least-none job_before _ e) m) (ground arith)
        | inr (job, e) ↦
            let m = In-select (is_claimable db now) job db.jobs (least-In job_before _ e) in
            taken job m.0 m.1
              (λ j i c.
                least_minimal job_before job_before-IsOrder _ e
                  (In-select_of (is_claimable db now) db.jobs i c))
              (ground
                (arith, find_started db now stamp job u m.0 (queued_of_claimable db now job m.1)))
      ]
