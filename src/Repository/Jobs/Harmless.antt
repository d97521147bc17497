-- ===== src/Repository/Jobs/Harmless.antt =====
-- googletrends_app/repository.py, the statements that end no job: what they keep of the table of
-- jobs, the invariant and the activity of each job.
use googletrends.Base.{
  ℕ, ◌≡◌, refl, String, Bool, true, false, ◌&&◌, Option, List, [], ◌∷◌, ◌++◌, select, nat_eq, map,
  In, here, there, In-append, In-select, Option-cases, Bool-cases, inl, inr, ◌⊎◌, if◌then◌else◌,
  arith, is_some,
}
use googletrends.Database.{Db, Job}
use googletrends.Database.Table.{update_where, least, In-update_where}
use googletrends.Repository.Jobs.{
  is_active, is_queued, create_collection_job, claim_next_collection_job, insert_job, new_job,
  find_keyword, same_target, job_before, start_job, delete_unmonitored_queued_jobs, delete_jobs,
  requeue_stale_running_jobs, is_stale, requeue_stale,
}
use googletrends.Repository.Jobs.Table.{
  JobsOk, create_collection_job-JobsOk, delete_where-IsJobTable,
}
use googletrends.Repository.Jobs.Kept.{
  IsActiveJob, claim-JobsOk, stale-JobsOk, keyword-JobsOk, claim_cases,
}
use googletrends.Repository.Keywords.{delete_keyword, clear_job}

In-map :
    {A B : Type 0} (f : A → B) (b : B) (xs : List A)
    → In b (map f xs)
    → (a : A) × In a xs × (b ≡ f a)
In-map f b [] m = elim m [ ]
In-map f b (x ∷ xs) (here e) = (x, here refl, e)
In-map f b (x ∷ xs) (there m) = let r = In-map f b xs m in (r.0, there r.1, r.2)

module _ {R : Type 0} where
  -- The invariant is kept, and so is the activity of every job.
  pub record Harmless (db db' : Db R) : Type 0 where
    pub keeps_JobsOk : JobsOk db → JobsOk db'
    pub keeps_active : (id : ℕ) → IsActiveJob db id → IsActiveJob db' id

  pub same-Harmless :
      (db db' : Db R) → db'.jobs ≡ db.jobs → db'.next_job ≡ db.next_job → Harmless db db'
  same-Harmless db db' e f = record {
    keeps_JobsOk = λ t. rw (e, f) t;
    keeps_active = λ id a j m. a j (rw e at m);
  }

  pub then-Harmless : {a b c : Db R} → Harmless a b → Harmless b c → Harmless a c
  then-Harmless h k = record {
    keeps_JobsOk = λ t. k.keeps_JobsOk (h.keeps_JobsOk t);
    keeps_active = λ id t. k.keeps_active id (h.keeps_active id t);
  }

  pub select-Harmless :
      (p : Job → Bool) (db db' : Db R)
      → db'.jobs ≡ select p db.jobs
      → db'.next_job ≡ db.next_job
      → Harmless db db'
  select-Harmless p db db' e f = record {
    keeps_JobsOk = λ t. rw (e, f) (delete_where-IsJobTable p db.jobs db.next_job t);
    keeps_active = λ id a j m i. a j (In-select p j db.jobs (rw e at m)).0 i;
  }

  -- Rows that are changed keep their keys, and stay active if they were.
  updated_active :
      (p : Job → Bool) (f : Job → Job) (db : Db R) (id : ℕ)
      → ((j : Job) → (f j).id ≡ j.id)
      → ((j : Job) → p j ≡ true → is_active (f j).status ≡ true)
      → IsActiveJob db id
      → (j : Job) → In j (update_where p f db.jobs)
      → nat_eq j.id id ≡ true
      → is_active j.status ≡ true
  updated_active p f db id same wake a j m i =
      let r = In-update_where p f db.jobs m in
      rw (r.2) (changed r.0 r.1 (rw (r.2) at i) (Bool-cases (p r.0)))
    where
      changed :
          (x : Job)
          → In x db.jobs
          → nat_eq (if p x then f x else x).id id ≡ true
          → (p x ≡ true) ⊎ (p x ≡ false)
          → is_active (if p x then f x else x).status ≡ true
      changed x mx i (inl t) = rw (t, if◌then◌else◌) (wake x t)
      changed x mx i (inr e) = rw (e, if◌then◌else◌) (a x mx (rw (e, if◌then◌else◌) at i))

  pub claim-Harmless :
      (db : Db R) (now stamp : ℕ) → Harmless db (claim_next_collection_job db now stamp).1
  claim-Harmless db now stamp = record {
    keeps_JobsOk = claim-JobsOk db now stamp;
    keeps_active = λ id a. elim (claim_cases db now stamp) [
      | inl e ↦ λ j m. a j (rw e at m)
      | inr (k, e) ↦ λ j m.
          updated_active (λ x. nat_eq x.id k && is_queued x.status) (start_job now stamp) db id
            (λ x. refl) (λ x t. refl) a j (rw e at m)
    ];
  }

  pub stale-Harmless :
      (db : Db R) (stale_before stamp : ℕ)
      → Harmless db (requeue_stale_running_jobs db stale_before stamp).1
  unfolding requeue_stale_running_jobs
  stale-Harmless db before stamp = record {
    keeps_JobsOk = stale-JobsOk db before stamp;
    keeps_active = λ id a.
        updated_active (is_stale before) (requeue_stale stamp) db id (λ x. refl) (λ x t. refl) a;
  }

  pub unmonitored-Harmless : (db : Db R) → Harmless db (delete_unmonitored_queued_jobs db).1
  unfolding delete_unmonitored_queued_jobs delete_jobs
  unmonitored-Harmless db = select-Harmless _ db _ refl refl

  pub drop_keyword-Harmless : (db : Db R) (k : ℕ) → Harmless db (delete_keyword db k)
  unfolding delete_keyword
  drop_keyword-Harmless db k = record {
    keeps_JobsOk = keyword-JobsOk db k;
    keeps_active = λ id a j m i.
        let r = In-map (clear_job k) j db.jobs m in
        rw (r.2) (cleared id r.0 (a r.0 r.1) (rw (r.2) at i));
  }
    where
      cleared :
          (id : ℕ) (x : Job)
          → (nat_eq x.id id ≡ true → is_active x.status ≡ true)
          → nat_eq (clear_job k x).id id ≡ true
          → is_active (clear_job k x).status ≡ true
      cleared id x h i = ground arith

  pub create-Harmless :
      (db : Db R) (now k : ℕ) (source : String) (m : ℕ) (at : Option ℕ) (tf geo gprop : String)
      → Harmless db (create_collection_job db now k source m at tf geo gprop).1
  unfolding create_collection_job insert_job
  create-Harmless db now k source m at tf geo gprop = record {
    keeps_JobsOk = create_collection_job-JobsOk db now k source m at tf geo gprop;
    keeps_active = λ id a.
        elim (Option-cases (least job_before (select (same_target k tf geo gprop) db.jobs))) [
          | inr (job, e) ↦ rw (e, create_collection_job) a
          | inl e ↦ elim (Bool-cases (is_some (find_keyword db k))) [
            | inl known ↦ rw (e, create_collection_job) (rw (known, if◌then◌else◌) (appended id a))
            | inr unknown ↦ rw (e, create_collection_job) (rw (unknown, if◌then◌else◌) a)
          ]
        ];
  }
    where
      new : Job
      new = new_job db now k source m at tf geo gprop

      appended :
          (id : ℕ)
          → IsActiveJob db id
          → (j : Job) → In j (db.jobs ++ new ∷ [])
          → nat_eq j.id id ≡ true
          → is_active j.status ≡ true
      appended id a j m i = elim (In-append j db.jobs (new ∷ []) m) [
        | inl old ↦ a j old i
        | inr (here e) ↦ rw e refl
        | inr (there x) ↦ elim x [ ]
      ]
