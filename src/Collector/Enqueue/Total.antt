-- ===== src/Collector/Enqueue/Total.antt =====
-- googletrends_app/collector.py and repository.py, the creation of jobs for known keywords: it raises
-- no exception.
use googletrends.Base.{
  ℕ, ◌≡◌, refl, String, Bool, true, Option, none, some, List, [], ◌∷◌, All, All-append, In, here,
  there, select, contains, nat_eq, nat_eq_refl, first_where, is_some, In-select, Bool-cases, inl,
  inr, if◌then◌else◌,
}
use googletrends.Database.{Db, Keyword, Result, ok, raise}
use googletrends.Repository.Jobs.{JobRow, create_collection_job, find_keyword}
use googletrends.Repository.Jobs.Create.{is_ok, create_collection_job-known}
use googletrends.Repository.Jobs.Table.{JobsOk, create_collection_job-JobsOk}
use googletrends.Repository.Keywords.{
  get_keyword, list_enabled_keywords, keyword_timeframes, keyword_gprops,
}
use googletrends.Collector.Evaluate.{later}
use googletrends.Collector.Enqueue.{
  Request, Target, enqueue_keyword_job, create_jobs, targets_of, gprop_targets, keyword_targets,
  all_targets, requested, created, enqueue_keyword_jobs, create_collection_jobs_for_enabled,
}

first_where-In :
    {A : Type 0} (p : A → Bool) (x : A) (xs : List A)
    → In x xs
    → p x ≡ true
    → is_some (first_where p xs) ≡ true
first_where-In p x [] m t = elim m [ ]
first_where-In p x (y ∷ ys) (here e) t = rw (rw e at t, if◌then◌else◌) refl
first_where-In p x (y ∷ ys) (there m) t = elim (Bool-cases (p y)) [
  | inl a ↦ rw (a, if◌then◌else◌) refl
  | inr a ↦ rw (a, if◌then◌else◌) (first_where-In p x ys m t)
]

module _ {R : Type 0} where
  -- A target whose keyword the database has.
  abbrev IsKnown : Db R → Target → Type 0
  IsKnown db t = is_some (find_keyword db t.keyword_id) ≡ true

  created-ok :
      (continued : Result (List JobRow) × Db R) (r : Result JobRow × Db R)
      → is_ok r.0 ≡ true
      → is_ok continued.0 ≡ true
      → is_ok (created continued r).0 ≡ true
  created-ok continued (raise e, db) h k = cc h
  created-ok (ok rows, db') (ok row, db) h k = refl
  created-ok (raise e, db') (ok row, db) h k = cc k

  IsKnown-same :
      (db db' : Db R) (ts : List Target)
      → db'.keywords ≡ db.keywords
      → All (IsKnown db) ts
      → All (IsKnown db') ts
  unfolding find_keyword
  IsKnown-same db db' [] e a = tt
  IsKnown-same db db' (t ∷ ts) e a = (rw e a.0, IsKnown-same db db' ts e a.1)

  create_jobs-ok :
      (db : Db R) (clock : ℕ → ℕ) (req : Request) (ts : List Target)
      → JobsOk db
      → All (IsKnown db) ts
      → is_ok (create_jobs db clock req ts).0 ≡ true
  unfolding create_jobs enqueue_keyword_job
  create_jobs-ok db clock req [] j a = refl
  create_jobs-ok db clock req (t ∷ rest) j a =
      let r =
        create_collection_job db (clock 0) t.keyword_id req.source req.max_attempts none t.timeframe
          req.geo t.gprop in
      let c =
        create_collection_job-known db (clock 0) t.keyword_id req.source req.max_attempts none
          t.timeframe req.geo t.gprop j a.0 in
      created-ok (create_jobs r.1 (later clock 1) req rest) r c.0 (
        create_jobs-ok r.1 (later clock 1) req rest
          (create_collection_job-JobsOk db (clock 0) t.keyword_id req.source req.max_attempts none
            t.timeframe req.geo t.gprop j)
          (IsKnown-same db r.1 rest c.1 a.1))

  gprop_targets-IsKnown :
      (db : Db R) (id : ℕ) (tf : String) (gs : List String)
      → is_some (find_keyword db id) ≡ true
      → All (IsKnown db) (gprop_targets id tf gs)
  gprop_targets-IsKnown db id tf [] k = tt
  gprop_targets-IsKnown db id tf (g ∷ gs) k = (k, gprop_targets-IsKnown db id tf gs k)

  targets_of-IsKnown :
      (db : Db R) (id : ℕ) (ts gs : List String)
      → is_some (find_keyword db id) ≡ true
      → All (IsKnown db) (targets_of id ts gs)
  unfolding targets_of
  targets_of-IsKnown db id [] gs k = tt
  targets_of-IsKnown db id (t ∷ ts) gs k =
      All-append _ (gprop_targets id t gs) (targets_of id ts gs)
        (gprop_targets-IsKnown db id t gs k) (targets_of-IsKnown db id ts gs k)

  all_targets-IsKnown :
      (db : Db R) (timeframes : Option (List String)) (ks : List Keyword)
      → ((k : Keyword) → In k ks → is_some (find_keyword db k.id) ≡ true)
      → All (IsKnown db) (all_targets timeframes ks)
  unfolding all_targets keyword_targets
  all_targets-IsKnown db timeframes [] h = tt
  all_targets-IsKnown db timeframes (k ∷ ks) h =
      All-append _ (keyword_targets timeframes k) (all_targets timeframes ks)
        (targets_of-IsKnown db k.id
          (select (λ t. contains t (keyword_timeframes k))
            (requested timeframes (keyword_timeframes k)))
          (keyword_gprops k) (h k (here refl)))
        (all_targets-IsKnown db timeframes ks (λ x m. h x (there m)))

  pub create_collection_jobs_for_enabled-ok :
      (db : Db R) (clock : ℕ → ℕ) (req : Request) (timeframes : Option (List String))
      → JobsOk db
      → is_ok (create_collection_jobs_for_enabled db clock req timeframes).0 ≡ true
  unfolding create_collection_jobs_for_enabled list_enabled_keywords find_keyword
  create_collection_jobs_for_enabled-ok db clock req timeframes j =
      create_jobs-ok db clock req (all_targets timeframes (list_enabled_keywords db)) j (
        all_targets-IsKnown db timeframes (list_enabled_keywords db) (λ k m.
          first_where-In (λ x. nat_eq x.id k.id) k db.keywords
            (In-select (λ x. x.enabled) k db.keywords m).0 (nat_eq_refl k.id)))

  pub enqueue_keyword_jobs-ok :
      (db : Db R) (clock : ℕ → ℕ) (keyword_id : ℕ) (req : Request) (timeframes gprops : List String)
      → JobsOk db
      → is_some (get_keyword db keyword_id) ≡ true
      → is_ok (enqueue_keyword_jobs db clock keyword_id req (some timeframes) (some gprops)).0
        ≡ true
  unfolding enqueue_keyword_jobs get_keyword
  enqueue_keyword_jobs-ok db clock k req timeframes gprops j known =
      create_jobs-ok db clock req (targets_of k timeframes gprops) j
        (targets_of-IsKnown db k timeframes gprops known)
