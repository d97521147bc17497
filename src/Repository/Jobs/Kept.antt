-- ===== src/Repository/Jobs/Kept.antt =====
-- googletrends_app/repository.py: each statement that writes jobs keeps the invariant of their table.
use googletrends.Base.{
  ℕ, ◌≡◌, refl, String, Bool, true, not, ◌&&◌, List, [], ◌∷◌, select, nat_eq, map, All, In, here,
  there, Option-cases, Bool-cases, inl, inr, ◌⊎◌, ltb, if◌then◌else◌, arith,
}
use googletrends.Database.{Db, Job}
use googletrends.Database.Table.{update_where, least, Result-cases}
use googletrends.Database.Pairwise.{Pairwise-map}
use googletrends.Repository.Jobs.{
  is_active, is_queued, opt_eq, claim_next_collection_job, get_collection_job, is_claimable,
  job_before, start_job, requeue_stale_running_jobs, finish_collection_job_success,
  finish_collection_job_failure, requeue_collection_job, delete_jobs, is_stale, requeue_stale,
  succeed_job, fail_job, requeue_job,
}
use googletrends.Repository.Jobs.Claim.{start_in}
use googletrends.Repository.Jobs.Table.{
  Follows, target-Follows, JobsOk, Apart, Apart-Follows, update_where-IsJobTable,
  delete_where-IsJobTable,
}
use googletrends.Repository.Keywords.{delete_keyword, clear_job}

-- An update of the rows that pass a test is one of those that pass a further test, if all of them do.
pub update_where_and :
    (p q : Job → Bool) (f : Job → Job) (xs : List Job)
    → ((j : Job) → In j xs → p j ≡ true → q j ≡ true)
    → update_where p f xs ≡ update_where (λ j. p j && q j) f xs
update_where_and p q f [] h = refl
update_where_and p q f (x ∷ xs) h =
    ground (arith, h x (here refl), update_where_and p q f xs (λ j m. h j (there m)))

module _ {R : Type 0} where
  -- All rows of a key are active, as a job is between its claim and its end.
  abbrev pub IsActiveJob : Db R → ℕ → Type 0
  IsActiveJob db id = (j : Job) → In j db.jobs → nat_eq j.id id ≡ true → is_active j.status ≡ true

  -- A claim leaves the database as it is, or starts the queued rows of one key.
  pub claim_cases :
      (db : Db R) (now stamp : ℕ)
      → ((claim_next_collection_job db now stamp).1 ≡ db)
        ⊎ ((id : ℕ) × ((claim_next_collection_job db now stamp).1 ≡ start_in db id now stamp))
  unfolding claim_next_collection_job
  claim_cases db now stamp =
      elim (Option-cases (least job_before (select (is_claimable db now) db.jobs))) [
        | inl e ↦ inl (ground arith)
        | inr (job, e) ↦ inr (
          job.id,
          elim (Result-cases (get_collection_job (start_in db job.id now stamp) job.id)) [
            | inl (row, r) ↦ ground arith
            | inr (x, r) ↦ ground arith
          ],
        )
      ]

  pub claim-JobsOk :
      (db : Db R) (now stamp : ℕ) → JobsOk db → JobsOk (claim_next_collection_job db now stamp).1
  claim-JobsOk db now stamp t = elim (claim_cases db now stamp) [
    | inl e ↦ rw e t
    | inr (id, e) ↦ rw e (
        update_where-IsJobTable (λ j. nat_eq j.id id && is_queued j.status) (start_job now stamp)
          db.jobs db.next_job (λ j h. target-Follows j _ refl (λ _. ground arith)) t)
  ]

  pub stale-JobsOk :
      (db : Db R) (stale_before stamp : ℕ)
      → JobsOk db
      → JobsOk (requeue_stale_running_jobs db stale_before stamp).1
  unfolding requeue_stale_running_jobs
  stale-JobsOk db stale_before stamp t =
      update_where-IsJobTable (is_stale stale_before) (requeue_stale stamp) db.jobs db.next_job
        (λ j h. target-Follows j _ refl (λ _. ground arith)) t

  pub delete-JobsOk : (p : Job → Bool) (db : Db R) → JobsOk db → JobsOk (delete_jobs p db)
  unfolding delete_jobs
  delete-JobsOk p db t = delete_where-IsJobTable (λ j. not (p j)) db.jobs db.next_job t

  pub success-JobsOk :
      (db : Db R) (id at count stamp : ℕ)
      → JobsOk db
      → JobsOk (finish_collection_job_success db id at count stamp)
  unfolding finish_collection_job_success
  success-JobsOk db id at count stamp t =
      update_where-IsJobTable (λ j. nat_eq j.id id) (succeed_job at count stamp) db.jobs db.next_job
        (λ j h. target-Follows j _ refl (λ k. cc)) t

  pub failure-JobsOk :
      (db : Db R) (id at : ℕ) (error : String) (stamp : ℕ)
      → JobsOk db
      → JobsOk (finish_collection_job_failure db id at error stamp)
  unfolding finish_collection_job_failure
  failure-JobsOk db id at error stamp t =
      update_where-IsJobTable (λ j. nat_eq j.id id) (fail_job at error stamp) db.jobs db.next_job
        (λ j h. target-Follows j _ refl (λ k. cc)) t

  pub requeue-JobsOk :
      (db : Db R) (id next_attempt_at : ℕ) (error : String) (stamp : ℕ)
      → IsActiveJob db id
      → JobsOk db
      → JobsOk (requeue_collection_job db id next_attempt_at error stamp)
  unfolding requeue_collection_job
  requeue-JobsOk db id next_attempt_at error stamp active t =
      rw
        (update_where_and (λ j. nat_eq j.id id) (λ j. is_active j.status)
          (requeue_job next_attempt_at error stamp) db.jobs active)
        (update_where-IsJobTable (λ j. nat_eq j.id id && is_active j.status)
          (requeue_job next_attempt_at error stamp) db.jobs db.next_job
          (λ j h. target-Follows j _ refl (λ _. ground arith)) t)

  pub keyword-JobsOk :
      (db : Db R) (keyword_id : ℕ) → JobsOk db → JobsOk (delete_keyword db keyword_id)
  unfolding delete_keyword
  keyword-JobsOk db k t = record {
    apart =
        Pairwise-map Apart (clear_job k) db.jobs
          (λ a b. Apart-Follows a b (clear_job k a) (clear_job k b) (cleared a) (cleared b))
          t.apart;
    bounded = bound db.jobs t.bounded;
  }
    where
      cleared : (j : Job) → Follows j (clear_job k j)
      cleared j = elim (Bool-cases (opt_eq j.keyword_id k)) [
        | inl h ↦
            rw (h, if◌then◌else◌)
              (record {
                same_id = refl;
                same_keyword = inr refl;
                same_timeframe = refl;
                same_geo = refl;
                same_gprop = refl;
                not_woken = λ a. a;
              })
        | inr h ↦ rw (h, if◌then◌else◌) (target-Follows j _ refl (λ a. a))
      ]

      bound :
          (xs : List Job)
          → All (λ (j : Job). ltb j.id db.next_job ≡ true) xs
          → All (λ (j : Job). ltb j.id db.next_job ≡ true) (map (clear_job k) xs)
      bound [] b = tt
      bound (x ∷ xs) b = (rw ((cleared x).same_id) b.0, bound xs b.1)
