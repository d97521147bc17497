-- ===== src/Repository/Jobs/Monitored.antt =====
-- googletrends_app/repository.py, delete_unmonitored_queued_jobs: the queued jobs that it keeps.
use googletrends.Base.{
  ℕ, ◌≡◌, refl, ap, ◌∙◌, Bool, true, false, not, ◌&&◌, ◌||◌, Option, none, some, List, [], ◌∷◌,
  any_of, first_where, nat_eq, In, here, there, In-select, Option-cases, inl, inr, arith,
}
use googletrends.Trends.Codec.{csv_has}
use googletrends.Database.{Db, Keyword, Job}
use googletrends.Database.Table.{first_where-In}
use googletrends.Repository.Jobs.{
  delete_unmonitored_queued_jobs, delete_jobs, is_unmonitored, is_queued, is_monitored, refers_to,
  keyword_of, find_keyword,
}

any_of-In :
    {A : Type 0} (p : A → Bool) (a : A) (xs : List A) → any_of p xs ≡ false → In a xs → p a ≡ false
any_of-In p a [] h m = elim m [ ]
any_of-In p a (x ∷ xs) h (here e) = rw e (ground arith)
any_of-In p a (x ∷ xs) h (there m) = any_of-In p a xs (ground arith) m

first_where-none_any :
    {A : Type 0} (p : A → Bool) (xs : List A) → first_where p xs ≡ none → any_of p xs ≡ false
first_where-none_any p [] h = refl
first_where-none_any p (x ∷ xs) h = ground (arith, first_where-none_any p xs)

refers_to-none : (ks : List Keyword) → any_of (refers_to none) ks ≡ false
refers_to-none [] = refl
refers_to-none (k ∷ ks) = ground (arith, refers_to-none ks)

-- The two conditions on the keyword of a job that is kept.
keeper :
    (ks : List Keyword) (j : Job) (id : Option ℕ)
    → any_of (refers_to id) ks ≡ true
    → any_of
        (λ k.
          refers_to id k
          && (not (csv_has k.timeframes j.timeframe) || not (csv_has k.gprop j.gprop)))
        ks
      ≡ false
    → (i : ℕ) × (id ≡ some i)
      × (k : Keyword) × (first_where (λ k. nat_eq k.id i) ks ≡ some k)
      × (is_monitored k j ≡ true)
keeper ks j none h n = absurd (ground (arith, refers_to-none ks))
keeper ks j (some i) h n = elim (Option-cases (first_where (λ (k : Keyword). nat_eq k.id i) ks)) [
  | inl e ↦ absurd (ground (arith, h, first_where-none_any (λ (k : Keyword). nat_eq k.id i) ks e))
  | inr (k, e) ↦
      let m = first_where-In (λ (k : Keyword). nat_eq k.id i) ks e in
      let d = any_of-In _ k ks n m.0 in (i, refl, k, e, ground (arith, m.1, d))
]

module _ {R : Type 0} where
  -- Every queued job that the deletion of unmonitored jobs has kept has a keyword, and the
  -- keyword's windows and search properties have those of the job, by the search that the claim
  -- makes.
  pub delete_unmonitored_queued_jobs-IsMonitored :
      (db : Db R) (j : Job)
      → In j (delete_unmonitored_queued_jobs db).1.jobs
      → is_queued j.status ≡ true
      → (k : Keyword) × (keyword_of db j.keyword_id ≡ some k) × (is_monitored k j ≡ true)
  unfolding delete_unmonitored_queued_jobs delete_jobs is_unmonitored find_keyword
  delete_unmonitored_queued_jobs-IsMonitored db j m q =
      let kept = (In-select (λ j. not (is_unmonitored db j)) j db.jobs m).1 in
      finish (keeper db.keywords j j.keyword_id (ground (arith, kept, q)) (ground (arith, kept, q)))
    where
      finish :
          (i : ℕ) × (j.keyword_id ≡ some i)
            × (k : Keyword) × (first_where (λ (k : Keyword). nat_eq k.id i) db.keywords ≡ some k)
            × (is_monitored k j ≡ true)
          → (k : Keyword) × (keyword_of db j.keyword_id ≡ some k) × (is_monitored k j ≡ true)
      finish (i, e, k, f, g) = (k, ap (keyword_of db) e ∙ f, g)
