-- ===== src/Collector/Due/Weights.antt =====
-- googletrends_app/collector.py, process_due_jobs: the attempts that the queued jobs have left, and
-- those that a round of the loop takes.
use googletrends.Base.{
  ℕ, ◌+◌, ◌-◌, ◌<◌, ◌≤◌, ◌≡◌, refl, sym, Bool, true, ◌&&◌, List, [], ◌∷◌, nat_eq, nat_eq→eq,
  Bool-cases, inl, inr, if◌then◌else◌, arith, In, here, there,
}
use mathlib.Core.Path.{subst}
use googletrends.Database.{Job}
use googletrends.Database.Table.{update_where}
use googletrends.Database.Pairwise.{UniqueIds, first_where-UniqueIds, Pairwise-update_where}
use googletrends.Repository.Jobs.{is_queued, start_job}
use googletrends.Collector.Process.{Clock, Outcome, succeeded, requeued, gave_up}
use googletrends.Collector.Process.Updates.{outcome_update, IsDueOutcome}

-- The attempts that a queued job may still take, and one more.
abbrev pub weight : Job → ℕ
weight j = if is_queued j.status then j.max_attempts - j.attempts + 1 else 0

abbrev pub pending : List Job → ℕ
pending [] = 0
pending (j ∷ js) = weight j + pending js

abbrev pub UniqueJobs : List Job → Type 0
UniqueJobs = UniqueIds (λ (j : Job). j.id)

-- Two rows of one key are one row.
pub same_row :
    (jobs : List Job) (a b : Job)
    → UniqueJobs jobs
    → In a jobs
    → In b jobs
    → nat_eq b.id a.id ≡ true
    → b ≡ a
same_row jobs a b u ma mb e =
    let n : b.id ≡ a.id = nat_eq→eq b.id a.id e in
    ground (
      arith,
      n,
      first_where-UniqueIds (λ (j : Job). j.id) jobs u ma,
      rw n at (first_where-UniqueIds (λ (j : Job). j.id) jobs u mb),
    )

module _ (p q : Job → Bool) (s f : Job → Job) where
  -- Two updates, one after the other, on one row.
  abbrev pub twice : Job → Job
  twice j = let k = if p j then s j else j in if q k then f k else k

  pending_le :
      (xs : List Job)
      → ((j : Job) → In j xs → weight (twice j) ≤ weight j)
      → pending (update_where q f (update_where p s xs)) ≤ pending xs
  pending_le [] h = omega arith
  pending_le (x ∷ xs) h = omega (arith, h x (here refl), pending_le xs (λ j m. h j (there m)))

  pub pending_lt :
      (xs : List Job) (job : Job)
      → ((j : Job) → In j xs → weight (twice j) ≤ weight j)
      → In job xs
      → weight (twice job) < weight job
      → pending (update_where q f (update_where p s xs)) < pending xs
  pending_lt [] job h m l = elim m [ ]
  pending_lt (x ∷ xs) job h (here e) l =
      let l' : weight (twice x) < weight x = subst (λ j. weight (twice j) < weight j) e l in
      omega (arith, l', pending_le xs (λ j m. h j (there m)))
  pending_lt (x ∷ xs) job h (there m) l =
      omega (arith, h x (here refl), pending_lt xs job (λ j n. h j (there n)) m l)

-- A row after the start and the end of the claimed job.
abbrev pub ended : ℕ → ℕ → Clock → Outcome → Job → Job → Job
ended now stamp clock outcome job =
    twice (λ j. nat_eq j.id job.id && is_queued j.status) (λ j. nat_eq j.id job.id)
      (start_job now stamp) (outcome_update clock outcome)

module _ (now stamp : ℕ) (clock : Clock) where
  -- The claimed job has fewer attempts to take.
  pub row_lt :
      (outcome : Outcome) (job : Job)
      → is_queued job.status ≡ true
      → IsDueOutcome clock (start_job now stamp job) outcome
      → weight (ended now stamp clock outcome job job) < weight job
  row_lt (succeeded n k) job h d = ground arith
  row_lt (requeued e at delay) job h d = ground (arith, d.0)
  row_lt (gave_up e) job h d = ground arith

  pub rows_le :
      (outcome : Outcome) (jobs : List Job) (job : Job)
      → UniqueJobs jobs
      → In job jobs
      → is_queued job.status ≡ true
      → IsDueOutcome clock (start_job now stamp job) outcome
      → (j : Job) → In j jobs
      → weight (ended now stamp clock outcome job j) ≤ weight j
  rows_le outcome jobs job u m h d j mj = elim (Bool-cases (nat_eq j.id job.id)) [
    | inl e ↦
        subst (λ k. weight (ended now stamp clock outcome job k) ≤ weight k)
          (sym (same_row jobs job j u m mj e)) (omega (arith, row_lt outcome job h d))
    | inr e ↦ ground arith
  ]

  pub UniqueJobs-ended :
      (outcome : Outcome) (jobs : List Job) (id : ℕ)
      → UniqueJobs jobs
      → UniqueJobs (
          update_where
            (λ j. nat_eq j.id id)
            (outcome_update clock outcome)
            (update_where (λ j. nat_eq j.id id && is_queued j.status) (start_job now stamp) jobs))
  UniqueJobs-ended outcome jobs id u =
      Pairwise-update_where _ (λ j. nat_eq j.id id) (outcome_update clock outcome) _
        (λ a b h.
          rw
            (
              kept (λ j. nat_eq j.id id) (outcome_update clock outcome) a (same_id outcome),
              kept (λ j. nat_eq j.id id) (outcome_update clock outcome) b (same_id outcome),
            )
            h)
        (Pairwise-update_where _ (λ j. nat_eq j.id id && is_queued j.status) (start_job now stamp)
          jobs
          (λ a b h.
            rw
              (
                kept (λ j. nat_eq j.id id && is_queued j.status) (start_job now stamp) a
                    (λ j. refl),
                kept (λ j. nat_eq j.id id && is_queued j.status) (start_job now stamp) b
                    (λ j. refl),
              )
              h)
          u)
    where
      same_id : (o : Outcome) (j : Job) → (outcome_update clock o j).id ≡ j.id
      same_id (succeeded n k) j = refl
      same_id (requeued e at delay) j = refl
      same_id (gave_up e) j = refl

      kept :
          (p : Job → Bool) (f : Job → Job) (j : Job)
          → ((k : Job) → (f k).id ≡ k.id)
          → (if p j then f j else j).id ≡ j.id
      kept p f j h = elim (Bool-cases (p j)) [
        | inl t ↦ rw (t, if◌then◌else◌) (h j)
        | inr e ↦ rw (e, if◌then◌else◌)
      ]
