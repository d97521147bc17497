-- ===== src/Repository/Keywords/Bulk.antt =====
-- googletrends_app/repository.py, the bulk change of windows: all planned writes, or none.
use googletrends.Base.{
  ℕ, ◌+◌, ◌≡◌, refl, String, Option, none, some, List, [], ◌∷◌, select, contains, is_empty, length,
  Bool-cases, inl, inr, if◌then◌else◌,
}
use googletrends.Trends.{available_timeframes}
use googletrends.Trends.Codec.{remove_duplicates}
use googletrends.Database.{Db, Error, Result, ok, raise}
use googletrends.Repository.Jobs.Harmless.{Harmless, same-Harmless, then-Harmless}
use googletrends.Repository.Keywords.{
  Action, is_action, write_keyword_timeframes, plan_targets, write_plan, unique_from,
  bulk_adjust_keyword_timeframes, WriteFaults, Transaction, write_targets, end_transaction,
  transact, begin, set_timeframes,
}
use googletrends.Repository.Keywords.Harmless.{write_keyword_timeframes-Harmless}

module _ {R : Type 0} where
  -- All the planned writes, one after the other.
  abbrev pub all_written : Db R → ℕ → List (ℕ × String) → Db R
  all_written db now [] = db
  all_written db now ((k, selected) ∷ rest) =
      all_written (write_keyword_timeframes db now k selected) now rest

  -- The transaction after its writes: the database to restore is still there, and all is written
  -- unless a statement was refused.
  abbrev IsWritten : Transaction R → Db R → Result Unit × Transaction R → Type 0
  IsWritten t db (ok _, t') = (t'.saved ≡ t.saved) × (t'.written ≡ db)
  IsWritten t db (raise e, t') = t'.saved ≡ t.saved

  write_targets-IsWritten :
      (faults : ℕ → Option Error) (t : Transaction R) (now : ℕ) (targets : List (ℕ × String))
      → IsWritten t (all_written t.written now targets) (write_targets faults t now targets)
  unfolding write_targets
  write_targets-IsWritten faults t now [] = (refl, refl)
  write_targets-IsWritten faults t now ((k, selected) ∷ rest) = first (faults 0) (faults 1) (
      write_targets-IsWritten (λ i. faults (i + 2))
        (record t { written = write_keyword_timeframes t.written now k selected }) now rest)
    where
      same_saved :
          (r : Result Unit × Transaction R)
          → IsWritten
              (record t { written = write_keyword_timeframes t.written now k selected })
              (all_written (write_keyword_timeframes t.written now k selected) now rest)
              r
          → IsWritten t (all_written t.written now ((k, selected) ∷ rest)) r
      same_saved (ok _, t') h = h
      same_saved (raise e, t') h = h

      first :
          (a b : Option Error)
          → IsWritten
              (record t { written = write_keyword_timeframes t.written now k selected })
              (all_written (write_keyword_timeframes t.written now k selected) now rest)
              (write_targets
                (λ i. faults (i + 2))
                (record t { written = write_keyword_timeframes t.written now k selected })
                now
                rest)
          → IsWritten t (all_written t.written now ((k, selected) ∷ rest)) (elim a [
            | some e ↦ (raise e, t)
            | none ↦ elim b [
              | some e ↦ (raise e, record t { written = set_timeframes t.written now k selected })
              | none ↦
                  write_targets
                    (λ i. faults (i + 2))
                    (record t { written = write_keyword_timeframes t.written now k selected })
                    now
                    rest
            ]
          ])
      first (some e) b h = refl
      first none (some e) h = refl
      first none none h =
          same_saved
            (write_targets (λ i. faults (i + 2))
              (record t { written = write_keyword_timeframes t.written now k selected }) now rest)
            h

  -- All of a plan, or nothing: a result counts the keywords of the plan, which are all written, and
  -- an exception leaves the database as it was.
  abbrev pub IsAllOrNothing : Db R → ℕ → Result (List (ℕ × String)) → Result ℕ × Db R → Type 0
  IsAllOrNothing db now plan (ok n, db') =
      (targets : List (ℕ × String)) × (plan ≡ ok targets)
      × (n ≡ length targets)
      × (db' ≡ all_written db now targets)
  IsAllOrNothing db now plan (raise e, db') = db' ≡ db

  end-IsAllOrNothing :
      (db : Db R) (now : ℕ) (targets : List (ℕ × String)) (fault : Option Error)
      (r : Result Unit × Transaction R)
      → IsWritten (begin db) (all_written db now targets) r
      → IsAllOrNothing db now (ok targets) (end_transaction (length targets) fault r)
  end-IsAllOrNothing db now targets none (ok _, t) h = (targets, refl, refl, h.1)
  end-IsAllOrNothing db now targets (some e) (ok _, t) h = h.0
  end-IsAllOrNothing db now targets none (raise e, t) h = h
  end-IsAllOrNothing db now targets (some x) (raise e, t) h = h

  transact-IsAllOrNothing :
      (faults : WriteFaults) (db : Db R) (now : ℕ) (targets : List (ℕ × String))
      (fault : Option Error)
      → IsAllOrNothing db now (ok targets) (transact faults db now targets fault)
  transact-IsAllOrNothing faults db now targets (some e) = refl
  transact-IsAllOrNothing faults db now targets none =
      end-IsAllOrNothing db now targets faults.at_commit
        (write_targets faults.at_statement (begin db) now targets)
        (write_targets-IsWritten faults.at_statement (begin db) now targets)

  plan-IsAllOrNothing :
      (faults : WriteFaults) (db : Db R) (now : ℕ) (plan : Result (List (ℕ × String)))
      → IsAllOrNothing db now plan (write_plan faults db now plan)
  plan-IsAllOrNothing faults db now (ok []) = ([], refl, refl, refl)
  plan-IsAllOrNothing faults db now (ok (target ∷ rest)) =
      transact-IsAllOrNothing faults db now (target ∷ rest) faults.at_begin
  plan-IsAllOrNothing faults db now (raise e) = refl

  -- What a bulk change plans to write.
  abbrev pub planned : Db R → List ℕ → List String → Action → Result (List (ℕ × String))
  planned db ids timeframes action =
      plan_targets db action
        (select (λ t. contains t available_timeframes) (remove_duplicates timeframes))
        (unique_from [] ids)

  -- Wherever SQLite refuses a statement of the transaction, its BEGIN or its COMMIT, a bulk change
  -- of windows does all of its plan or nothing: if it returns, the planned windows of every
  -- keyword that it counts are written and their jobs dropped, and if it raises, the database is
  -- as it was.
  pub bulk_adjust_keyword_timeframes-IsAllOrNothing :
      (faults : WriteFaults) (db : Db R) (now : ℕ) (ids : List ℕ) (timeframes : List String)
      (action : Action)
      → IsAllOrNothing db now
          (planned db ids timeframes action)
          (bulk_adjust_keyword_timeframes faults db now ids timeframes action)
  unfolding bulk_adjust_keyword_timeframes
  bulk_adjust_keyword_timeframes-IsAllOrNothing faults db now ids ts action =
      let chosen = select (λ t. contains t available_timeframes) (remove_duplicates ts) in
      elim (Bool-cases (is_action action)) [
        | inr a ↦ rw (a, if◌then◌else◌) refl
        | inl a ↦ elim (Bool-cases (is_empty chosen)) [
          | inl b ↦ rw (a, b, if◌then◌else◌) refl
          | inr b ↦
              rw (a, b, if◌then◌else◌)
                (plan-IsAllOrNothing faults db now (planned db ids ts action))
        ]
      ]

  all_written-Harmless :
      (db : Db R) (now : ℕ) (targets : List (ℕ × String)) → Harmless db (all_written db now targets)
  all_written-Harmless db now [] = same-Harmless db db refl refl
  all_written-Harmless db now ((k, selected) ∷ rest) =
      then-Harmless (write_keyword_timeframes-Harmless db now k selected)
        (all_written-Harmless (write_keyword_timeframes db now k selected) now rest)

  pub bulk_adjust_keyword_timeframes-Harmless :
      (faults : WriteFaults) (db : Db R) (now : ℕ) (ids : List ℕ) (timeframes : List String)
      (action : Action)
      → Harmless db (bulk_adjust_keyword_timeframes faults db now ids timeframes action).1
  bulk_adjust_keyword_timeframes-Harmless faults db now ids ts action =
      from (bulk_adjust_keyword_timeframes faults db now ids ts action)
        (bulk_adjust_keyword_timeframes-IsAllOrNothing faults db now ids ts action)
    where
      from :
          (r : Result ℕ × Db R)
          → IsAllOrNothing db now (planned db ids ts action) r
          → Harmless db r.1
      from (ok n, db') (targets, p, c, e) = rw e (all_written-Harmless db now targets)
      from (raise x, db') e = rw e (same-Harmless db db refl refl)

  pub bulk_adjust_keyword_timeframes-error :
      (faults : WriteFaults) (db : Db R) (now : ℕ) (ids : List ℕ) (timeframes : List String)
      (action : Action) (e : Error)
      → (bulk_adjust_keyword_timeframes faults db now ids timeframes action).0 ≡ raise e
      → (bulk_adjust_keyword_timeframes faults db now ids timeframes action).1 ≡ db
  bulk_adjust_keyword_timeframes-error faults db now ids ts action e =
      from (bulk_adjust_keyword_timeframes faults db now ids ts action)
        (bulk_adjust_keyword_timeframes-IsAllOrNothing faults db now ids ts action)
    where
      from :
          (r : Result ℕ × Db R)
          → IsAllOrNothing db now (planned db ids ts action) r
          → r.0 ≡ raise e
          → r.1 ≡ db
      from (ok n, db') h x = cc x
      from (raise y, db') h x = h
