-- ===== src/Repository/Alerts/Unique.antt =====
-- googletrends_app/repository.py, insert_alert: the unique key, and the length of the table.
use googletrends.Base.{
  ℕ, ◌+◌, ◌≡◌, refl, Bool, true, false, List, [], ◌∷◌, any_of, length, length-append, is_some, All,
  Bool-cases, inl, inr, if◌then◌else◌, arith, eq_iff,
}
use googletrends.Database.{Db, Alert, Result, ok}
use googletrends.Database.Pairwise.{Pairwise, Pairwise-append_one}
use googletrends.Repository.Jobs.{find_keyword}
use googletrends.Repository.Alerts.{is_same_alert, insert_alert}

abbrev pub grown : Result Bool → ℕ
grown (ok true) = 1
grown _ = 0

module _ {R : Type 0} where
  -- Two alerts of different keywords, rules or dates.
  abbrev pub DifferentAlert : Alert R → Alert R → Type 0
  DifferentAlert a b = is_same_alert a b ≡ false

  none_same :
      (new row : Alert R)
      → row.keyword_id ≡ new.keyword_id
      → row.rule ≡ new.rule
      → row.point_date ≡ new.point_date
      → (as' : List (Alert R)) → any_of (is_same_alert new) as' ≡ false
      → All (λ a. DifferentAlert a row) as'
  none_same new row e f g [] h = tt
  none_same new row e f g (a ∷ as') h = (
    ground (
      arith,
      eq_iff a.rule row.rule,
      eq_iff a.point_date row.point_date,
      eq_iff new.rule a.rule,
      eq_iff new.point_date a.point_date,
    ),
    none_same new row e f g as' (ground arith),
  )

  -- The insertion keeps the alerts different.
  pub insert_alert-Different :
      (db : Db R) (stamp : ℕ) (a : Alert R)
      → Pairwise DifferentAlert db.alerts
      → Pairwise DifferentAlert (insert_alert db stamp a).1.alerts
  unfolding insert_alert
  insert_alert-Different db stamp a u = elim (Bool-cases (any_of (is_same_alert a) db.alerts)) [
    | inl old ↦ rw (old, insert_alert, if◌then◌else◌) u
    | inr new ↦ elim (Bool-cases (is_some (find_keyword db a.keyword_id))) [
      | inl k ↦
          let row = record a { id = db.next_alert; remark = ""; created_at = stamp } in
          rw (new, insert_alert, if◌then◌else◌)
            (rw (k, if◌then◌else◌)
              (Pairwise-append_one DifferentAlert db.alerts row u
                (none_same a row refl refl refl db.alerts new)))
      | inr k ↦ rw (new, insert_alert, if◌then◌else◌) (rw (k, if◌then◌else◌) u)
    ]
  ]

  -- The result of an insertion tells whether the table has grown by a row.
  pub insert_alert-length :
      (db : Db R) (stamp : ℕ) (a : Alert R)
      → length (insert_alert db stamp a).1.alerts
        ≡ length db.alerts + grown (insert_alert db stamp a).0
  unfolding insert_alert
  insert_alert-length db stamp a = elim (Bool-cases (any_of (is_same_alert a) db.alerts)) [
    | inl old ↦ rw (old, insert_alert, if◌then◌else◌) (omega arith)
    | inr new ↦ elim (Bool-cases (is_some (find_keyword db a.keyword_id))) [
      | inl k ↦
          rw (new, insert_alert, if◌then◌else◌)
            (rw (k, if◌then◌else◌)
              (length-append db.alerts
                (record a { id = db.next_alert; remark = ""; created_at = stamp } ∷ [])))
      | inr k ↦ rw (new, insert_alert, if◌then◌else◌) (rw (k, if◌then◌else◌) (omega arith))
    ]
  ]
