-- ===== src/Repository/Points/Stored.antt =====
-- googletrends_app/repository.py, upsert_trend_points: the stored values as a map from the dates of a
-- series.
use googletrends.Base.{
  ℕ, ◌+◌, ◌≡◌, refl, ap, ◌∙◌, String, Bool, true, false, Option, none, some, List, [], ◌∷◌, ◌++◌,
  is_some, any_of, first_where, Bool-cases, inl, inr, ◌==◌, eq_iff, if◌then◌else◌, arith,
}
use mathlib.Core.Option
use googletrends.Trends.{TrendPoint}
use googletrends.Database.{Db, Point, Result}
use googletrends.Database.Table.{update_where, first_where-update_where, first_where-In}
use googletrends.Repository.Points.{
  Series, has_key, new_point, overwrite, upsert_point, upsert_from,
}
use googletrends.Repository.Points.Upsert.{IsKnown, upsert_point-ok, upsert_point-IsKnown, next_ok}

abbrev value_of : Option Point → Option ℕ
value_of none = none
value_of (some p) = some p.value

-- The value after a list of points: the last one of the date, or the old one.
abbrev pub newest : List TrendPoint → String → Option ℕ → Option ℕ
newest [] date old = old
newest (t ∷ ts) date old = newest ts date (if t.date == date then some t.value else old)

first_where-any_of :
    {A : Type 0} (p : A → Bool) (xs : List A) → any_of p xs ≡ is_some (first_where p xs)
first_where-any_of p [] = refl
first_where-any_of p (x ∷ xs) = ground (arith, first_where-any_of p xs)

first_where-append_one :
    {A : Type 0} (p : A → Bool) (xs : List A) (y : A)
    → first_where p (xs ++ y ∷ [])
      ≡ (if any_of p xs then first_where p xs else if p y then some y else none)
first_where-append_one p [] y = refl
first_where-append_one p (x ∷ xs) y = ground (arith, first_where-append_one p xs y)

-- A row that a search by one date has found, after an overwriting of another date or the same.
value_overwritten :
    (s : Series) (at : ℕ) (t : TrendPoint) (date : String) (p : Point)
    → has_key s date p ≡ true
    → (if has_key s t.date p then overwrite at t p else p).value
      ≡ (if t.date == date then t.value else p.value)
value_overwritten s at t date p h = elim (Bool-cases (t.date == date)) [
  | inl e ↦
      let k : has_key s t.date p ≡ true = rw ((eq_iff t.date date).0 e) h in
      rw (k, e, if◌then◌else◌) refl
  | inr n ↦
      let k : has_key s t.date p ≡ false =
        ground
          (arith, n, h, eq_iff p.point_date t.date, eq_iff p.point_date date, eq_iff t.date date) in
      rw (k, n, if◌then◌else◌) refl
]

found_overwritten :
    (s : Series) (at : ℕ) (t : TrendPoint) (date : String) (ps : List Point)
    → any_of (has_key s t.date) ps ≡ true
    → value_of (first_where (has_key s date) (update_where (has_key s t.date) (overwrite at t) ps))
      ≡ (if t.date == date then some t.value else value_of (first_where (has_key s date) ps))
found_overwritten s at t date ps h =
    ap value_of
      (first_where-update_where (has_key s date) (has_key s t.date) (overwrite at t) ps (λ x. refl))
    ∙ cases (first_where (has_key s date) ps) refl
  where
    cases :
        (o : Option Point)
        → first_where (has_key s date) ps ≡ o
        → value_of (Option.map (λ p. if has_key s t.date p then overwrite at t p else p) o)
          ≡ (if t.date == date then some t.value else value_of o)
    cases (some p) e =
        ground (arith, value_overwritten s at t date p (first_where-In (has_key s date) ps e).1)
    cases none e = elim (Bool-cases (t.date == date)) [
      | inr n ↦ rw (n, if◌then◌else◌) refl
      | inl y ↦
          let found : any_of (has_key s date) ps ≡ true = rw ((eq_iff t.date date).0 y) at h in
          absurd (ground (arith, found, e, first_where-any_of (has_key s date) ps))
    ]

has_key-new_point :
    (s : Series) (at id : ℕ) (t : TrendPoint) (date : String)
    → has_key s date (new_point id s at t) ≡ (t.date == date)
has_key-new_point s at id t date = ground (
  arith,
  (eq_iff s.geo s.geo).1 refl,
  (eq_iff s.gprop s.gprop).1 refl,
  (eq_iff s.timeframe s.timeframe).1 refl,
)

found_appended :
    (s : Series) (at id : ℕ) (t : TrendPoint) (date : String) (ps : List Point)
    → any_of (has_key s t.date) ps ≡ false
    → value_of (first_where (has_key s date) (ps ++ new_point id s at t ∷ []))
      ≡ (if t.date == date then some t.value else value_of (first_where (has_key s date) ps))
found_appended s at id t date ps new =
    ap value_of (
      first_where-append_one (has_key s date) ps (new_point id s at t)
      ∙ ap
          (λ b.
            if any_of (has_key s date) ps
            then first_where (has_key s date) ps
            else if b
            then some (new_point id s at t)
            else none)
          (has_key-new_point s at id t date))
    ∙ elim (Bool-cases (t.date == date)) [
      | inl e ↦
          let none_old : any_of (has_key s date) ps ≡ false =
            rw ((eq_iff t.date date).0 e) at new in
          rw (e, none_old, if◌then◌else◌) refl
      | inr n ↦
          rw (n, if◌then◌else◌)
            (others (first_where (has_key s date) ps) (first_where-any_of (has_key s date) ps))
    ]
  where
    others :
        (o : Option Point)
        → any_of (has_key s date) ps ≡ is_some o
        → value_of (
            if any_of (has_key s date) ps
            then o
            else if false
            then some (new_point id s at t)
            else none)
          ≡ value_of o
    others (some p) e = rw (e, if◌then◌else◌) refl
    others none e = rw (e, if◌then◌else◌) refl

module _ {R : Type 0} where
  -- The value that is stored for a date of a series.
  unfoldable pub stored : Db R → Series → String → Option ℕ
  stored db s date = value_of (first_where (has_key s date) db.points)

  upsert_point-stored :
      (db : Db R) (s : Series) (at : ℕ) (t : TrendPoint) (date : String)
      → IsKnown db s.keyword_id
      → stored (upsert_point db s at t).1 s date
        ≡ (if t.date == date then some t.value else stored db s date)
  unfolding stored upsert_point
  upsert_point-stored db s at t date k = elim (Bool-cases (any_of (has_key s t.date) db.points)) [
    | inl old ↦ rw (old, upsert_point, if◌then◌else◌) (found_overwritten s at t date db.points old)
    | inr new ↦
        rw (new, upsert_point, if◌then◌else◌)
          (rw (k, if◌then◌else◌) (found_appended s at db.next_point t date db.points new))
  ]

  -- Storing a provider's points for a known keyword updates the map from dates to values of the
  -- series: a date has the last value that the list gives for it, and its old value, or none, if
  -- the list does not name it.
  pub upsert_from-stored :
      (db : Db R) (s : Series) (at n : ℕ) (ts : List TrendPoint) (date : String)
      → IsKnown db s.keyword_id
      → stored (upsert_from db s at n ts).1 s date ≡ newest ts date (stored db s date)
  unfolding upsert_from
  upsert_from-stored db s at n [] date k = refl
  upsert_from-stored db s at n (t ∷ ts) date k =
      ap (λ (r : Result ℕ × Db R). stored r.1 s date)
        (next_ok (upsert_from (upsert_point db s at t).1 s at (n + 1) ts) (upsert_point db s at t)
          (upsert_point-ok db s at t k))
      ∙ upsert_from-stored (upsert_point db s at t).1 s at (n + 1) ts date
          (upsert_point-IsKnown db s at t s.keyword_id k)
      ∙ ap (newest ts date) (upsert_point-stored db s at t date k)
