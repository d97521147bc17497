-- ===== src/Repository/Points/Upsert.antt =====
-- googletrends_app/repository.py, upsert_trend_points: the unique key, and the result.
use googletrends.Base.{
  ℕ, ◌+◌, ◌≡◌, refl, ap, ◌∙◌, Bool, true, false, ◌&&◌, List, [], ◌∷◌, nat_eq, is_some, any_of,
  length, All, Bool-cases, inl, inr, if◌then◌else◌, arith, ◌==◌,
}
use googletrends.Trends.{TrendPoint}
use googletrends.Database.{Db, Point, Result, ok, raise}
use googletrends.Database.Pairwise.{Pairwise, Pairwise-append_one, Pairwise-update_where}
use googletrends.Repository.Jobs.{find_keyword}
use googletrends.Repository.Points.{
  Series, has_key, new_point, overwrite, upsert_point, upsert_from, upsert_next,
}

-- The columns of the unique key agree.
abbrev pub same_key : Point → Point → Bool
same_key p q =
    p.point_date == q.point_date
    && nat_eq p.keyword_id q.keyword_id
    && p.geo == q.geo
    && p.gprop == q.gprop
    && p.timeframe == q.timeframe

abbrev pub Apart : Point → Point → Type 0
Apart p q = same_key p q ≡ false

any_of-none :
    (s : Series) (at id : ℕ) (t : TrendPoint) (ps : List Point)
    → any_of (has_key s t.date) ps ≡ false
    → All (λ p. Apart p (new_point id s at t)) ps
any_of-none s at id t [] h = tt
any_of-none s at id t (p ∷ ps) h = (ground arith, any_of-none s at id t ps (ground arith))

overwrite-Apart :
    (s : Series) (at : ℕ) (t : TrendPoint) (p q : Point)
    → Apart p q
    → Apart
        (if has_key s t.date p then overwrite at t p else p)
        (if has_key s t.date q then overwrite at t q else q)
overwrite-Apart s at t p q h = elim (Bool-cases (has_key s t.date p)) [
  | inl a ↦ rw (a, if◌then◌else◌) (rest (overwrite at t p) h)
  | inr a ↦ rw (a, if◌then◌else◌) (rest p h)
]
  where
    rest : (x : Point) → Apart x q → Apart x (if has_key s t.date q then overwrite at t q else q)
    rest x k = elim (Bool-cases (has_key s t.date q)) [
      | inl a ↦ rw (a, if◌then◌else◌) k
      | inr a ↦ rw (a, if◌then◌else◌) k
    ]

module _ {R : Type 0} where
  abbrev pub IsKnown : Db R → ℕ → Type 0
  IsKnown db k = is_some (find_keyword db k) ≡ true

  upsert_point-keywords :
      (db : Db R) (s : Series) (at : ℕ) (t : TrendPoint)
      → (upsert_point db s at t).1.keywords ≡ db.keywords
  unfolding upsert_point
  upsert_point-keywords db s at t = ground arith

  pub upsert_point-IsKnown :
      (db : Db R) (s : Series) (at : ℕ) (t : TrendPoint) (k : ℕ)
      → IsKnown db k
      → IsKnown (upsert_point db s at t).1 k
  unfolding find_keyword
  upsert_point-IsKnown db s at t k h = rw (upsert_point-keywords db s at t) h

  pub upsert_point-ok :
      (db : Db R) (s : Series) (at : ℕ) (t : TrendPoint)
      → IsKnown db s.keyword_id
      → (upsert_point db s at t).0 ≡ ok tt
  unfolding upsert_point
  upsert_point-ok db s at t k = ground arith

  upsert_point-Apart :
      (db : Db R) (s : Series) (at : ℕ) (t : TrendPoint)
      → Pairwise Apart db.points
      → Pairwise Apart (upsert_point db s at t).1.points
  unfolding upsert_point
  upsert_point-Apart db s at t u = elim (Bool-cases (any_of (has_key s t.date) db.points)) [
    | inl old ↦
        rw (old, upsert_point, if◌then◌else◌)
          (Pairwise-update_where Apart (has_key s t.date) (overwrite at t) db.points
            (overwrite-Apart s at t) u)
    | inr new ↦ elim (Bool-cases (is_some (find_keyword db s.keyword_id))) [
      | inl k ↦
          rw (new, upsert_point, if◌then◌else◌)
            (rw (k, if◌then◌else◌)
              (Pairwise-append_one Apart db.points (new_point db.next_point s at t) u
                (any_of-none s at db.next_point t db.points new)))
      | inr k ↦ rw (new, upsert_point, if◌then◌else◌) (rw (k, if◌then◌else◌) u)
    ]
  ]

  next-Apart :
      (later : Result ℕ × Db R) (r : Result Unit × Db R)
      → Pairwise Apart r.1.points
      → Pairwise Apart later.1.points
      → Pairwise Apart (upsert_next later r).1.points
  next-Apart later (ok x, d) h k = k
  next-Apart later (raise e, d) h k = h

  -- Storing points keeps at most one row for each keyword, date, region, search property and
  -- window, also where it fails on the way.
  pub upsert_from-Apart :
      (db : Db R) (s : Series) (at n : ℕ) (ts : List TrendPoint)
      → Pairwise Apart db.points
      → Pairwise Apart (upsert_from db s at n ts).1.points
  unfolding upsert_from
  upsert_from-Apart db s at n [] u = u
  upsert_from-Apart db s at n (t ∷ ts) u =
      next-Apart _ (upsert_point db s at t) (upsert_point-Apart db s at t u) (
        upsert_from-Apart (upsert_point db s at t).1 s at (n + 1) ts
          (upsert_point-Apart db s at t u))

  pub next_ok :
      (later : Result ℕ × Db R) (r : Result Unit × Db R) → r.0 ≡ ok tt → upsert_next later r ≡ later
  next_ok later (ok x, d) h = refl
  next_ok later (raise e, d) h = cc

  -- Storing points for a known keyword does not raise, and returns the count that it began with
  -- and the number of points.
  pub upsert_from-ok :
      (db : Db R) (s : Series) (at n : ℕ) (ts : List TrendPoint)
      → IsKnown db s.keyword_id
      → (upsert_from db s at n ts).0 ≡ ok (n + length ts)
  unfolding upsert_from
  upsert_from-ok db s at n [] k = ap ok (omega arith)
  upsert_from-ok db s at n (t ∷ ts) k =
      ap (λ (r : Result ℕ × Db R). r.0)
        (next_ok (upsert_from (upsert_point db s at t).1 s at (n + 1) ts) (upsert_point db s at t)
          (upsert_point-ok db s at t k))
      ∙ upsert_from-ok (upsert_point db s at t).1 s at (n + 1) ts
          (upsert_point-IsKnown db s at t s.keyword_id k)
      ∙ ap ok (omega arith)
