-- ===== src/Web/Pages/Preview.antt =====
-- googletrends_app/main.py, select_preview_points: the window and the points of a preview.
use googletrends.Base.{
  ℕ, zero, suc, ◌≤◌, ◌≡◌, refl, sym, ap, ◌∙◌, String, Bool, true, false, ◌&&◌, some, List, [], ◌∷◌,
  All, select, take, length, length-take, contains, nat_eq, Bool-cases, inl, inr, ◌==◌, eq_iff,
  if◌then◌else◌, arith,
}
use googletrends.Trends.{available_timeframes, monitored_timeframes, short_timeframe}
use googletrends.Trends.RoundTrip.{parse_timeframes-IsSelection}
use googletrends.Trends.RoundTrip.Selection.{IsSelection}
use googletrends.Database.{Db, Keyword, Point}
use googletrends.Repository.Keywords.{keyword_timeframes, keyword_gprop, head_or}
use googletrends.Repository.Points.{
  sort_points, insert_by_date, date_le, date_ge, listed, list_trend_points,
}
use googletrends.Web.Pages.{or_windows, preview_timeframe, select_preview_points}

-- The head of a selection passes the test, if some element does.
head-select :
    (p : String → Bool) (x d : String) (xs windows : List String)
    → contains x xs ≡ true
    → p x ≡ true
    → p (head_or d (or_windows (select p xs) windows)) ≡ true
head-select p x d [] windows c t = cc c
head-select p x d (y ∷ ys) windows c t = elim (Bool-cases (p y)) [
  | inl h ↦ rw (h, if◌then◌else◌) h
  | inr h ↦ elim (Bool-cases (x == y)) [
    | inl e ↦ absurd (other ((eq_iff x y).0 e) h)
    | inr e ↦ rw (h, if◌then◌else◌) (head-select p x d ys windows (ground arith) t)
  ]
]
  where
    other : x ≡ y → p y ≡ false → ⊥
    other e f = cc (ap p e, t, f)

module _ (P : Point → Type 0) (le : Point → Point → Bool) where
  All-insert_by_date :
      (p : Point) (ps : List Point) → P p → All P ps → All P (insert_by_date le p ps)
  All-insert_by_date p [] h a = (h, tt)
  All-insert_by_date p (q ∷ qs) h a = elim (Bool-cases (le p q)) [
    | inl t ↦ rw (t, if◌then◌else◌) (h, a)
    | inr f ↦ rw (f, if◌then◌else◌) (a.0, All-insert_by_date p qs h a.1)
  ]

  All-sort_points : (ps : List Point) → All P ps → All P (sort_points le ps)
  unfolding sort_points
  All-sort_points [] a = tt
  All-sort_points (p ∷ ps) a = All-insert_by_date p (sort_points le ps) a.0 (All-sort_points ps a.1)

length-insert_by_date :
    (le : Point → Point → Bool) (p : Point) (ps : List Point)
    → length (insert_by_date le p ps) ≡ suc (length ps)
length-insert_by_date le p [] = refl
length-insert_by_date le p (q ∷ qs) = ground (arith, length-insert_by_date le p qs)

length-sort_points :
    (le : Point → Point → Bool) (ps : List Point) → length (sort_points le ps) ≡ length ps
unfolding sort_points
length-sort_points le [] = refl
length-sort_points le (p ∷ ps) =
    length-insert_by_date le p (sort_points le ps) ∙ ap suc (length-sort_points le ps)

All-taken : (P : Point → Type 0) (n : ℕ) (ps : List Point) → All P ps → All P (take n ps)
All-taken P zero ps a = tt
All-taken P (suc n) [] a = tt
All-taken P (suc n) (p ∷ ps) a = (a.0, All-taken P n ps a.1)

All-selected : (p : Point → Bool) (ps : List Point) → All (λ q. p q ≡ true) (select p ps)
All-selected p [] = tt
All-selected p (q ∷ qs) = elim (Bool-cases (p q)) [
  | inl t ↦ rw (t, if◌then◌else◌) (t, All-selected p qs)
  | inr f ↦ rw (f, if◌then◌else◌) (All-selected p qs)
]

-- A preview of a keyword: a window that it has, and at most eighty points of its first search
-- property in that window.
pub record IsPreview (keyword : Keyword) (timeframe : String) (points : List Point) : Type 0 where
  pub own_window : contains timeframe (keyword_timeframes keyword) ≡ true
  pub own_points :
      All
        (λ (p : Point).
          (nat_eq p.keyword_id keyword.id
            && p.timeframe == timeframe
            && p.gprop == keyword_gprop keyword)
          ≡ true)
        points
  pub at_most : length points ≤ 80

own_window_of :
    (keyword : Keyword) (items : List String)
    → items ≡ keyword_timeframes keyword
    → IsSelection available_timeframes items
    → contains (preview_timeframe keyword) (keyword_timeframes keyword) ≡ true
unfolding preview_timeframe
own_window_of keyword [] e s = cc (s.nonempty)
own_window_of keyword (x ∷ xs) e s =
    head-select (λ t. contains t (keyword_timeframes keyword)) x short_timeframe
      available_timeframes monitored_timeframes s.members.0
      (ap (contains x) (sym e) ∙ ground (arith, (eq_iff x x).1 refl))

own-IsSelection :
    (keyword : Keyword) → IsSelection available_timeframes (keyword_timeframes keyword)
unfolding keyword_timeframes
own-IsSelection keyword = parse_timeframes-IsSelection (some keyword.timeframes)

module _ {R : Type 0} where
  -- The preview of a keyword shows one of the keyword's own windows, and at most 80 points, all of
  -- the keyword, of that window and of the keyword's first search property.
  pub select_preview_points-IsPreview :
      (db : Db R) (keyword : Keyword)
      → let r = select_preview_points db keyword in IsPreview keyword r.0 r.1
  unfolding select_preview_points list_trend_points
  select_preview_points-IsPreview db keyword =
      let timeframe = preview_timeframe keyword in
      let gprop = keyword_gprop keyword in
      let rows = listed db keyword.id (some timeframe) (some gprop) in
      let P = λ (p : Point).
        (nat_eq p.keyword_id keyword.id && p.timeframe == timeframe && p.gprop == gprop) ≡ true in
      let newest = take 80 (sort_points date_ge rows) in
      record {
        own_window =
            own_window_of keyword (keyword_timeframes keyword) refl (own-IsSelection keyword);
        own_points = All-sort_points P date_le newest (
            All-taken P 80 (sort_points date_ge rows)
              (All-sort_points P date_ge rows (All-selected _ db.points)));
        at_most =
            omega
              (arith, length-sort_points date_le newest, length-take 80 (sort_points date_ge rows));
      }
