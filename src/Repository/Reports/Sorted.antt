-- ===== src/Repository/Reports/Sorted.antt =====
-- googletrends_app/repository.py, `ORDER BY` and `LIMIT`: the order of the rows, and which of them a
-- limit keeps.
use googletrends.Base.{
  ℕ, zero, suc, ◌≤◌, ◌≡◌, refl, Bool, false, ◌⊎◌, inl, inr, List, [], ◌∷◌, All, In, here, there,
  length, take, Bool-cases, if◌then◌else◌, arith,
}
use googletrends.Database.Table.{IsOrder}
use googletrends.Database.Pairwise.{Pairwise, All-map_of}
use googletrends.Repository.Reports.{insert_row, sorted_rows}

In-take : {A : Type 0} {a : A} (n : ℕ) (xs : List A) → In a (take n xs) → In a xs
In-take zero xs m = elim m [ ]
In-take (suc n) [] m = elim m [ ]
In-take (suc n) (x ∷ xs) (here e) = here e
In-take (suc n) (x ∷ xs) (there m) = there (In-take n xs m)

In-swapped :
    {A : Type 0} {a : A} (x y : A) {xs ys : List A}
    → In a (y ∷ xs)
    → (In a xs → In a (x ∷ ys))
    → In a (x ∷ y ∷ ys)
In-swapped x y (here e) g = there (here e)
In-swapped x y (there k) g = elim (g k) [ here e ↦ here e | there l ↦ there (there l) ]

In-insert_row :
    {A : Type 0} (before : A → A → Bool) {a : A} (x : A) (xs : List A)
    → In a (insert_row before x xs)
    → In a (x ∷ xs)
In-insert_row before x [] m = m
In-insert_row before x (y ∷ ys) m = elim (Bool-cases (before y x)) [
  | inl t ↦ In-swapped x y (rw (t, if◌then◌else◌) at m) (λ k. In-insert_row before x ys k)
  | inr f ↦ rw (f, if◌then◌else◌) at m
]

In-sorted_rows :
    {A : Type 0} (before : A → A → Bool) {a : A} (xs : List A)
    → In a (sorted_rows before xs)
    → In a xs
unfolding sorted_rows
In-sorted_rows before [] m = m
In-sorted_rows before (x ∷ xs) m = elim (In-insert_row before x (sorted_rows before xs) m) [
  | here e ↦ here e
  | there k ↦ there (In-sorted_rows before xs k)
]

In-insert_row_self :
    {A : Type 0} (before : A → A → Bool) (x : A) (xs : List A) → In x (insert_row before x xs)
In-insert_row_self before x [] = here refl
In-insert_row_self before x (y ∷ ys) = elim (Bool-cases (before y x)) [
  | inl t ↦ rw (t, if◌then◌else◌) (there (In-insert_row_self before x ys))
  | inr f ↦ rw (f, if◌then◌else◌) (here refl)
]

In-insert_row_keep :
    {A : Type 0} (before : A → A → Bool) {a : A} (x : A) (xs : List A)
    → In a xs
    → In a (insert_row before x xs)
In-insert_row_keep before x [] m = elim m [ ]
In-insert_row_keep before x (y ∷ ys) (here e) = elim (Bool-cases (before y x)) [
  | inl t ↦ rw (t, if◌then◌else◌) (here e)
  | inr f ↦ rw (f, if◌then◌else◌) (there (here e))
]
In-insert_row_keep before x (y ∷ ys) (there m) = elim (Bool-cases (before y x)) [
  | inl t ↦ rw (t, if◌then◌else◌) (there (In-insert_row_keep before x ys m))
  | inr f ↦ rw (f, if◌then◌else◌) (there (there m))
]

In-sorted_rows_left :
    {A : Type 0} (before : A → A → Bool) {a : A} (xs : List A)
    → In a xs
    → In a (sorted_rows before xs)
unfolding sorted_rows
In-sorted_rows_left before [] m = m
In-sorted_rows_left before (x ∷ xs) (here e) =
    rw e (In-insert_row_self before x (sorted_rows before xs))
In-sorted_rows_left before (x ∷ xs) (there m) =
    In-insert_row_keep before x (sorted_rows before xs) (In-sorted_rows_left before xs m)

-- No row comes before an earlier one.
abbrev pub IsSorted : {A : Type 0} → (A → A → Bool) → List A → Type 0
IsSorted before = Pairwise (λ x y. before y x ≡ false)

module _ {A : Type 0} (before : A → A → Bool) (order : IsOrder before) where
  -- What is not before one row, and that row not before another, is not before the other.
  not_before : (x y z : A) → before y x ≡ false → before z y ≡ false → before z x ≡ false
  not_before x y z h k = elim (Bool-cases (before z x)) [
    | inl t ↦ ground (arith, order.cotrans z y x t)
    | inr f ↦ f
  ]

  All-insert_row :
      (P : A → Type 0) (x : A) (xs : List A) → P x → All P xs → All P (insert_row before x xs)
  All-insert_row P x [] p a = (p, tt)
  All-insert_row P x (y ∷ ys) p a = elim (Bool-cases (before y x)) [
    | inl t ↦ rw (t, if◌then◌else◌) (a.0, All-insert_row P x ys p a.1)
    | inr f ↦ rw (f, if◌then◌else◌) (p, a)
  ]

  insert_row-IsSorted :
      (x : A) (xs : List A) → IsSorted before xs → IsSorted before (insert_row before x xs)
  insert_row-IsSorted x [] s = (tt, tt)
  insert_row-IsSorted x (y ∷ ys) s = elim (Bool-cases (before y x)) [
    | inl t ↦
        rw (t, if◌then◌else◌)
          (
            All-insert_row (λ z. before z y ≡ false) x ys (order.asym y x t) s.0,
            insert_row-IsSorted x ys s.1,
          )
    | inr f ↦
        rw (f, if◌then◌else◌)
          (
            (
              f,
              All-map_of (λ z. before z y ≡ false) (λ z. before z x ≡ false) ys
                  (λ z h. not_before x y z f h) s.0,
            ),
            s,
          )
  ]

  sorted_rows-IsSorted : (xs : List A) → IsSorted before (sorted_rows before xs)
  unfolding sorted_rows
  sorted_rows-IsSorted [] = tt
  sorted_rows-IsSorted (x ∷ xs) =
      insert_row-IsSorted x (sorted_rows before xs) (sorted_rows-IsSorted xs)

  All-take : (P : A → Type 0) (n : ℕ) (xs : List A) → All P xs → All P (take n xs)
  All-take P zero xs a = tt
  All-take P (suc n) [] a = tt
  All-take P (suc n) (x ∷ xs) a = (a.0, All-take P n xs a.1)

  take-IsSorted : (n : ℕ) (xs : List A) → IsSorted before xs → IsSorted before (take n xs)
  take-IsSorted zero xs s = tt
  take-IsSorted (suc n) [] s = tt
  take-IsSorted (suc n) (x ∷ xs) s =
      (All-take (λ z. before z x ≡ false) n xs s.0, take-IsSorted n xs s.1)

  All-In : (P : A → Type 0) (xs : List A) {a : A} → All P xs → In a xs → P a
  All-In P [] h m = elim m [ ]
  All-In P (x ∷ xs) h (here e) = rw e (h.0)
  All-In P (x ∷ xs) h (there m) = All-In P xs h.1 m

  -- A row beyond the limit comes before none of the kept ones, of which there are as many as allowed.
  left_out :
      (n : ℕ) (xs : List A) {a : A}
      → IsSorted before xs
      → In a xs
      → In a (take n xs) ⊎ ((length (take n xs) ≡ n) × All (λ z. before a z ≡ false) (take n xs))
  left_out zero xs s m = inr (refl, tt)
  left_out (suc n) [] s m = elim m [ ]
  left_out (suc n) (x ∷ xs) s (here e) = inl (here e)
  left_out (suc n) (x ∷ xs) s (there m) = elim (left_out n xs s.1 m) [
    | inl k ↦ inl (there k)
    | inr (l, a) ↦ inr (omega (arith, l), (All-In (λ z. before z x ≡ false) xs s.0 m, a))
  ]

  -- The rows that a query with an order and a limit takes out of a list.
  pub record IsTop (n : ℕ) (xs top : List A) : Type 0 where
    pub sorted : IsSorted before top
    pub at_most : length top ≤ n
    pub from_list : (a : A) → In a top → In a xs
    pub best : (a : A) → In a xs → In a top ⊎ ((length top ≡ n) × All (λ z. before a z ≡ false) top)

  take_le : (n : ℕ) (xs : List A) → length (take n xs) ≤ n
  take_le zero xs = omega arith
  take_le (suc n) [] = omega arith
  take_le (suc n) (x ∷ xs) = omega (arith, take_le n xs)

  pub take-sorted_rows-IsTop : (n : ℕ) (xs : List A) → IsTop n xs (take n (sorted_rows before xs))
  take-sorted_rows-IsTop n xs = record {
    sorted = take-IsSorted n (sorted_rows before xs) (sorted_rows-IsSorted xs);
    at_most = take_le n (sorted_rows before xs);
    from_list = λ a m. In-sorted_rows before xs (In-take n (sorted_rows before xs) m);
    best = λ a m.
        left_out n (sorted_rows before xs) (sorted_rows-IsSorted xs)
          (In-sorted_rows_left before xs m);
  }
