-- ===== src/Web/Charts/Sorted.antt =====
-- googletrends_app/main.py, select_tick_indexes: the order of `sorted` of a set.
use googletrends.Base.{
  ℕ, zero, suc, ◌+◌, ◌<◌, ◌≤◌, ◌≡◌, refl, inl, inr, List, [], ◌∷◌, All, In, here, there, length,
  ltb, ltb→lt, nat_eq, nat_eq→eq, Bool-cases, if◌then◌else◌, arith,
}
use googletrends.Database.Pairwise.{Pairwise, All-map_of}
use googletrends.Web.Charts.{insert_sorted, sorted_set, range_from}

-- Each number is below every later one.
abbrev pub IsIncreasing : List ℕ → Type 0
IsIncreasing = Pairwise (λ x y. x < y)

module _ {κ} (P : ℕ → Type κ) where
  All-insert_sorted : (n : ℕ) (xs : List ℕ) → P n → All P xs → All P (insert_sorted n xs)
  All-insert_sorted n [] p a = (p, tt)
  All-insert_sorted n (x ∷ xs) p a = elim (Bool-cases (ltb n x)) [
    | inl l ↦ rw (l, if◌then◌else◌) (p, a)
    | inr l ↦ elim (Bool-cases (nat_eq n x)) [
      | inl e ↦ rw (l, e, if◌then◌else◌) a
      | inr e ↦ rw (l, e, if◌then◌else◌) (a.0, All-insert_sorted n xs p a.1)
    ]
  ]

  pub All-sorted_set : (xs : List ℕ) → All P xs → All P (sorted_set xs)
  unfolding sorted_set
  All-sorted_set [] a = tt
  All-sorted_set (x ∷ xs) a = All-insert_sorted x (sorted_set xs) a.0 (All-sorted_set xs a.1)

insert_sorted-IsIncreasing :
    (n : ℕ) (xs : List ℕ) → IsIncreasing xs → IsIncreasing (insert_sorted n xs)
insert_sorted-IsIncreasing n [] i = (tt, tt)
insert_sorted-IsIncreasing n (x ∷ xs) i = elim (Bool-cases (ltb n x)) [
  | inl l ↦
      rw (l, if◌then◌else◌)
        (
          (
            ltb→lt n x l,
            All-map_of (λ y. x < y) (λ y. n < y) xs (λ y h. omega (arith, h, ltb→lt n x l)) i.0,
          ),
          i,
        )
  | inr l ↦ elim (Bool-cases (nat_eq n x)) [
    | inl e ↦ rw (l, e, if◌then◌else◌) i
    | inr e ↦
        let above : x < n = ground arith in
        rw (l, e, if◌then◌else◌)
          (All-insert_sorted (λ y. x < y) n xs above i.0, insert_sorted-IsIncreasing n xs i.1)
  ]
]

pub sorted_set-IsIncreasing : (xs : List ℕ) → IsIncreasing (sorted_set xs)
unfolding sorted_set
sorted_set-IsIncreasing [] = tt
sorted_set-IsIncreasing (x ∷ xs) =
    insert_sorted-IsIncreasing x (sorted_set xs) (sorted_set-IsIncreasing xs)

In-insert_sorted_self : (n : ℕ) (xs : List ℕ) → In n (insert_sorted n xs)
In-insert_sorted_self n [] = here refl
In-insert_sorted_self n (x ∷ xs) = elim (Bool-cases (ltb n x)) [
  | inl l ↦ rw (l, if◌then◌else◌) (here refl)
  | inr l ↦ elim (Bool-cases (nat_eq n x)) [
    | inl e ↦ rw (l, e, if◌then◌else◌) (here (nat_eq→eq n x e))
    | inr e ↦ rw (l, e, if◌then◌else◌) (there (In-insert_sorted_self n xs))
  ]
]

In-behind : (a x : ℕ) {xs ys : List ℕ} → In a (x ∷ xs) → (In a xs → In a ys) → In a (x ∷ ys)
In-behind a x (here e) f = here e
In-behind a x (there m) f = there (f m)

In-insert_sorted_keep : (a n : ℕ) (xs : List ℕ) → In a xs → In a (insert_sorted n xs)
In-insert_sorted_keep a n [] m = elim m [ ]
In-insert_sorted_keep a n (x ∷ xs) m = elim (Bool-cases (ltb n x)) [
  | inl l ↦ rw (l, if◌then◌else◌) (there m)
  | inr l ↦ elim (Bool-cases (nat_eq n x)) [
    | inl e ↦ rw (l, e, if◌then◌else◌) m
    | inr e ↦ rw (l, e, if◌then◌else◌) (In-behind a x m (λ k. In-insert_sorted_keep a n xs k))
  ]
]

pub In-sorted_set : (a : ℕ) (xs : List ℕ) → In a xs → In a (sorted_set xs)
unfolding sorted_set
In-sorted_set a [] m = elim m [ ]
In-sorted_set a (x ∷ xs) (here e) = rw e (In-insert_sorted_self x (sorted_set xs))
In-sorted_set a (x ∷ xs) (there m) =
    In-insert_sorted_keep a x (sorted_set xs) (In-sorted_set a xs m)

length-insert_sorted : (n : ℕ) (xs : List ℕ) → length (insert_sorted n xs) ≤ suc (length xs)
length-insert_sorted n [] = omega arith
length-insert_sorted n (x ∷ xs) = ground (arith, length-insert_sorted n xs)

pub length-sorted_set : (xs : List ℕ) → length (sorted_set xs) ≤ length xs
unfolding sorted_set
length-sorted_set [] = omega arith
length-sorted_set (x ∷ xs) =
    omega (arith, length-insert_sorted x (sorted_set xs), length-sorted_set xs)

pub length-range_from : (i n : ℕ) → length (range_from i n) ≡ n
length-range_from i zero = refl
length-range_from i (suc n) = omega (arith, length-range_from (i + 1) n)

pub range_from-All : (i n : ℕ) → All (λ x. (i ≤ x) × (x < i + n)) (range_from i n)
range_from-All i zero = tt
range_from-All i (suc n) = (
  (omega arith, omega arith),
  All-map_of (λ x. (i + 1 ≤ x) × (x < i + 1 + n)) (λ x. (i ≤ x) × (x < i + suc n))
      (range_from (i + 1) n) (λ x h. (omega (arith, h.0), omega (arith, h.1)))
      (range_from-All (i + 1) n),
)

pub range_from-IsIncreasing : (i n : ℕ) → IsIncreasing (range_from i n)
range_from-IsIncreasing i zero = tt
range_from-IsIncreasing i (suc n) = (
  All-map_of (λ x. (i + 1 ≤ x) × (x < i + 1 + n)) (λ x. i < x) (range_from (i + 1) n)
      (λ x h. omega (arith, h.0)) (range_from-All (i + 1) n),
  range_from-IsIncreasing (i + 1) n,
)

pub In-range_from : (i n a : ℕ) → i ≤ a → a < i + n → In a (range_from i n)
In-range_from i zero a l h = absurd (omega arith)
In-range_from i (suc n) a l h = elim (Bool-cases (nat_eq a i)) [
  | inl e ↦ here (nat_eq→eq a i e)
  | inr e ↦ there (In-range_from (i + 1) n a (ground arith) (omega arith))
]
