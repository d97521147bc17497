-- ===== src/Web/Charts/Ticks.antt =====
-- googletrends_app/main.py, select_tick_indexes: which indexes get a tick.
use googletrends.Base.{
  ℕ, suc, ◌+◌, ◌-◌, ◌*◌, ◌/◌, ◌%◌, ◌<◌, ◌≤◌, ◌≡◌, ◌⊎◌, refl, ap, ◌∙◌, max, false, List, [], ◌∷◌,
  All, In, here, there, length, map, ltb, leb, leb→le, nat_eq, Bool-cases, inl, inr, if◌then◌else◌,
  arith,
}
use mathlib.Core.Path.{subst}
use googletrends.Database.Pairwise.{All-map_of}
use native.Mathlib.Nat.{
  mul-le-mul_right, div-add-mod, le_of_mul-le-mul_left, lt_of_mul-lt-mul_left, mul-mod_right,
  mul-div_right,
}
use googletrends.Web.Charts.{round_to, rounded, range_from, sorted_set, select_tick_indexes}
use googletrends.Web.Charts.Sorted.{
  IsIncreasing, All-sorted_set, sorted_set-IsIncreasing, In-sorted_set, length-sorted_set,
  length-range_from, range_from-All, range_from-IsIncreasing, In-range_from,
}

round_to_cases : (q r n : ℕ) → 0 < n → (round_to q r n ≡ q) ⊎ ((round_to q r n ≡ q + 1) × (0 < r))
round_to_cases q r n p = elim (Bool-cases (ltb (2 * r) n)) [
  | inl a ↦ inl (rw (a, if◌then◌else◌) refl)
  | inr a ↦ elim (Bool-cases (ltb n (2 * r))) [
    | inl b ↦ inr (rw (a, b, if◌then◌else◌) refl, ground arith)
    | inr b ↦ elim (Bool-cases (nat_eq (q % 2) 0)) [
      | inl c ↦ inl (rw (a, b, c, if◌then◌else◌) refl)
      | inr c ↦ inr (rw (a, b, c, if◌then◌else◌) refl, ground arith)
    ]
  ]
]

-- Rounding a quotient does not go above a bound of it.
rounded_le : (a n b : ℕ) → 0 < n → a ≤ n * b → rounded a n ≤ b
unfolding rounded
rounded_le a n b p h =
    let whole = div-add-mod a n in
    let below : n * (a / n) ≤ n * b = omega (arith, whole, h) in
    let q = le_of_mul-le-mul_left {k = n} below p in
    elim (round_to_cases (a / n) (a % n) n p) [
      | inl e ↦ rw e q
      | inr (e, r) ↦
          let strict : n * (a / n) < n * b = omega (arith, whole, h, r) in
          rw e (omega (arith, lt_of_mul-lt-mul_left n strict))
    ]

rounded_exact : (n b : ℕ) → 0 < n → rounded (n * b) n ≡ b
unfolding rounded
rounded_exact n b p = rw (mul-mod_right n b, mul-div_right b p) (ground arith)

-- A list of ticks for so many points, with at most so many of them: increasing indexes of points,
-- with the first and the last point among them where two ticks are allowed.
pub record IsTickList (total max_ticks : ℕ) (ticks : List ℕ) : Type 0 where
  pub increasing : IsIncreasing ticks
  pub in_range : All (λ i. i < total) ticks
  pub at_most : length ticks ≤ max max_ticks 1
  pub has_first : In 0 ticks
  pub has_last : 2 ≤ max_ticks → In (total - 1) ticks

tick_lt :
    (total max_ticks i : ℕ)
    → 0 < total
    → 1 < max_ticks
    → i < max_ticks
    → rounded (i * (total - 1)) (max_ticks - 1) < total
tick_lt total m i p q h =
    let below : i ≤ m - 1 = omega arith in
    let l =
      rounded_le (i * (total - 1)) (m - 1) (total - 1) (omega arith)
        (mul-le-mul_right (total - 1) below) in
    omega (arith, l)

All-mapped :
    {A : Type 0} (P : ℕ → Type 0) (Q : A → Type 0) (f : A → ℕ) (xs : List A)
    → ((x : A) → Q x → P (f x))
    → All Q xs
    → All P (map f xs)
All-mapped P Q f [] g a = tt
All-mapped P Q f (x ∷ xs) g a = (g x a.0, All-mapped P Q f xs g a.1)

In-mapped : {A : Type 0} (f : A → ℕ) (a : A) (xs : List A) → In a xs → In (f a) (map f xs)
In-mapped f a [] m = elim m [ ]
In-mapped f a (x ∷ xs) (here e) = here (ap f e)
In-mapped f a (x ∷ xs) (there m) = there (In-mapped f a xs m)

length-mapped : {A : Type 0} (f : A → ℕ) (xs : List A) → length (map f xs) ≡ length xs
length-mapped f [] = refl
length-mapped f (x ∷ xs) = ap suc (length-mapped f xs)

spread-IsTickList :
    (total max_ticks : ℕ)
    → 0 < total
    → 1 < max_ticks
    → IsTickList total max_ticks
        (sorted_set (map (λ i. rounded (i * (total - 1)) (max_ticks - 1)) (range_from 0 max_ticks)))
spread-IsTickList total m p q =
    let f = λ (i : ℕ). rounded (i * (total - 1)) (m - 1) in
    let xs = map f (range_from 0 m) in
    let zeroth : 0 * (total - 1) ≡ (m - 1) * 0 = omega arith in
    record {
      increasing = sorted_set-IsIncreasing xs;
      in_range =
          All-sorted_set (λ i. i < total) xs
            (All-mapped (λ i. i < total) (λ i. (0 ≤ i) × (i < 0 + m)) f (range_from 0 m)
              (λ i h. tick_lt total m i p q (omega (arith, h.1))) (range_from-All 0 m));
      at_most =
          omega
            (arith, length-sorted_set xs, length-mapped f (range_from 0 m), length-range_from 0 m);
      has_first =
          subst (λ a. In a (sorted_set xs))
            (ap (λ a. rounded a (m - 1)) zeroth ∙ rounded_exact (m - 1) 0 (omega arith))
            (In-sorted_set (f 0) xs
              (In-mapped f 0 (range_from 0 m) (In-range_from 0 m 0 (omega arith) (omega arith))));
      has_last = λ _.
          subst (λ a. In a (sorted_set xs)) (rounded_exact (m - 1) (total - 1) (omega arith))
            (In-sorted_set (f (m - 1)) xs (
              In-mapped f (m - 1) (range_from 0 m)
                (In-range_from 0 m (m - 1) (omega arith) (omega arith))));
    }

-- For at least one point, the indexes that get a tick increase strictly, are indexes of points,
-- are at most max_ticks or one, and have the first point among them, and the last one too if two
-- ticks are allowed.
pub select_tick_indexes-IsTickList :
    (total max_ticks : ℕ)
    → 0 < total
    → IsTickList total max_ticks (select_tick_indexes total max_ticks)
unfolding select_tick_indexes
select_tick_indexes-IsTickList total m p = elim (Bool-cases (leb total m)) [
  | inl few ↦
      let z : nat_eq total 0 ≡ false = ground arith in
      rw (z, few, if◌then◌else◌)
        (record {
          increasing = range_from-IsIncreasing 0 total;
          in_range =
              All-map_of (λ i. (0 ≤ i) × (i < 0 + total)) (λ i. i < total) (range_from 0 total)
                (λ i h. omega (arith, h.1)) (range_from-All 0 total);
          at_most = omega (arith, length-range_from 0 total, leb→le total m few);
          has_first = In-range_from 0 total 0 (omega arith) (omega arith);
          has_last = λ _. In-range_from 0 total (total - 1) (omega arith) (omega arith);
        })
  | inr many ↦ elim (Bool-cases (leb m 1)) [
    | inl one ↦
        let z : nat_eq total 0 ≡ false = ground arith in
        rw (z, many, one, if◌then◌else◌)
          (record {
            increasing = (tt, tt);
            in_range = (p, tt);
            at_most = omega arith;
            has_first = here refl;
            has_last = λ two. absurd (omega (arith, two, leb→le m 1 one));
          })
    | inr more ↦
        let z : nat_eq total 0 ≡ false = ground arith in
        rw (z, many, more, if◌then◌else◌) (spread-IsTickList total m p (ground arith))
  ]
]
