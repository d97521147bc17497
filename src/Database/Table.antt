-- ===== src/Database/Table.antt =====
-- SQL statements on one table, as functions on the list of its rows.
use mathlib.Core.Option
use googletrends.Base.{
  ℕ, ◌≡◌, refl, Bool, true, false, not, ◌||◌, Option, none, some, List, [], ◌∷◌, select,
  first_where, length, if◌then◌else◌, arith, In, here, there, Bool-cases, inl, inr, ◌⊎◌, ap, suc,
  Option-cases,
}
use googletrends.Database.{Error, Result, ok, raise}

module _ {ℓ} {A : Type ℓ} where
  -- `UPDATE t SET f WHERE p`
  abbrev pub update_where : (A → Bool) → (A → A) → List A → List A
  update_where p f [] = []
  update_where p f (x ∷ xs) = (if p x then f x else x) ∷ update_where p f xs

  -- `DELETE FROM t WHERE p`
  abbrev pub delete_where : (A → Bool) → List A → List A
  delete_where p xs = select (λ x. not (p x)) xs

  -- `SELECT COUNT(*) FROM t WHERE p`, the `rowcount` of an update or a deletion
  abbrev pub count_where : (A → Bool) → List A → ℕ
  count_where p xs = length (select p xs)

  -- `ORDER BY … LIMIT 1`, for the strict order of the sort keys
  abbrev pub least : (A → A → Bool) → List A → Option A
  least before [] = none
  least before (x ∷ xs) = elim (least before xs) [
    | none ↦ some x
    | some y ↦ some (if before y x then y else x)
  ]

module _ {ℓ} {A : Type ℓ} where
  pub first_where-In :
      (p : A → Bool) (xs : List A) {a : A} → first_where p xs ≡ some a → In a xs × (p a ≡ true)
  first_where-In p [] h = cc
  first_where-In p (x ∷ xs) {a} h = elim (Bool-cases (p x)) [
    | inl t ↦ let e : a ≡ x = ground arith in (here e, rw e t)
    | inr f ↦ let r = first_where-In p xs {a = a} (ground arith) in (there r.0, r.1)
  ]

  pub first_where-none :
      (p : A → Bool) (xs : List A) {a : A} → first_where p xs ≡ none → In a xs → p a ≡ false
  first_where-none p [] h m = elim m [ ]
  first_where-none p (x ∷ xs) {a} h (here e) = ground arith
  first_where-none p (x ∷ xs) {a} h (there m) = first_where-none p xs (ground arith) m

  -- A search by a test that an update does not change finds the updated row.
  pub first_where-update_where :
      (q p : A → Bool) (f : A → A) (xs : List A)
      → ((x : A) → q (f x) ≡ q x)
      → first_where q (update_where p f xs)
        ≡ Option.map (λ x. if p x then f x else x) (first_where q xs)
  first_where-update_where q p f [] keep = refl
  first_where-update_where q p f (x ∷ xs) keep =
      ground (arith, keep x, first_where-update_where q p f xs keep)

  pub In-update_where :
      (p : A → Bool) (f : A → A) (xs : List A) {b : A}
      → In b (update_where p f xs)
      → (a : A) × In a xs × (b ≡ (if p a then f a else a))
  In-update_where p f [] m = elim m [ ]
  In-update_where p f (x ∷ xs) (here e) = (x, here refl, e)
  In-update_where p f (x ∷ xs) (there m) = let r = In-update_where p f xs m in (r.0, there r.1, r.2)

  pub In-update_where_left :
      (p : A → Bool) (f : A → A) (xs : List A) {a : A}
      → In a xs
      → In (if p a then f a else a) (update_where p f xs)
  In-update_where_left p f [] m = elim m [ ]
  In-update_where_left p f (x ∷ xs) (here e) = here (ap (λ y. if p y then f y else y) e)
  In-update_where_left p f (x ∷ xs) (there m) = there (In-update_where_left p f xs m)

  pub length-update_where :
      (p : A → Bool) (f : A → A) (xs : List A) → length (update_where p f xs) ≡ length xs
  length-update_where p f [] = refl
  length-update_where p f (x ∷ xs) = ap suc (length-update_where p f xs)

  pub In-select_of :
      (p : A → Bool) (xs : List A) {a : A} → In a xs → p a ≡ true → In a (select p xs)
  In-select_of p [] m h = elim m [ ]
  In-select_of p (x ∷ xs) {a} (here e) h =
      let t : p x ≡ true = ground arith in rw (t, if◌then◌else◌) (here e)
  In-select_of p (x ∷ xs) {a} (there m) h = elim (Bool-cases (p x)) [
    | inl t ↦ rw (t, if◌then◌else◌) (there (In-select_of p xs m h))
    | inr f ↦ rw (f, if◌then◌else◌) (In-select_of p xs m h)
  ]

  pub least-In : (before : A → A → Bool) (xs : List A) {a : A} → least before xs ≡ some a → In a xs
  least-In before [] h = cc
  least-In before (x ∷ xs) {a} h = elim (Option-cases (least before xs)) [
    | inl e ↦ here (ground arith)
    | inr (y, e) ↦ elim (Bool-cases (before y x)) [
      | inl t ↦ let q : a ≡ y = ground arith in there (rw q (least-In before xs e))
      | inr f ↦ here (ground arith)
    ]
  ]

  pub least-none : (before : A → A → Bool) (xs : List A) → least before xs ≡ none → xs ≡ []
  least-none before [] h = refl
  least-none before (x ∷ xs) h = ground arith

-- A strict order by sort keys, of which ties are allowed.
pub record IsOrder {ℓ} {A : Type ℓ} (before : A → A → Bool) : Type ℓ where
  pub irrefl : (x : A) → before x x ≡ false
  pub asym : (x y : A) → before x y ≡ true → before y x ≡ false
  pub cotrans : (x y z : A) → before x z ≡ true → (before x y || before y z) ≡ true

module _ {ℓ} {A : Type ℓ} (before : A → A → Bool) (order : IsOrder before) where
  -- `LIMIT 1` takes a row that no other row precedes.
  pub least_minimal :
      (xs : List A) {a z : A} → least before xs ≡ some a → In z xs → before z a ≡ false
  least_minimal [] h m = elim m [ ]
  least_minimal (x ∷ xs) {a} {z} h m = elim (Option-cases (least before xs)) [
    | inl e ↦ alone (least-none before xs e) (ground arith) m
    | inr (y, e) ↦ step y (ground arith) (λ k. least_minimal xs {a = y} {z = z} e k) m
  ]
    where
      alone : xs ≡ [] → a ≡ x → In z (x ∷ xs) → before z a ≡ false
      alone n q (here k) = rw (k, q) (order.irrefl x)
      alone n q (there k) = elim (rw n at k) [ ]

      step :
          (y : A)
          → a ≡ (if before y x then y else x)
          → (In z xs → before z y ≡ false)
          → In z (x ∷ xs)
          → before z a ≡ false
      step y q ih (here k) = ground (arith, order.irrefl x, order.asym y x)
      step y q ih (there k) = ground (arith, ih k, order.cotrans z y x)

pub Result-cases :
    {A : Type 0} (r : Result A) → ((a : A) × (r ≡ ok a)) ⊎ ((e : Error) × (r ≡ raise e))
Result-cases (ok a) = inl (a, refl)
Result-cases (raise e) = inr (e, refl)
