-- ===== src/Database/Pairwise.antt =====
-- Constraints between any two rows of a table, such as a unique key, under the statements that
-- change the table.
use googletrends.Base.{
  ℕ, ◌≡◌, refl, Bool, false, List, [], ◌∷◌, ◌++◌, map, select, All, In, here, there, Bool-cases,
  inl, inr, if◌then◌else◌, arith, nat_eq, first_where, some,
}
use googletrends.Database.Table.{update_where}

module _ {ℓ κ} {A : Type ℓ} (Apart : A → A → Type κ) where
  -- Each row is apart from every later one.
  abbrev pub Pairwise : List A → Type κ
  Pairwise [] = Unit
  Pairwise (x ∷ xs) = All (Apart x) xs × Pairwise xs

module _ {ℓ κ} {A : Type ℓ} where
  pub All-map_of {μ} :
      (P : A → Type κ) (Q : A → Type μ) (xs : List A) → ((x : A) → P x → Q x) → All P xs → All Q xs
  All-map_of P Q [] f h = tt
  All-map_of P Q (x ∷ xs) f h = (f x h.0, All-map_of P Q xs f h.1)

  pub All-In : (P : A → Type κ) (xs : List A) {a : A} → All P xs → In a xs → P a
  All-In P [] h m = elim m [ ]
  All-In P (x ∷ xs) h (here e) = rw e h.0
  All-In P (x ∷ xs) h (there m) = All-In P xs h.1 m

  pub All-of_In : (P : A → Type κ) (xs : List A) → ((a : A) → In a xs → P a) → All P xs
  All-of_In P [] f = tt
  All-of_In P (x ∷ xs) f = (f x (here refl), All-of_In P xs (λ a m. f a (there m)))

module _ {ℓ κ} {A : Type ℓ} (Apart : A → A → Type κ) where
  pub Pairwise-append_one :
      (xs : List A) (y : A)
      → Pairwise Apart xs
      → All (λ x. Apart x y) xs
      → Pairwise Apart (xs ++ y ∷ [])
  Pairwise-append_one [] y h a = (tt, tt)
  Pairwise-append_one (x ∷ xs) y h a = (append_one xs h.0, Pairwise-append_one xs y h.1 a.1)
    where
      append_one : (zs : List A) → All (Apart x) zs → All (Apart x) (zs ++ y ∷ [])
      append_one [] k = (a.0, tt)
      append_one (z ∷ zs) k = (k.0, append_one zs k.1)

  pub Pairwise-select :
      (p : A → Bool) (xs : List A) → Pairwise Apart xs → Pairwise Apart (select p xs)
  Pairwise-select p [] h = tt
  Pairwise-select p (x ∷ xs) h = elim (Bool-cases (p x)) [
    | inl t ↦ rw (t, if◌then◌else◌) (keep xs h.0, Pairwise-select p xs h.1)
    | inr f ↦ rw (f, if◌then◌else◌) (Pairwise-select p xs h.1)
  ]
    where
      keep : (zs : List A) → All (Apart x) zs → All (Apart x) (select p zs)
      keep [] k = tt
      keep (z ∷ zs) k = elim (Bool-cases (p z)) [
        | inl t ↦ rw (t, if◌then◌else◌) (k.0, keep zs k.1)
        | inr f ↦ rw (f, if◌then◌else◌) (keep zs k.1)
      ]

  -- An update that keeps every two rows apart.
  pub Pairwise-update_where :
      (p : A → Bool) (f : A → A) (xs : List A)
      → ((x y : A) → Apart x y → Apart (if p x then f x else x) (if p y then f y else y))
      → Pairwise Apart xs
      → Pairwise Apart (update_where p f xs)
  Pairwise-update_where p f [] g h = tt
  Pairwise-update_where p f (x ∷ xs) g h = (keep xs h.0, Pairwise-update_where p f xs g h.1)
    where
      keep :
          (zs : List A)
          → All (Apart x) zs
          → All (Apart (if p x then f x else x)) (update_where p f zs)
      keep [] k = tt
      keep (z ∷ zs) k = (g x z k.0, keep zs k.1)

  pub Pairwise-map :
      (f : A → A) (xs : List A)
      → ((x y : A) → Apart x y → Apart (f x) (f y))
      → Pairwise Apart xs
      → Pairwise Apart (map f xs)
  Pairwise-map f [] g h = tt
  Pairwise-map f (x ∷ xs) g h = (keep xs h.0, Pairwise-map f xs g h.1)
    where
      keep : (zs : List A) → All (Apart x) zs → All (Apart (f x)) (map f zs)
      keep [] k = tt
      keep (z ∷ zs) k = (g x z k.0, keep zs k.1)

module _ {ℓ} {A : Type ℓ} (key : A → ℕ) where
  -- The rows have different keys.
  abbrev pub UniqueIds : List A → Type 0
  UniqueIds = Pairwise (λ x y. nat_eq (key x) (key y) ≡ false)

  -- The row of a key is the one that a search by the key finds.
  pub first_where-UniqueIds :
      (xs : List A) {a : A}
      → UniqueIds xs
      → In a xs
      → first_where (λ x. nat_eq (key x) (key a)) xs ≡ some a
  first_where-UniqueIds [] u m = elim m [ ]
  first_where-UniqueIds (x ∷ xs) u (here e) = rw e (ground arith)
  first_where-UniqueIds (x ∷ xs) {a} u (there m) =
      let d : nat_eq (key x) (key a) ≡ false = All-In _ xs u.0 m in
      rw (d, if◌then◌else◌) (first_where-UniqueIds xs u.1 m)
