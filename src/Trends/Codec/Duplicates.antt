-- ===== src/Trends/Codec/Duplicates.antt =====
-- googletrends_app/trends.py, the pieces of a comma-separated text: `dict.fromkeys`, joining and splitting.
use Prim.Native.Char.{code}
use googletrends.Base.{
  String, true, false, List, [], ◌∷◌, contains, append, nat_eq, if◌then◌else◌, ◌||◌, ◌≡◌, refl, ap,
  arith, eq_iff, All, All-append, Bool-cases, inl, inr, Distinct, Distinct-append_one,
  contains-append,
}
use googletrends.Trends.Codec.{join, split, comma_free, remove_duplicates, remove_from, add_new}

Distinct-add_new : (kept : List String) (x : String) → Distinct kept → Distinct (add_new kept x)
Distinct-add_new kept x d = elim (Bool-cases (contains x kept)) [
  | inl t ↦ rw (t, if◌then◌else◌) d
  | inr f ↦ rw (f, if◌then◌else◌) (Distinct-append_one kept x d f)
]

Distinct-remove_from : (kept xs : List String) → Distinct kept → Distinct (remove_from kept xs)
unfolding remove_from
Distinct-remove_from kept [] d = d
Distinct-remove_from kept (x ∷ xs) d =
    Distinct-remove_from (add_new kept x) xs (Distinct-add_new kept x d)

-- No item is left twice.
pub Distinct-remove_duplicates : (xs : List String) → Distinct (remove_duplicates xs)
unfolding remove_duplicates
Distinct-remove_duplicates xs = Distinct-remove_from [] xs tt

contains-add_new :
    (k x : String) (kept : List String)
    → contains k (add_new kept x) ≡ (contains k kept || contains k (x ∷ []))
contains-add_new k x kept = elim (Bool-cases (contains x kept)) [
  | inl t ↦ rw (t, if◌then◌else◌) (ground (arith, eq_iff k x))
  | inr f ↦ rw (f, if◌then◌else◌) (contains-append k kept (x ∷ []))
]

contains-remove_from :
    (k : String) (kept xs : List String)
    → contains k (remove_from kept xs) ≡ (contains k kept || contains k xs)
unfolding remove_from
contains-remove_from k kept [] = ground arith
contains-remove_from k kept (x ∷ xs) =
    ground (arith, contains-remove_from k (add_new kept x) xs, contains-add_new k x kept)

-- The same items are left.
pub contains-remove_duplicates :
    (k : String) (xs : List String) → contains k (remove_duplicates xs) ≡ contains k xs
unfolding remove_duplicates
contains-remove_duplicates k xs = contains-remove_from k [] xs

module _ {κ} (P : String → Type κ) where
  All-add_new : (kept : List String) (x : String) → All P kept → P x → All P (add_new kept x)
  All-add_new kept x h p = elim (Bool-cases (contains x kept)) [
    | inl t ↦ rw (t, if◌then◌else◌) h
    | inr f ↦ rw (f, if◌then◌else◌) (All-append P kept (x ∷ []) h (p, tt))
  ]

  All-remove_from : (kept xs : List String) → All P kept → All P xs → All P (remove_from kept xs)
  unfolding remove_from
  All-remove_from kept [] h hx = h
  All-remove_from kept (x ∷ xs) h hx =
      All-remove_from (add_new kept x) xs (All-add_new kept x h hx.0) hx.1

  pub All-remove_duplicates : (xs : List String) → All P xs → All P (remove_duplicates xs)
  unfolding remove_duplicates
  All-remove_duplicates xs h = All-remove_from [] xs tt h

split-cell :
    (x rest : String) → comma_free x ≡ true → split (append x (append "," rest)) ≡ x ∷ split rest
split-cell String.[] rest h = refl
split-cell (String.◌∷◌ c x) rest h =
    let f : nat_eq (code c) b',' ≡ false = ground arith in
    let g : comma_free x ≡ true = ground arith in rw (f, if◌then◌else◌) (rw (split-cell x rest g))

split-last : (x : String) → comma_free x ≡ true → split x ≡ x ∷ []
split-last String.[] h = refl
split-last (String.◌∷◌ c x) h =
    let f : nat_eq (code c) b',' ≡ false = ground arith in
    let g : comma_free x ≡ true = ground arith in rw (f, if◌then◌else◌) (rw (split-last x g))

-- Splitting a joined text gives the items back.
pub split-join :
    (x : String) (xs : List String)
    → All (λ s. comma_free s ≡ true) (x ∷ xs)
    → split (join (x ∷ xs)) ≡ x ∷ xs
split-join x [] h = split-last x h.0
split-join x (y ∷ xs) h = rw (split-cell x (join (y ∷ xs)) h.0) (ap (◌∷◌ x) (split-join y xs h.1))
