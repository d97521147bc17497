-- ===== src/Trends/RoundTrip/Selection.antt =====
-- googletrends_app/trends.py: the lists that the parsers of windows and search properties may
-- return, and how collecting the pieces of a text gives such a list.
use mathlib.Core.List.{append-nil, append_assoc}
use googletrends.Base.{
  String, true, false, List, [], ◌∷◌, ◌++◌, contains, select, is_empty, strip, if◌then◌else◌, ◌&&◌,
  not, ◌≡◌, refl, ap, ◌∙◌, arith, eq_iff, All, All-append, select-All, contains-All, Bool-cases,
  inl, inr, Distinct, Distinct-append_one, contains-append,
}
use googletrends.Trends.Codec.{join, split, comma_free, remove_duplicates, csv_has}
use googletrends.Trends.Codec.Search.{csv_has-join}
use googletrends.Trends.Codec.Duplicates.{
  Distinct-remove_duplicates, contains-remove_duplicates, All-remove_duplicates, split-join,
}
use googletrends.Trends.{
  available_timeframes, monitored_timeframes, available_gprops, default_gprops, collect_items,
  add_item, or_default,
}

-- A list that `parse_timeframes` or `parse_gprops` may return.
pub record IsSelection (available : List String) (items : List String) : Type 0 where
  pub nonempty : is_empty items ≡ false
  pub distinct : Distinct items
  pub members : All (λ s. contains s available ≡ true) items

-- What every available item satisfies, so that it survives the text form.
pub record IsClean (available : List String) : Type 0 where
  stripped : All (λ s. strip s ≡ s) available
  no_comma : All (λ s. comma_free s ≡ true) available

pub timeframes-IsClean : IsClean available_timeframes
timeframes-IsClean = record { stripped = ground arith; no_comma = ground arith }

pub gprops-IsClean : IsClean available_gprops
gprops-IsClean = record { stripped = ground arith; no_comma = ground arith }

not-contains_of_Distinct :
    (x : String) (sel xs : List String) → Distinct (sel ++ x ∷ xs) → contains x sel ≡ false
not-contains_of_Distinct x [] xs d = refl
not-contains_of_Distinct x (s ∷ sel) xs d = ground (
  arith,
  not-contains_of_Distinct x sel xs d.1,
  contains-append s sel (x ∷ xs),
  eq_iff s x,
  eq_iff x s,
)

module _ (available : List String) where
  add_item-Distinct :
      (selected : List String) (value : String)
      → Distinct selected
      → Distinct (add_item available selected value)
  unfolding add_item
  add_item-Distinct selected value d =
      elim (Bool-cases (contains value available && not (contains value selected))) [
        | inl t ↦ rw (t, if◌then◌else◌) (Distinct-append_one selected value d (ground arith))
        | inr f ↦ rw (f, if◌then◌else◌) d
      ]

  add_item-All :
      (selected : List String) (value : String)
      → All (λ s. contains s available ≡ true) selected
      → All (λ s. contains s available ≡ true) (add_item available selected value)
  unfolding add_item
  add_item-All selected value a =
      elim (Bool-cases (contains value available && not (contains value selected))) [
        | inl t ↦ rw (t, if◌then◌else◌) (All-append _ selected (value ∷ []) a (ground arith, tt))
        | inr f ↦ rw (f, if◌then◌else◌) a
      ]

  pub collect-Distinct :
      (items selected : List String)
      → Distinct selected
      → Distinct (collect_items available items selected)
  unfolding collect_items
  collect-Distinct [] selected d = d
  collect-Distinct (item ∷ rest) selected d =
      collect-Distinct rest (add_item available selected (strip item))
        (add_item-Distinct selected (strip item) d)

  pub collect-All :
      (items selected : List String)
      → All (λ s. contains s available ≡ true) selected
      → All (λ s. contains s available ≡ true) (collect_items available items selected)
  unfolding collect_items
  collect-All [] selected a = a
  collect-All (item ∷ rest) selected a =
      collect-All rest (add_item available selected (strip item))
        (add_item-All selected (strip item) a)

  pub or_default-IsSelection :
      (selected defaults : List String)
      → Distinct selected
      → All (λ s. contains s available ≡ true) selected
      → IsSelection available defaults
      → IsSelection available (or_default selected defaults)
  or_default-IsSelection [] defaults d a h = h
  or_default-IsSelection (x ∷ xs) defaults d a h = record {
    nonempty = refl;
    distinct = d;
    members = a;
  }

  -- Items that are available, stripped and distinct are collected as they are.
  collect_fresh :
      (xs selected : List String)
      → IsClean available
      → All (λ s. contains s available ≡ true) xs
      → Distinct (selected ++ xs)
      → collect_items available xs selected ≡ selected ++ xs
  unfolding collect_items
  collect_fresh [] selected c a d = rw append-nil
  collect_fresh (x ∷ xs) selected c a d =
      let s : strip x ≡ x = contains-All (λ k. strip k ≡ k) x available a.0 c.stripped in
      let e : add_item available selected (strip x) ≡ selected ++ x ∷ [] =
        ground (arith, s, not-contains_of_Distinct x selected xs d) in
      rw e (
        rw (collect_fresh xs (selected ++ x ∷ []) c a.1 (rw (append_assoc selected (x ∷ []) xs) d))
          (append_assoc selected (x ∷ []) xs))

  module _ (clean : IsClean available) where
    comma_free_members :
        (xs : List String)
        → All (λ s. contains s available ≡ true) xs
        → All (λ s. comma_free s ≡ true) xs
    comma_free_members [] a = tt
    comma_free_members (x ∷ xs) a = (
      contains-All (λ k. comma_free k ≡ true) x available a.0 clean.no_comma,
      comma_free_members xs a.1,
    )

    -- The collected pieces of a joined selection are the selection.
    pub collect-split-join :
        (items : List String)
        → IsSelection available items
        → collect_items available (split (join items)) [] ≡ items
    collect-split-join [] h = cc (h.nonempty)
    collect-split-join (x ∷ xs) h =
        ap (λ p. collect_items available p [])
          (split-join x xs (comma_free_members (x ∷ xs) h.members))
        ∙ collect_fresh (x ∷ xs) [] clean h.members h.distinct

    pub csv_has-selection :
        (items : List String) (item : String)
        → IsSelection available items
        → contains item available ≡ true
        → csv_has (join items) item ≡ contains item items
    csv_has-selection [] item h a = cc (h.nonempty)
    csv_has-selection (x ∷ xs) item h a =
        csv_has-join item x xs (comma_free_members (item ∷ []) (a, tt)).0
          (comma_free_members (x ∷ xs) h.members)

pub monitored-IsSelection : IsSelection available_timeframes monitored_timeframes
monitored-IsSelection = ground arith

pub default_gprops-IsSelection : IsSelection available_gprops default_gprops
default_gprops-IsSelection = ground arith

-- The list that the serializers write: without repetitions, the available items of the argument,
-- or the default if there is none.
abbrev pub chosen : List String → List String → List String → List String
chosen available defaults items =
    remove_duplicates (or_default (select (λ item. contains item available) items) defaults)

remove_duplicates-IsSelection :
    (available items : List String)
    → is_empty items ≡ false
    → All (λ s. contains s available ≡ true) items
    → IsSelection available (remove_duplicates items)
remove_duplicates-IsSelection available [] n a = cc
remove_duplicates-IsSelection available (x ∷ xs) n a = record {
  nonempty =
      found (remove_duplicates (x ∷ xs))
        (contains-remove_duplicates x (x ∷ xs) ∙ ground (arith, eq_iff x x));
  distinct = Distinct-remove_duplicates (x ∷ xs);
  members = All-remove_duplicates (λ s. contains s available ≡ true) (x ∷ xs) a;
}
  where
    found : (ys : List String) → contains x ys ≡ true → is_empty ys ≡ false
    found [] h = cc
    found (y ∷ ys) h = refl

pub chosen-IsSelection :
    (available defaults items : List String)
    → IsSelection available defaults
    → IsSelection available (chosen available defaults items)
chosen-IsSelection available defaults items d =
    pick (select (λ item. contains item available) items)
      (select-All (λ item. contains item available) items)
  where
    pick :
        (xs : List String)
        → All (λ s. contains s available ≡ true) xs
        → IsSelection available (remove_duplicates (or_default xs defaults))
    pick [] a = remove_duplicates-IsSelection available defaults d.nonempty d.members
    pick (x ∷ xs) a = remove_duplicates-IsSelection available (x ∷ xs) refl a
