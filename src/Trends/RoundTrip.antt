-- ===== src/Trends/RoundTrip.antt =====
-- googletrends_app/trends.py, the parsers and the serializers of windows and search properties, and
-- the search of the SQL statements in their text.
pub mod Selection
use mathlib.Core.List.{append-nil, append_assoc}
use googletrends.Base.{
  String, true, false, Option, none, some, List, [], ◌∷◌, ◌++◌, contains, select, is_empty,
  is_blank, strip, append, if◌then◌else◌, ◌&&◌, not, ◌≡◌, refl, ap, ◌∙◌, arith, eq_iff, All,
  All-append, select-All, contains-All, Bool-cases, inl, inr, Distinct, Distinct-append_one,
  contains-append,
}
use googletrends.Trends.Codec.{join, split, comma_free, remove_duplicates, csv_has}
use googletrends.Trends.Codec.Search.{csv_has-join}
use googletrends.Trends.Codec.Duplicates.{
  Distinct-remove_duplicates, contains-remove_duplicates, All-remove_duplicates, split-join,
}
use googletrends.Trends.{
  available_timeframes, monitored_timeframes, available_gprops, default_gprops, collect_items,
  add_item, or_default, parse_timeframes, serialize_timeframes, parse_gprops, serialize_gprops,
}
use googletrends.Trends.RoundTrip.Selection.{
  IsSelection, timeframes-IsClean, gprops-IsClean, monitored-IsSelection,
  default_gprops-IsSelection, chosen, chosen-IsSelection, collect-Distinct, collect-All,
  or_default-IsSelection, collect-split-join, csv_has-selection,
}

-- What parse_timeframes returns is never empty, names available windows only, and names none of
-- them twice, whatever the text in the database is.
pub parse_timeframes-IsSelection :
    (value : Option String) → IsSelection available_timeframes (parse_timeframes value)
unfolding parse_timeframes
parse_timeframes-IsSelection none = monitored-IsSelection
parse_timeframes-IsSelection (some v) = elim (Bool-cases (is_blank v)) [
  | inl t ↦ rw (t, if◌then◌else◌) monitored-IsSelection
  | inr f ↦
      rw (f, if◌then◌else◌)
        (or_default-IsSelection available_timeframes
          (collect_items available_timeframes (split v) []) monitored_timeframes
          (collect-Distinct available_timeframes (split v) [] tt)
          (collect-All available_timeframes (split v) [] tt) monitored-IsSelection)
]

-- What parse_gprops returns is never empty, names available search properties only, and names none
-- of them twice, whatever the text in the database is.
pub parse_gprops-IsSelection :
    (value : Option String) → IsSelection available_gprops (parse_gprops value)
unfolding parse_gprops
parse_gprops-IsSelection none = default_gprops-IsSelection
parse_gprops-IsSelection (some v) =
    or_default-IsSelection available_gprops (collect_items available_gprops (split v) [])
      default_gprops (collect-Distinct available_gprops (split v) [] tt)
      (collect-All available_gprops (split v) [] tt) default_gprops-IsSelection

is_blank-join :
    (items : List String) → IsSelection available_timeframes items → is_blank (join items) ≡ false
is_blank-join [] h = cc (h.nonempty)
is_blank-join (x ∷ xs) h =
    first_of_join x xs
      (contains-All (λ k. is_blank k ≡ false) x available_timeframes h.members.0 (ground arith))
  where
    blank-append : (s t : String) → is_blank s ≡ false → is_blank (append s t) ≡ false
    blank-append String.[] t h = cc
    blank-append (String.◌∷◌ c s) t h = refl

    first_of_join :
        (y : String) (ys : List String) → is_blank y ≡ false → is_blank (join (y ∷ ys)) ≡ false
    first_of_join y [] h = h
    first_of_join y (z ∷ ys) h = blank-append y (append "," (join (z ∷ ys))) h

-- Reading the windows that serialize_timeframes has written gives the chosen windows: the
-- available ones among the arguments, each once and in order, or the default windows if there is
-- none.
pub parse-serialize_timeframes :
    (timeframes : List String)
    → parse_timeframes (some (serialize_timeframes timeframes))
      ≡ chosen available_timeframes monitored_timeframes timeframes
unfolding parse_timeframes serialize_timeframes
parse-serialize_timeframes ts =
    let s = chosen-IsSelection available_timeframes monitored_timeframes ts monitored-IsSelection in
    rw (is_blank-join _ s, if◌then◌else◌)
      (rw (collect-split-join available_timeframes timeframes-IsClean _ s)
        (rw (s.nonempty, if◌then◌else◌)))

-- Reading the search properties that serialize_gprops has written gives the chosen ones: the
-- available ones among the arguments, each once and in order, or the web search if there is none.
pub parse-serialize_gprops :
    (gprops : List String)
    → parse_gprops (some (serialize_gprops gprops)) ≡ chosen available_gprops default_gprops gprops
unfolding parse_gprops serialize_gprops
parse-serialize_gprops gs =
    let s = chosen-IsSelection available_gprops default_gprops gs default_gprops-IsSelection in
    rw (collect-split-join available_gprops gprops-IsClean _ s) (rw (s.nonempty, if◌then◌else◌))

-- The search that the job queries make in the text that serialize_timeframes has written finds an
-- available window exactly if parse_timeframes reads it from that text.
pub csv_has-serialize_timeframes :
    (timeframes : List String) (timeframe : String)
    → contains timeframe available_timeframes ≡ true
    → csv_has (serialize_timeframes timeframes) timeframe
      ≡ contains timeframe (parse_timeframes (some (serialize_timeframes timeframes)))
csv_has-serialize_timeframes ts tf a = rw (parse-serialize_timeframes ts) (
    unfold serialize_timeframes in
    csv_has-selection available_timeframes timeframes-IsClean _ tf
      (chosen-IsSelection available_timeframes monitored_timeframes ts monitored-IsSelection) a)

-- The search that the job queries make in the text that serialize_gprops has written finds an
-- available search property, the empty one included, exactly if parse_gprops reads it from that
-- text.
pub csv_has-serialize_gprops :
    (gprops : List String) (gprop : String)
    → contains gprop available_gprops ≡ true
    → csv_has (serialize_gprops gprops) gprop
      ≡ contains gprop (parse_gprops (some (serialize_gprops gprops)))
csv_has-serialize_gprops gs g a = rw (parse-serialize_gprops gs) (
    unfold serialize_gprops in
    csv_has-selection available_gprops gprops-IsClean _ g
      (chosen-IsSelection available_gprops default_gprops gs default_gprops-IsSelection) a)
