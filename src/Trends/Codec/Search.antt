-- ===== src/Trends/Codec/Search.antt =====
-- googletrends_app/repository.py, the search of the SQL statements in a comma-separated text.
use Prim.Native.Char.{Char, code}
use Prim.Native.String.compare
use googletrends.Base.{
  String, true, false, List, [], ◌∷◌, contains, append, append_assoc, has_text, is_prefix, nat_eq,
  ◌&&◌, ◌≡◌, refl, ap, ◌∙◌, arith, ◌==◌, All,
}
use googletrends.Trends.Codec.{join, csv_has, comma_free}

-- Each item with a comma behind it.
abbrev cells : List String → String
cells [] = ""
cells (x ∷ xs) = append x (append "," (cells xs))

join-cells : (x : String) (xs : List String) → append (join (x ∷ xs)) "," ≡ cells (x ∷ xs)
join-cells x [] = refl
join-cells x (y ∷ xs) =
    append_assoc x (append "," (join (y ∷ xs))) ","
    ∙ ap (λ t. append x (append "," t)) (join-cells y xs)

eq_cons :
    (c d : Char) (s t : String)
    → (String.◌∷◌ c s == String.◌∷◌ d t) ≡ (nat_eq (code c) (code d) && (s == t))
eq_cons c d s t = rw (compare.cons-cons c d s t) (ground arith)

prefix_cell :
    (n x rest : String)
    → comma_free n ≡ true
    → comma_free x ≡ true
    → is_prefix (append n ",") (append x (append "," rest)) ≡ (n == x)
prefix_cell String.[] String.[] rest hn hx = refl
prefix_cell String.[] (String.◌∷◌ d x) rest hn hx = rw (compare.nil-cons d x) (ground arith)
prefix_cell (String.◌∷◌ c n) String.[] rest hn hx = rw (compare.cons-nil c n) (ground arith)
prefix_cell (String.◌∷◌ c n) (String.◌∷◌ d x) rest hn hx =
    ground (arith, prefix_cell n x rest, eq_cons c d n x)

skip_cell :
    (m x rest : String)
    → comma_free x ≡ true
    → has_text (append "," m) (append x (append "," rest))
      ≡ has_text (append "," m) (append "," rest)
skip_cell m String.[] rest hx = refl
skip_cell m (String.◌∷◌ c x) rest hx = ground (arith, skip_cell m x rest)

prefix_nil : (n : String) → is_prefix (append n ",") "" ≡ false
prefix_nil String.[] = refl
prefix_nil (String.◌∷◌ c n) = refl

search_cells :
    (n : String) (xs : List String)
    → comma_free n ≡ true
    → All (λ x. comma_free x ≡ true) xs
    → has_text (append "," (append n ",")) (append "," (cells xs)) ≡ contains n xs
search_cells n [] hn h = rw (prefix_nil n)
search_cells n (x ∷ xs) hn h = ground (
  arith,
  prefix_cell n x (cells xs) hn h.0,
  skip_cell (append n ",") x (cells xs) h.0,
  search_cells n xs hn h.1,
)

-- For a non-empty list of comma-free items and a comma-free item, also the empty text, the search
-- in the joined text succeeds exactly if the list holds the item.
pub csv_has-join :
    (item x : String) (xs : List String)
    → comma_free item ≡ true
    → All (λ s. comma_free s ≡ true) (x ∷ xs)
    → csv_has (join (x ∷ xs)) item ≡ contains item (x ∷ xs)
unfolding csv_has
csv_has-join item x xs hi h =
    ap (λ t. has_text (append "," (append item ",")) (append "," t)) (join-cells x xs)
    ∙ search_cells item (x ∷ xs) hi h
