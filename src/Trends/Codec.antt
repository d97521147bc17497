-- ===== src/Trends/Codec.antt =====
-- The comma-separated text of a list, as Python joins and splits it and as SQLite searches it.
pub mod Search
pub mod Duplicates
use Prim.Native.Char.{code}
use googletrends.Base.{
  ℕ, String, Bool, true, false, List, [], ◌∷◌, ◌++◌, contains, append, has_text, nat_eq,
  if◌then◌else◌, ◌&&◌, not,
}

-- `",".join(items)`
abbrev pub join : List String → String
join [] = ""
join (x ∷ []) = x
join (x ∷ y ∷ rest) = append x (append "," (join (y ∷ rest)))

-- Puts a character in front of the first piece.
abbrev pub cons_first : Prim.Native.Char.Char → List String → List String
cons_first c [] = String.◌∷◌ c String.[] ∷ []
cons_first c (x ∷ xs) = String.◌∷◌ c x ∷ xs

-- `value.split(",")`
abbrev pub split : String → List String
split String.[] = "" ∷ []
split (String.◌∷◌ c s) = if nat_eq (code c) b',' then "" ∷ split s else cons_first c (split s)

abbrev add_new : List String → String → List String
add_new kept x = if contains x kept then kept else kept ++ x ∷ []

remove_from : List String → List String → List String
remove_from kept [] = kept
remove_from kept (x ∷ xs) = remove_from (add_new kept x) xs

-- `dict.fromkeys(items)`: the first occurrence of each item, in order.
unfoldable pub remove_duplicates : List String → List String
unfolding remove_from
remove_duplicates xs = remove_from [] xs

-- `instr(',' || list || ',', ',' || item || ',') > 0`
unfoldable pub csv_has : String → String → Bool
csv_has list item = has_text (append "," (append item ",")) (append "," (append list ","))

-- A text without a comma.
abbrev pub comma_free : String → Bool
comma_free String.[] = true
comma_free (String.◌∷◌ c s) = not (nat_eq (code c) b',') && comma_free s
