-- ===== src/Base/Cut.antt =====
-- Texts: stripping of given characters, cutting at marks, and replacement.
use Prim.Native.Nat.{ℕ, zero, suc, ◌-◌}
use Prim.Native.Char.{Char, code}
use Prim.Native.String.{String}
use mathlib.Core.Bool.{Bool, true, false, ◌&&◌, ◌||◌}
use mathlib.Core.List.{List, [], ◌∷◌}
use text.Mathlib.Text.{◌==◌}
use googletrends.Base.Tests.{if◌then◌else◌}
use googletrends.Base.Texts.{append, is_blank, is_prefix}

abbrev pub text_length : String → ℕ
text_length String.[] = 0
text_length (String.◌∷◌ c s) = suc (text_length s)

-- `s.lstrip(chars)` and `s.rstrip(chars)`, for the characters of which a test is true.
abbrev pub strip_front : (ℕ → Bool) → String → String
strip_front p String.[] = String.[]
strip_front p (String.◌∷◌ c s) = if p (code c) then strip_front p s else String.◌∷◌ c s

abbrev pub strip_back : (ℕ → Bool) → String → String
strip_back p String.[] = String.[]
strip_back p (String.◌∷◌ c s) =
    let rest = strip_back p s in
    if is_blank rest && p (code c) then String.[] else String.◌∷◌ c rest

-- The pieces between the characters of which a test is true; two such neighbours have an empty
-- piece between them.
abbrev pub push_char : Char → List String → List String
push_char c [] = String.◌∷◌ c String.[] ∷ []
push_char c (s ∷ rest) = String.◌∷◌ c s ∷ rest

abbrev pub pieces : (ℕ → Bool) → String → List String
pieces p String.[] = "" ∷ []
pieces p (String.◌∷◌ c s) =
    let rest = pieces p s in if p (code c) then "" ∷ rest else push_char c rest

-- `s[n:]`
abbrev pub drop_text : ℕ → String → String
drop_text zero s = s
drop_text (suc n) String.[] = String.[]
drop_text (suc n) (String.◌∷◌ c s) = drop_text n s

abbrev pub is_suffix : String → String → Bool
is_suffix t String.[] = is_blank t
is_suffix t (String.◌∷◌ c s) = t == String.◌∷◌ c s || is_suffix t s

-- `s.split(mark, 1)`, for a mark in the text: what is before its first place, and what is behind.
abbrev pub in_front : Char → String × String → String × String
in_front c (before, after) = (String.◌∷◌ c before, after)

abbrev pub split_once : String → String → String × String
split_once mark String.[] = ("", "")
split_once mark (String.◌∷◌ c s) =
    if is_prefix mark (String.◌∷◌ c s)
    then ("", drop_text (text_length mark) (String.◌∷◌ c s))
    else in_front c (split_once mark s)

-- `s.replace(old, new)`, for an old text that is not empty; the number counts the characters of a
-- found place that are still to be passed over.
abbrev pub replace_from : String → String → ℕ → String → String
replace_from old new skip String.[] = String.[]
replace_from old new (suc skip) (String.◌∷◌ c s) = replace_from old new skip s
replace_from old new zero (String.◌∷◌ c s) = elim (is_prefix old (String.◌∷◌ c s)) [
  | true ↦ append new (replace_from old new (text_length old - 1) s)
  | false ↦ String.◌∷◌ c (replace_from old new 0 s)
]

abbrev pub replace_text : String → String → String → String
replace_text old new s = replace_from old new 0 s
