-- ===== src/Base/Texts.antt =====
-- Texts: Python's and SQLite's operations on `String`, by recursion on its characters.
use Prim.Native.Nat.{ℕ}
use Prim.Native.Char.{code}
use Prim.Native.String.{String}
use mathlib.Core.Path.{◌≡◌, refl, ap}
use mathlib.Core.Bool.{Bool, true, false, ◌&&◌, ◌||◌}
use mathlib.Core.List.{List, [], ◌∷◌}
use googletrends.Base.Tests.{nat_eq, leb, ltb, if◌then◌else◌}

-- `s + t`, and SQLite's `s || t`
abbrev pub append : String → String → String
append String.[] t = t
append (String.◌∷◌ c s) t = String.◌∷◌ c (append s t)

pub append_assoc : (s t u : String) → append (append s t) u ≡ append s (append t u)
append_assoc String.[] t u = refl
append_assoc (String.◌∷◌ c s) t u = ap (String.◌∷◌ c) (append_assoc s t u)

abbrev pub is_blank : String → Bool
is_blank String.[] = true
is_blank (String.◌∷◌ c s) = false

-- The characters of which Python's `str.isspace` is true.
abbrev pub is_space : ℕ → Bool
is_space c =
    (leb 9 c && leb c 13)
    || (leb 28 c && leb c 32)
    || nat_eq c 0x85
    || nat_eq c 0xA0
    || nat_eq c 0x1680
    || (leb 0x2000 c && leb c 0x200A)
    || nat_eq c 0x2028
    || nat_eq c 0x2029
    || nat_eq c 0x202F
    || nat_eq c 0x205F
    || nat_eq c 0x3000

abbrev pub lstrip : String → String
lstrip String.[] = String.[]
lstrip (String.◌∷◌ c s) = if is_space (code c) then lstrip s else String.◌∷◌ c s

abbrev pub rstrip : String → String
rstrip String.[] = String.[]
rstrip (String.◌∷◌ c s) =
    let rest = rstrip s in
    if is_blank rest && is_space (code c) then String.[] else String.◌∷◌ c rest

-- `s.strip()`
abbrev pub strip : String → String
strip s = rstrip (lstrip s)

abbrev pub is_prefix : String → String → Bool
is_prefix String.[] t = true
is_prefix (String.◌∷◌ c s) String.[] = false
is_prefix (String.◌∷◌ c s) (String.◌∷◌ d t) = nat_eq (code c) (code d) && is_prefix s t

-- `needle in text`
abbrev pub has_text : String → String → Bool
has_text needle String.[] = is_prefix needle String.[]
has_text needle (String.◌∷◌ c s) = is_prefix needle (String.◌∷◌ c s) || has_text needle s

abbrev pub ascii_lower : ℕ → ℕ
ascii_lower c = if leb b'A' c && leb c b'Z' then Prim.Native.Nat.◌+◌ c 32 else c

abbrev pub codes : String → List ℕ
codes String.[] = []
codes (String.◌∷◌ c s) = code c ∷ codes s

abbrev pub lower_codes : String → List ℕ
lower_codes String.[] = []
lower_codes (String.◌∷◌ c s) = ascii_lower (code c) ∷ lower_codes s

abbrev pub codes_eq : List ℕ → List ℕ → Bool
codes_eq [] [] = true
codes_eq (x ∷ xs) (y ∷ ys) = nat_eq x y && codes_eq xs ys
codes_eq _ _ = false

abbrev codes_le : List ℕ → List ℕ → Bool
codes_le [] ys = true
codes_le (x ∷ xs) [] = false
codes_le (x ∷ xs) (y ∷ ys) = ltb x y || (nat_eq x y && codes_le xs ys)

-- Equality under SQLite's `COLLATE NOCASE`, which folds the ASCII letters.
abbrev pub nocase_eq : String → String → Bool
nocase_eq s t = codes_eq (lower_codes s) (lower_codes t)

-- The order of texts: by code points, which is the order of their UTF-8 bytes.
abbrev pub text_le : String → String → Bool
text_le s t = codes_le (codes s) (codes t)

-- `needle in text.lower()` for needles such as `code 429`, where folding the ASCII letters is enough:
-- the only other characters that `lower` takes to an ASCII letter are the Kelvin sign, to a `k`, and
-- the dotted capital I, to an `i` with a combining dot, and `code 429` has neither letter.
abbrev codes_prefix : List ℕ → List ℕ → Bool
codes_prefix [] ys = true
codes_prefix (x ∷ xs) [] = false
codes_prefix (x ∷ xs) (y ∷ ys) = nat_eq x y && codes_prefix xs ys

abbrev has_codes : List ℕ → List ℕ → Bool
has_codes needle [] = codes_prefix needle []
has_codes needle (y ∷ ys) = codes_prefix needle (y ∷ ys) || has_codes needle ys

abbrev pub has_lower_text : String → String → Bool
has_lower_text needle text = has_codes (codes needle) (lower_codes text)
