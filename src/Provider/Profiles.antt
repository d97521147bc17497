-- ===== src/Provider/Profiles.antt =====
-- googletrends_app/request_profiles.py: a pool that keeps one browser profile for each key. The
-- profiles are numbered; only their count matters to the pool.
pub mod Sticky
use googletrends.Base.{
  ℕ, suc, ◌+◌, ◌%◌, String, Option, none, some, List, [], ◌∷◌, ◌==◌, if◌then◌else◌,
}

pub record ProfilePool : Type 0 where
  pub count : ℕ
  pub assignments : List (String × ℕ)
  pub cursor : ℕ

unfoldable pub assigned : String → List (String × ℕ) → Option ℕ
assigned key [] = none
assigned key ((k, i) ∷ rest) = if k == key then some i else assigned key rest

-- `assignments[key] = index`
unfoldable pub assign : String → ℕ → List (String × ℕ) → List (String × ℕ)
assign key index [] = (key, index) ∷ []
assign key index ((k, i) ∷ rest) =
    if k == key then (key, index) ∷ rest else (k, i) ∷ assign key index rest

unfoldable pub profile_for : ProfilePool → String → ℕ × ProfilePool
profile_for pool key = elim (assigned key pool.assignments) [
  | some index ↦ (index, pool)
  | none ↦ (
    pool.cursor % pool.count,
    record pool {
      assignments = assign key (pool.cursor % pool.count) pool.assignments;
      cursor = pool.cursor + 1;
    },
  )
]

-- `(get(key, -1) + 1) % count`
abbrev pub next_index : Option ℕ → ℕ → ℕ
next_index none count = 0 % count
next_index (some index) count = (index + 1) % count

unfoldable pub rotate_profile_for : ProfilePool → String → ℕ × ProfilePool
rotate_profile_for pool key =
    let index = next_index (assigned key pool.assignments) pool.count in
    (index, record pool { assignments = assign key index pool.assignments })
