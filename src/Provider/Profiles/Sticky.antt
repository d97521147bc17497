-- ===== src/Provider/Profiles/Sticky.antt =====
-- googletrends_app/request_profiles.py, RequestProfilePool.profile_for: repeated calls.
use googletrends.Base.{
  ℕ, ◌%◌, ◌≡◌, refl, ◌∙◌, String, false, some, List, [], ◌∷◌, Option-cases, Bool-cases, inl, inr,
  arith, ◌==◌, eq_iff,
}
use googletrends.Provider.Profiles.{ProfilePool, assigned, assign, profile_for}

assigned-assign :
    (key : String) (i : ℕ) (as' : List (String × ℕ)) → assigned key (assign key i as') ≡ some i
unfolding assigned assign
assigned-assign key i [] = ground (arith, (eq_iff key key).1 refl)
assigned-assign key i ((k, n) ∷ rest) =
    ground (arith, (eq_iff key key).1 refl, assigned-assign key i rest)

assigned-assign_other :
    (key other : String) (i : ℕ) (as' : List (String × ℕ))
    → (other == key ≡ false)
    → assigned key (assign other i as') ≡ assigned key as'
unfolding assigned assign
assigned-assign_other key other i [] d = ground arith
assigned-assign_other key other i ((k, n) ∷ rest) d = ground (
  arith,
  eq_iff k other,
  eq_iff k key,
  eq_iff other key,
  assigned-assign_other key other i rest d,
)

-- The profile of a key after the pool has served any keys in between.
abbrev pub served : ProfilePool → List String → ProfilePool
served pool [] = pool
served pool (k ∷ ks) = served (profile_for pool k).1 ks

keeps :
    (pool : ProfilePool) (key other : String) (i : ℕ)
    → assigned key pool.assignments ≡ some i
    → assigned key (profile_for pool other).1.assignments ≡ some i
unfolding profile_for
keeps pool key other i h = elim (Option-cases (assigned other pool.assignments)) [
  | inr (j, e) ↦ rw (e, profile_for) h
  | inl e ↦ elim (Bool-cases (other == key)) [
    | inl same ↦ absurd (ground (arith, rw ((eq_iff other key).0 same) at e, h))
    | inr d ↦
        rw (e, profile_for)
          (assigned-assign_other key other (pool.cursor % pool.count) pool.assignments d ∙ h)
  ]
]

serves :
    (pool : ProfilePool) (key : String) (i : ℕ) (ks : List String)
    → assigned key pool.assignments ≡ some i
    → assigned key (served pool ks).assignments ≡ some i
serves pool key i [] h = h
serves pool key i (k ∷ ks) h = serves (profile_for pool k).1 key i ks (keeps pool key k i h)

given :
    (pool : ProfilePool) (key : String)
    → assigned key (profile_for pool key).1.assignments ≡ some (profile_for pool key).0
unfolding profile_for
given pool key = elim (Option-cases (assigned key pool.assignments)) [
  | inr (j, e) ↦ rw (e, profile_for) e
  | inl e ↦ rw (e, profile_for) (assigned-assign key (pool.cursor % pool.count) pool.assignments)
]

known_key :
    (pool : ProfilePool) (key : String) (i : ℕ)
    → assigned key pool.assignments ≡ some i
    → profile_for pool key ≡ (i, pool)
unfolding profile_for
known_key pool key i e = rw (e, profile_for) refl

-- A key keeps its request profile: after the pool has served any other keys, it gives the key the
-- same profile again and does not change.
pub profile_for-keeps :
    (pool : ProfilePool) (key : String) (others : List String)
    → let first = profile_for pool key in
      let pool' = served first.1 others in profile_for pool' key ≡ (first.0, pool')
profile_for-keeps pool key others =
    known_key (served (profile_for pool key).1 others) key (profile_for pool key).0
      (serves (profile_for pool key).1 key (profile_for pool key).0 others (given pool key))
