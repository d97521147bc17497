-- ===== src/Provider/Clash/Order.antt =====
-- googletrends_app/clash.py, rotate_proxy_with_group: the order of the candidates, and the selection.
use mathlib.Core.List.{append-nil}
use googletrends.Base.{
  ◌++◌, true, contains, select, ◌==◌, Bool-cases, eq_iff, ℕ, zero, suc, ◌+◌, ◌≡◌, refl, ap, String,
  false, not, Option, none, some, List, [], ◌∷◌, take, drop, is_empty, In, here, there, In-append,
  In-select, inl, inr, if◌then◌else◌, arith,
}
use googletrends.Provider.Clash.{
  Answer, answer, fault, group, Probe, reachable, unreachable, probe_fault, Controller, Settings,
  Rotation, rotated, no_candidates, rotation_error, is_skipped_proxy_name, available_candidates,
  ordered_candidates, start_index, probe_candidates, selected_by, rotate_group,
}

module _ {A : Type 0} where
  In-take : (n : ℕ) (a : A) (xs : List A) → In a (take n xs) → In a xs
  In-take zero a xs h = elim h [ ]
  In-take (suc n) a [] h = h
  In-take (suc n) a (x ∷ xs) (here e) = here e
  In-take (suc n) a (x ∷ xs) (there h) = there (In-take n a xs h)

  In-drop : (n : ℕ) (a : A) (xs : List A) → In a (drop n xs) → In a xs
  In-drop zero a xs h = h
  In-drop (suc n) a [] h = h
  In-drop (suc n) a (x ∷ xs) h = there (In-drop n a xs h)

In-ordered_candidates :
    (current name : String) (xs : List String)
    → In name (ordered_candidates current xs)
    → In name xs
unfolding ordered_candidates
In-ordered_candidates current name xs h =
    elim (In-append name (drop (start_index current xs) xs) (take (start_index current xs) xs) h) [
      | inl d ↦ In-drop (start_index current xs) name xs d
      | inr t ↦ In-take (start_index current xs) name xs t
    ]

-- A candidate that was reached at its place, with none before it reached.
pub data FirstReached (c : Controller) (name : String) : ℕ → List String → Type 0 where
  found :
      {i : ℕ} {rest : List String}
      → c.delay i name ≡ reachable
      → FirstReached c name i (name ∷ rest)
  passed :
      {i : ℕ} {other : String} {rest : List String}
      → ((c.delay i other ≡ reachable) → ⊥)
      → FirstReached c name (i + 1) rest
      → FirstReached c name i (other ∷ rest)

FirstReached-In :
    (c : Controller) (name : String) {i : ℕ} {xs : List String}
    → FirstReached c name i xs
    → In name xs
FirstReached-In c name (found e) = here refl
FirstReached-In c name (passed n f) = there (FirstReached-In c name f)

-- What a rotation that succeeds has done.
abbrev pub IsRotated : Controller → String → ℕ → List String → Rotation → Type 0
IsRotated c g i xs (rotated g' name) =
    (g' ≡ g) × FirstReached c name i xs × (u : Unit) × (c.put g name ≡ answer u)
IsRotated c g i xs no_candidates = ⊥
IsRotated c g i xs (rotation_error e) = Unit

selected :
    (c : Controller) (g name : String) (i : ℕ) (xs : List String) (r : Answer Unit)
    → FirstReached c name i xs
    → c.put g name ≡ r
    → IsRotated c g i xs (selected_by g name r)
selected c g name i xs (answer u) f e = (refl, f, u, e)
selected c g name i xs (fault m) f e = tt

pass_by :
    (c : Controller) (g : String) (i : ℕ) (other : String) (xs : List String) (r : Rotation)
    → ((c.delay i other ≡ reachable) → ⊥)
    → IsRotated c g (i + 1) xs r
    → IsRotated c g i (other ∷ xs) r
pass_by c g i other xs (rotated g' name) n (e, f, u, p) = (e, passed n f, u, p)
pass_by c g i other xs no_candidates n h = h
pass_by c g i other xs (rotation_error e) n h = tt

-- The loop selects the first candidate that answers the delay test, and none before it answers.
probe_candidates-IsRotated :
    (c : Controller) (g : String) (i : ℕ) (last_error : Option String) (xs : List String)
    → IsRotated c g i xs (probe_candidates c g i last_error xs)
unfolding probe_candidates
probe_candidates-IsRotated c g i last_error [] = tt
probe_candidates-IsRotated c g i last_error (name ∷ rest) =
    next (c.delay i name) refl (probe_candidates-IsRotated c g (i + 1) last_error rest)
      (λ e. probe_candidates-IsRotated c g (i + 1) (some e) rest)
  where
    next :
        (p : Probe)
        → c.delay i name ≡ p
        → IsRotated c g (i + 1) rest (probe_candidates c g (i + 1) last_error rest)
        → ((e : String) → IsRotated c g (i + 1) rest (probe_candidates c g (i + 1) (some e) rest))
        → IsRotated c g i (name ∷ rest) (elim p [
          | reachable ↦ selected_by g name (c.put g name)
          | unreachable ↦ probe_candidates c g (i + 1) last_error rest
          | probe_fault e ↦ probe_candidates c g (i + 1) (some e) rest
        ])
    next reachable e h k = selected c g name i (name ∷ rest) (c.put g name) (found e) refl
    next unreachable e h k = pass_by c g i name rest _ (λ d. cc) h
    next (probe_fault m) e h k = pass_by c g i name rest _ (λ d. cc) (k m)

-- The cyclic order behind the current name: what stands behind its first place, then what stands
-- before it, and the current name last; the names as they stand if it is not among them.
pub data BehindCurrent (current : String) (names : List String) : List String → Type 0 where
  behind :
      (before after : List String)
      → names ≡ before ++ current ∷ after
      → contains current before ≡ false
      → BehindCurrent current names (after ++ (before ++ current ∷ []))
  absent : contains current names ≡ false → BehindCurrent current names names

-- Where the current name stands: `start_index` lies just behind its first place.
data Place (current : String) (xs : List String) (n : ℕ) : Type 0 where
  found_at :
      (before after : List String)
      → xs ≡ before ++ current ∷ after
      → contains current before ≡ false
      → drop n xs ≡ after
      → take n xs ≡ before ++ current ∷ []
      → Place current xs n
  nowhere : contains current xs ≡ false → n ≡ 0 → Place current xs n

cons-Place :
    (current x : String) (xs : List String) (n : ℕ)
    → (x == current) ≡ false
    → contains current xs ≡ true
    → Place current xs n
    → Place current (x ∷ xs) (suc n)
cons-Place current x xs n d c (found_at before after e m r t) =
    found_at (x ∷ before) after (ap (λ l. x ∷ l) e)
      (ground (arith, d, m, eq_iff x current, eq_iff current x)) r (ap (λ l. x ∷ l) t)
cons-Place current x xs n d c (nowhere m z) = cc (c, m)

start_index-Place :
    (current : String) (xs : List String) → Place current xs (start_index current xs)
unfolding start_index
start_index-Place current [] = nowhere refl refl
start_index-Place current (x ∷ xs) = elim (Bool-cases (x == current)) [
  | inl e ↦
      let same : x ≡ current = (eq_iff x current).0 e in
      rw (e, if◌then◌else◌)
        (found_at [] xs (ap (λ y. y ∷ xs) same) refl refl (ap (λ y. y ∷ []) same))
  | inr d ↦ elim (Bool-cases (contains current xs)) [
    | inl c ↦
        rw (d, c, if◌then◌else◌)
          (cons-Place current x xs (start_index current xs) d c (start_index-Place current xs))
    | inr c ↦
        rw (d, c, if◌then◌else◌)
          (nowhere (ground (arith, d, c, eq_iff x current, eq_iff current x)) refl)
  ]
]

Place-BehindCurrent :
    (current : String) (xs : List String) (n : ℕ)
    → Place current xs n
    → BehindCurrent current xs (drop n xs ++ take n xs)
Place-BehindCurrent current xs n (found_at before after e m r t) =
    rw (r, t) (behind before after e m)
Place-BehindCurrent current xs n (nowhere m z) = rw (z, append-nil) (absent m)

ordered_candidates-BehindCurrent :
    (current : String) (xs : List String) → BehindCurrent current xs (ordered_candidates current xs)
unfolding ordered_candidates
ordered_candidates-BehindCurrent current xs =
    Place-BehindCurrent current xs (start_index current xs) (start_index-Place current xs)

-- The members that the settings do not skip.
abbrev pub kept_members : Settings → List String → List String
kept_members s members = select (λ name. not (is_skipped_proxy_name s name)) members

-- What the rotation of a group may give: no candidates only if every member is skipped, an error
-- only if some member is not, and otherwise a proxy.
abbrev pub IsGroupRotation :
    Controller → Settings → String → String → List String → Rotation → Type 0
IsGroupRotation c s g current members (rotated g' name) =
    (g' ≡ g)
    × (order : List String) × BehindCurrent current (kept_members s members) order
    × FirstReached c name 0 order
    × In name members
    × (is_skipped_proxy_name s name ≡ false)
    × (u : Unit) × (c.put g name ≡ answer u)
IsGroupRotation c s g current members no_candidates = kept_members s members ≡ []
IsGroupRotation c s g current members (rotation_error e) = is_empty (kept_members s members) ≡ false

-- The rotation of a selectable group gives no candidates only if every member is skipped, and
-- raises only if some member is not. Where it gives a proxy, that is the first member which is not
-- skipped and answers the delay test, in the cyclic order that starts behind the first place of
-- the current proxy and ends with it (in the order of the group, where the current proxy is none
-- of these members); and the controller has accepted it.
pub rotate_group-IsGroupRotation :
    (c : Controller) (s : Settings) (g current : String) (members : List String)
    → IsGroupRotation c s g current members (rotate_group c s g (group current members))
unfolding rotate_group available_candidates
rotate_group-IsGroupRotation c s g current members = go (available_candidates s members) refl
  where
    order : List String
    order = ordered_candidates current (available_candidates s members)

    allowed :
        (name : String) → In name order → In name members × (is_skipped_proxy_name s name ≡ false)
    allowed name h =
        let m =
          In-select (λ n. not (is_skipped_proxy_name s n)) name members
            (In-ordered_candidates current name (available_candidates s members) h) in
        (m.0, ground (arith, m.1))

    wrap :
        (r : Rotation)
        → is_empty (available_candidates s members) ≡ false
        → IsRotated c g 0 order r
        → IsGroupRotation c s g current members r
    wrap (rotated g' name) n (e, f, u, p) =
        let a = allowed name (FirstReached-In c name f) in
        (
          e,
          order,
          ordered_candidates-BehindCurrent current (available_candidates s members),
          f,
          a.0,
          a.1,
          u,
          p,
        )
    wrap no_candidates n h = absurd h
    wrap (rotation_error e) n h = n

    go :
        (xs : List String)
        → available_candidates s members ≡ xs
        → IsGroupRotation c s g current members (rotate_group c s g (group current members))
    go [] e = rw (ap is_empty e, if◌then◌else◌) e
    go (x ∷ xs) e =
        rw (ap is_empty e, if◌then◌else◌)
          (wrap _ (ap is_empty e) (probe_candidates-IsRotated c g 0 none _))
