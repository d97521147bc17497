-- ===== src/Provider/Clash/Config/First.antt =====
-- googletrends_app/clash.py, build_clash_controller: which controller it gives.
use googletrends.Base.{
  ◌≡◌, refl, String, Bool, true, false, not, ◌&&◌, ◌||◌, ◌⊎◌, Option, none, some, List, [], ◌∷◌,
  All, contains, is_empty, is_some, Bool-cases, inl, inr, ◌==◌, eq_iff, if◌then◌else◌, arith,
}
use googletrends.Database.Pairwise.{Pairwise, Pairwise-append_one}
use googletrends.Provider.Clash.Config.{
  Request, ConfigFile, Listing, ClashController, Build, built, no_url, unreachable_urls, nonblank,
  add_url, add_urls, add_found, given_url, reads_config, read_clash_config,
  discover_clash_controller_urls, candidate_urls, resolved_secret, controller_for, first_available,
  build_clash_controller,
}

-- A controller that no earlier candidate's could have been, or none of the candidates answers.
pub data FirstOf (is_available : ClashController → Bool) (r : Request) (secret : Option String)
    : List String → Build → Type 0 where
  found :
      {url : String} {rest : List String}
      → (not r.probe || is_available (controller_for r secret url)) ≡ true
      → FirstOf is_available r secret (url ∷ rest) (built (controller_for r secret url))
  later :
      {url : String} {rest : List String} {b : Build}
      → (not r.probe || is_available (controller_for r secret url)) ≡ false
      → FirstOf is_available r secret rest b
      → FirstOf is_available r secret (url ∷ rest) b
  exhausted : FirstOf is_available r secret [] unreachable_urls

-- No URL stands twice.
abbrev pub AreDifferent : List String → Type 0
AreDifferent = Pairwise (λ a b. (a == b) ≡ false)

absent :
    (url : String) (urls : List String)
    → contains url urls ≡ false
    → All (λ (u : String). (u == url) ≡ false) urls
absent url [] h = tt
absent url (u ∷ us) h = (ground (arith, eq_iff u url, eq_iff url u), absent url us (ground arith))

add_url-AreDifferent :
    (urls : List String) (url : String) → AreDifferent urls → AreDifferent (add_url urls url)
add_url-AreDifferent urls url d = elim (Bool-cases (contains url urls)) [
  | inl t ↦ rw (t, if◌then◌else◌) d
  | inr f ↦
      rw (f, if◌then◌else◌)
        (Pairwise-append_one (λ (a b : String). (a == b) ≡ false) urls url d (absent url urls f))
]

add_urls-AreDifferent :
    (urls more : List String) → AreDifferent urls → AreDifferent (add_urls urls more)
add_urls-AreDifferent urls [] d = d
add_urls-AreDifferent urls (u ∷ us) d =
    add_urls-AreDifferent (add_url urls u) us (add_url-AreDifferent urls u d)

add_found-AreDifferent :
    (urls : List String) (url : Option String)
    → AreDifferent urls
    → AreDifferent (add_found urls url)
add_found-AreDifferent urls none d = d
add_found-AreDifferent urls (some url) d = add_url-AreDifferent urls url d

given-AreDifferent : (url : Option String) → AreDifferent (given_url url)
given-AreDifferent none = tt
given-AreDifferent (some url) = (tt, tt)

candidate_urls-AreDifferent :
    (r : Request) (file : ConfigFile) (listing : Listing)
    → AreDifferent (candidate_urls r file listing)
unfolding candidate_urls
candidate_urls-AreDifferent r file listing =
    add_urls-AreDifferent _ (discover_clash_controller_urls listing) (configured (reads_config r))
  where
    given : List String
    given = given_url (nonblank r.controller_url)

    configured :
        (reads : Bool)
        → AreDifferent
            (if reads then add_found given (read_clash_config file).controller_url else given)
    configured true =
        add_found-AreDifferent given (read_clash_config file).controller_url
          (given-AreDifferent (nonblank r.controller_url))
    configured false = given-AreDifferent (nonblank r.controller_url)

first_available-FirstOf :
    (is_available : ClashController → Bool) (r : Request) (secret : Option String)
    (urls : List String)
    → FirstOf is_available r secret urls (first_available is_available r secret urls)
unfolding first_available
first_available-FirstOf ok r secret [] = exhausted
first_available-FirstOf ok r secret (u ∷ us) =
    elim (Bool-cases (not r.probe || ok (controller_for r secret u))) [
      | inl t ↦ rw (t, if◌then◌else◌) (found t)
      | inr f ↦ rw (f, if◌then◌else◌) (later f (first_available-FirstOf ok r secret us))
    ]

from_candidates :
    (ok : ClashController → Bool) (r : Request) (secret : Option String) (urls : List String)
    → let b = if is_empty urls then no_url else first_available ok r secret urls in
      ((urls ≡ []) × (b ≡ no_url)) ⊎ FirstOf ok r secret urls b
from_candidates ok r secret [] = inl (refl, refl)
from_candidates ok r secret (u ∷ us) = inr (first_available-FirstOf ok r secret (u ∷ us))

-- Where a controller is enabled or has a URL that is not empty, no candidate URL stands twice, and
-- the build gives the controller of the first candidate that answers, or of the first candidate if
-- no answer is asked for; it raises for want of a URL only if there is no candidate, and for want
-- of an answer only if none of them answers.
pub build_clash_controller-FirstOf :
    (is_available : ClashController → Bool) (r : Request) (file : ConfigFile) (listing : Listing)
    → (r.enabled || is_some (nonblank r.controller_url)) ≡ true
    → let urls = candidate_urls r file listing in
      let b = build_clash_controller is_available r file listing in
      AreDifferent urls
      × (((urls ≡ []) × (b ≡ no_url)) ⊎ FirstOf is_available r (resolved_secret r file) urls b)
unfolding build_clash_controller
build_clash_controller-FirstOf ok r file listing wanted =
    let e : (not r.enabled && not (is_some (nonblank r.controller_url))) ≡ false = ground arith in
    (
      candidate_urls-AreDifferent r file listing,
      rw (e, if◌then◌else◌)
          (from_candidates ok r (resolved_secret r file) (candidate_urls r file listing)),
    )
