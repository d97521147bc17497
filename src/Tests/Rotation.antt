-- ===== src/Tests/Rotation.antt =====
-- The rotation of proxies, and request profiles.
use googletrends.Base.{
  refl, none, some, ◌+◌, ◌%◌, length, get_elem?, arith, String, List, [], ◌∷◌, ◌≡◌,
}
use googletrends.Provider.Clash.{group, rotate_group, answer}
use googletrends.Provider.Clash.Order.{IsGroupRotation, rotate_group-IsGroupRotation}
use googletrends.Provider.Profiles.{profile_for}
use googletrends.Provider.Profiles.Sticky.{served, profile_for-keeps}
use googletrends.Provider.Proxies.{ProxyEndpoint, ProxyPool, next_proxy_url}
use googletrends.Provider.Proxies.Turns.{called, next_proxy_url-turn}
use googletrends.Tests.Data.{settings, controller, two_profiles}

abbrev nodes : List String
nodes = "a" ∷ "DIRECT" ∷ "b" ∷ "c" ∷ []

rotate_group-IsGroupRotation_example :
    IsGroupRotation controller settings "GoogleTrends" "a" nodes
      (rotate_group controller settings "GoogleTrends" (group "a" nodes))
rotate_group-IsGroupRotation_example =
    rotate_group-IsGroupRotation controller settings "GoogleTrends" "a" nodes

profile_for-keeps_example :
    let first = profile_for two_profiles "direct" in
    let pool' = served first.1 ("clash:a" ∷ "clash:b" ∷ "direct" ∷ []) in
    profile_for pool' "direct" ≡ (first.0, pool')
profile_for-keeps_example =
    profile_for-keeps two_profiles "direct" ("clash:a" ∷ "clash:b" ∷ "direct" ∷ [])

abbrev two_proxies : ProxyPool
two_proxies = record {
  proxies =
      record { name = "a"; url = "http://a:1" } ∷ record { name = "b"; url = "http://b:1" } ∷ [];
  subscription_url = none;
  refresh_seconds = 300;
  last_refresh = none;
  cursor = 0;
  last_proxy_name = none;
  last_proxy_url = none;
}

next_proxy_url-turn_example :
    (p : ProxyEndpoint) × (get_elem? two_proxies.proxies
        ((two_proxies.cursor + 3) % length two_proxies.proxies)
      ≡ some p)
    × ((next_proxy_url (called (λ n. n) (λ n. answer []) 3 two_proxies) 3 (answer [])).0
        ≡ answer (some p.url))
next_proxy_url-turn_example =
    next_proxy_url-turn (λ n. n) (λ n. answer []) two_proxies 3 refl (omega arith)
