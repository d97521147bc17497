-- ===== src/Provider/Subscription/Usable.antt =====
-- googletrends_app/proxy_pool.py, build_proxy_pool: when there is a pool.
use googletrends.Base.{
  ℕ, ◌≡◌, refl, String, Bool, true, false, not, ◌&&◌, Option, none, some, List, [], ◌∷◌, is_empty,
  is_blank, is_some, Bool-cases, inl, inr, if◌then◌else◌,
}
use googletrends.Provider.Clash.{Answer, answer, fault}
use googletrends.Provider.Proxies.{ProxyEndpoint, ProxyPool}
use googletrends.Provider.Subscription.{Library, parse_direct_proxy_urls}
use googletrends.Provider.Subscription.Pool.{
  lacks_text, text_or_none, pool_with, detected, detecting, auto_detect, pool_from, text_given,
  build_proxy_pool,
}

-- A pool has proxies or a subscription; without a pool there is neither in the configuration.
abbrev pub IsPoolFor :
    Option String → Answer (List ProxyEndpoint) → Answer (Option (ProxyPool × String)) → Type 0
IsPoolFor subscription_url direct (fault e) = Unit
IsPoolFor subscription_url direct (answer none) =
    (lacks_text subscription_url ≡ true) × (direct ≡ answer [])
IsPoolFor subscription_url direct (answer (some (pool, source))) =
    (is_empty pool.proxies && not (is_some pool.subscription_url)) ≡ false

given_text : (s : Option String) → lacks_text s ≡ false → is_some (text_or_none s) ≡ true
given_text none h = cc h
given_text (some s) h = rw (h, if◌then◌else◌) refl

with-IsPoolFor :
    (subscription_url : Option String) (n : ℕ) (ps : List ProxyEndpoint) (source : String)
    (direct : Answer (List ProxyEndpoint))
    → (is_empty ps ≡ true → direct ≡ answer [])
    → IsPoolFor subscription_url direct (answer (pool_with subscription_url n ps source))
with-IsPoolFor url n (p ∷ ps) source direct h = refl
with-IsPoolFor url n [] source direct h = elim (Bool-cases (lacks_text url)) [
  | inl t ↦ rw (t, if◌then◌else◌) (t, h refl)
  | inr f ↦ rw (f, if◌then◌else◌) (rw (given_text url f) refl)
]

detected-IsPoolFor :
    (url : Option String) (n : ℕ) (found : Answer (List ProxyEndpoint))
    → IsPoolFor url (answer []) (detected url n found)
detected-IsPoolFor url n (fault e) = tt
detected-IsPoolFor url n (answer ps) =
    with-IsPoolFor url n ps "local_clash_auto" (answer []) (λ h. refl)

detecting-IsPoolFor :
    (l : Library) (url : Option String) (n : ℕ) (local : String) (reached : Answer Bool)
    → IsPoolFor url (answer []) (detecting l url n local reached)
detecting-IsPoolFor l url n local (fault e) = tt
detecting-IsPoolFor l url n local (answer false) =
    with-IsPoolFor url n [] "subscription" (answer []) (λ h. refl)
detecting-IsPoolFor l url n local (answer true) =
    detected-IsPoolFor url n (parse_direct_proxy_urls l local)

auto-IsPoolFor :
    (l : Library) (reachable : String → Answer Bool) (url : Option String) (n : ℕ)
    (auto : Option String)
    → IsPoolFor url (answer []) (auto_detect l reachable url n auto)
auto-IsPoolFor l reachable url n none =
    with-IsPoolFor url n [] "subscription" (answer []) (λ h. refl)
auto-IsPoolFor l reachable url n (some local) = elim (Bool-cases (is_blank local)) [
  | inl t ↦ rw (t, if◌then◌else◌) (with-IsPoolFor url n [] "subscription" (answer []) (λ h. refl))
  | inr f ↦ rw (f, if◌then◌else◌) (detecting-IsPoolFor l url n local (reachable local))
]

from-IsPoolFor :
    (l : Library) (reachable : String → Answer Bool) (url : Option String) (n : ℕ)
    (auto : Option String) (direct : Answer (List ProxyEndpoint))
    → IsPoolFor url direct (pool_from l reachable url n auto direct)
from-IsPoolFor l reachable url n auto (fault e) = tt
from-IsPoolFor l reachable url n auto (answer (p ∷ ps)) = refl
from-IsPoolFor l reachable url n auto (answer []) = elim (Bool-cases (lacks_text url)) [
  | inl t ↦ rw (t, if◌then◌else◌) (auto-IsPoolFor l reachable url n auto)
  | inr f ↦ rw (f, if◌then◌else◌) (rw (given_text url f) refl)
]

-- A pool that is built has a proxy or a subscription. Where none is built, no subscription is
-- configured, and the configured URLs were read without an exception and name no proxy.
pub build_proxy_pool-IsPoolFor :
    (l : Library) (reachable : String → Answer Bool) (proxy_urls subscription_url : Option String)
    (refresh_seconds : ℕ) (auto_detect_proxy_url : Option String)
    → IsPoolFor subscription_url (parse_direct_proxy_urls l (text_given proxy_urls)) (
        build_proxy_pool l reachable proxy_urls subscription_url refresh_seconds
          auto_detect_proxy_url)
unfolding build_proxy_pool
build_proxy_pool-IsPoolFor l reachable urls url n auto =
    from-IsPoolFor l reachable url n auto (parse_direct_proxy_urls l (text_given urls))
