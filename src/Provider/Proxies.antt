-- ===== src/Provider/Proxies.antt =====
-- googletrends_app/proxy_pool.py, the pool that hands out proxies in turn and refreshes them from a
-- subscription. What fetching and parsing the subscription gives is an argument.
pub mod Turns
use googletrends.Base.{
  ℕ, ◌+◌, ◌-◌, ◌%◌, String, Bool, false, not, ◌&&◌, ◌||◌, Option, none, some, List, [], ◌∷◌, ltb,
  nat_eq, length, get_elem?, is_empty, is_some, append, if◌then◌else◌,
}
use googletrends.Provider.Clash.{Answer, answer, fault}

pub record ProxyEndpoint : Type 0 where
  pub name : String
  pub url : String

pub record ProxyPool : Type 0 where
  pub proxies : List ProxyEndpoint
  pub subscription_url : Option String
  pub refresh_seconds : ℕ
  pub last_refresh : Option ℕ
  pub cursor : ℕ
  pub last_proxy_name : Option String
  pub last_proxy_url : Option String

-- `now - last < seconds`, for a clock that never goes back
abbrev pub fresh_at : ℕ → ℕ → Option ℕ → Bool
fresh_at now seconds none = false
fresh_at now seconds (some last) = ltb (now - last) seconds

abbrev pub is_fresh : ℕ → ProxyPool → Bool
is_fresh now pool =
    not (is_empty pool.proxies)
    && not (nat_eq pool.refresh_seconds 0)
    && fresh_at now pool.refresh_seconds pool.last_refresh

abbrev pub unusable : String
unusable = append "Proxy subscription did not contain HTTP/SOCKS proxies usable by requests. " (
    append "For Clash-native nodes such as ss, vmess, vless, or trojan, run Clash and "
      "configure GOOGLETRENDS_PROXY_URLS with its local mixed-port.")

abbrev pub refreshed : ProxyPool → ℕ → Answer (List ProxyEndpoint) → Answer Unit × ProxyPool
refreshed pool now (fault e) = (fault e, pool)
refreshed pool now (answer []) = (fault unusable, pool)
refreshed pool now (answer (p ∷ ps)) = (
  answer tt,
  record pool { proxies = p ∷ ps; last_refresh = some now; cursor = pool.cursor % length (p ∷ ps) },
)

unfoldable pub refresh_if_needed :
    ProxyPool → ℕ → Answer (List ProxyEndpoint) → Answer Unit × ProxyPool
refresh_if_needed pool now fetched =
    if not (is_some pool.subscription_url) || is_fresh now pool
    then (answer tt, pool)
    else refreshed pool now fetched

abbrev pub hand_out : ProxyPool → Option ProxyEndpoint → Answer (Option String) × ProxyPool
hand_out pool none = (answer none, record pool { last_proxy_name = none; last_proxy_url = none })
hand_out pool (some proxy) = (
  answer (some proxy.url),
  record pool {
    cursor = pool.cursor + 1;
    last_proxy_name = some proxy.name;
    last_proxy_url = some proxy.url;
  },
)

abbrev pub next_of : Answer Unit × ProxyPool → Answer (Option String) × ProxyPool
next_of (fault e, pool) = (fault e, pool)
next_of (answer _, pool) =
    hand_out pool (get_elem? pool.proxies (pool.cursor % length pool.proxies))

unfoldable pub next_proxy_url :
    ProxyPool → ℕ → Answer (List ProxyEndpoint) → Answer (Option String) × ProxyPool
unfolding refresh_if_needed
next_proxy_url pool now fetched = next_of (refresh_if_needed pool now fetched)
