-- ===== src/Provider/Subscription/Pool.antt =====
-- googletrends_app/proxy_pool.py, build_proxy_pool: the pool of a configuration.
use googletrends.Base.{
  ℕ, String, Bool, true, false, ◌&&◌, Option, none, some, List, [], ◌∷◌, contains, is_empty,
  is_blank, if◌then◌else◌,
}
use googletrends.Provider.Clash.{Answer, answer, fault}
use googletrends.Provider.Proxies.{ProxyEndpoint, ProxyPool}
use googletrends.Provider.Subscription.{Url, Library, normalize_proxy_url, parse_direct_proxy_urls}

-- `is_local_proxy_reachable`, with the test whether a host takes a connection at a port.
abbrev pub is_local_host : Option String → Bool
is_local_host none = false
is_local_host (some host) = contains host ("127.0.0.1" ∷ "localhost" ∷ "::1" ∷ [])

abbrev pub reaches : (String → ℕ → Bool) → Option String → Answer (Option ℕ) → Answer Bool
reaches connects none port = answer false
reaches connects (some host) (fault e) = fault e
reaches connects (some host) (answer none) = answer false
reaches connects (some host) (answer (some port)) = answer (connects host port)

abbrev pub reaches_url : (String → ℕ → Bool) → Answer Url → Answer Bool
reaches_url connects (fault e) = fault e
reaches_url connects (answer url) =
    if is_local_host url.hostname then reaches connects url.hostname url.port else answer false

abbrev pub reachable_at : Library → (String → ℕ → Bool) → Answer (Option String) → Answer Bool
reachable_at l connects (fault e) = fault e
reachable_at l connects (answer none) = answer false
reachable_at l connects (answer (some url)) = reaches_url connects (l.urlsplit url)

unfoldable pub is_local_proxy_reachable : Library → (String → ℕ → Bool) → String → Answer Bool
unfolding normalize_proxy_url
is_local_proxy_reachable l connects proxy_url =
    reachable_at l connects (normalize_proxy_url l proxy_url)

-- `if not text`
abbrev pub lacks_text : Option String → Bool
lacks_text none = true
lacks_text (some s) = is_blank s

-- `subscription_url or None`
abbrev pub text_or_none : Option String → Option String
text_or_none none = none
text_or_none (some s) = if is_blank s then none else some s

abbrev pub new_pool : List ProxyEndpoint → Option String → ℕ → ProxyPool
new_pool proxies subscription_url refresh_seconds = record {
  proxies = proxies;
  subscription_url = text_or_none subscription_url;
  refresh_seconds = refresh_seconds;
  last_refresh = none;
  cursor = 0;
  last_proxy_name = none;
  last_proxy_url = none;
}

-- The pool, if there is a proxy or a subscription, with the source that it names.
abbrev pub pool_with : Option String → ℕ → List ProxyEndpoint → String → Option (ProxyPool × String)
pool_with subscription_url refresh_seconds proxies source =
    if is_empty proxies && lacks_text subscription_url
    then none
    else some (new_pool proxies subscription_url refresh_seconds, source)

abbrev pub detected :
    Option String → ℕ → Answer (List ProxyEndpoint) → Answer (Option (ProxyPool × String))
detected subscription_url refresh_seconds (fault e) = fault e
detected subscription_url refresh_seconds (answer proxies) =
    answer (pool_with subscription_url refresh_seconds proxies "local_clash_auto")

abbrev pub detecting :
    Library → Option String → ℕ → String → Answer Bool → Answer (Option (ProxyPool × String))
detecting l subscription_url refresh_seconds url (fault e) = fault e
detecting l subscription_url refresh_seconds url (answer false) =
    answer (pool_with subscription_url refresh_seconds [] "subscription")
detecting l subscription_url refresh_seconds url (answer true) =
    detected subscription_url refresh_seconds (parse_direct_proxy_urls l url)

abbrev pub auto_detect :
    Library
    → (String → Answer Bool)
    → Option String
    → ℕ
    → Option String
    → Answer (Option (ProxyPool × String))
auto_detect l reachable subscription_url refresh_seconds none =
    answer (pool_with subscription_url refresh_seconds [] "subscription")
auto_detect l reachable subscription_url refresh_seconds (some url) =
    if is_blank url
    then answer (pool_with subscription_url refresh_seconds [] "subscription")
    else detecting l subscription_url refresh_seconds url (reachable url)

abbrev pub pool_from :
    Library
    → (String → Answer Bool)
    → Option String
    → ℕ
    → Option String
    → Answer (List ProxyEndpoint)
    → Answer (Option (ProxyPool × String))
pool_from l reachable subscription_url refresh_seconds auto (fault e) = fault e
pool_from l reachable subscription_url refresh_seconds auto (answer (p ∷ ps)) =
    answer (pool_with subscription_url refresh_seconds (p ∷ ps) "env_proxy_urls")
pool_from l reachable subscription_url refresh_seconds auto (answer []) =
    if lacks_text subscription_url
    then auto_detect l reachable subscription_url refresh_seconds auto
    else answer (pool_with subscription_url refresh_seconds [] "subscription")

-- `proxy_urls or ""`
abbrev pub text_given : Option String → String
text_given none = ""
text_given (some s) = s

unfoldable pub build_proxy_pool :
    Library
    → (String → Answer Bool)
    → Option String
    → Option String
    → ℕ
    → Option String
    → Answer (Option (ProxyPool × String))
unfolding parse_direct_proxy_urls
build_proxy_pool l reachable proxy_urls subscription_url refresh_seconds auto_detect_proxy_url =
    pool_from l reachable subscription_url refresh_seconds auto_detect_proxy_url
      (parse_direct_proxy_urls l (text_given proxy_urls))
