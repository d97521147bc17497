-- ===== src/Provider.antt =====
-- What stands between the collector and Google Trends: the Clash controller, the proxy pool, the
-- request profiles, and the provider that uses them.
pub mod Clash
pub mod Proxies
pub mod Subscription
pub mod Profiles
pub mod Pytrends
pub mod Check
