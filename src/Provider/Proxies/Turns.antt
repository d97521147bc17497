-- ===== src/Provider/Proxies/Turns.antt =====
-- googletrends_app/proxy_pool.py, ProxyPool.next_proxy_url: the order of the proxies.
use googletrends.Base.{
  ℕ, zero, suc, ◌+◌, ◌%◌, ◌<◌, ◌≡◌, refl, ap, String, Option, none, some, List, length, get_elem?,
  get_elem?-some, arith,
}
use googletrends.Provider.Clash.{Answer, answer}
use googletrends.Provider.Proxies.{ProxyEndpoint, ProxyPool, next_proxy_url, refresh_if_needed}

-- The pool after a number of calls; the readings of the clock and the subscription vary.
abbrev pub called : (ℕ → ℕ) → (ℕ → Answer (List ProxyEndpoint)) → ℕ → ProxyPool → ProxyPool
called now fetched zero pool = pool
called now fetched (suc n) pool = (next_proxy_url (called now fetched n pool) (now n) (fetched n)).1

-- A pool that holds the proxies it began with, some calls later.
pub record HasServed (pool : ProxyPool) (n : ℕ) (later : ProxyPool) : Type 0 where
  pub same_proxies : later.proxies ≡ pool.proxies
  pub static : later.subscription_url ≡ none
  pub moved : later.cursor ≡ pool.cursor + n

serve :
    (pool : ProxyPool) (now : ℕ) (fetched : Answer (List ProxyEndpoint)) (p : ProxyEndpoint)
    → pool.subscription_url ≡ none
    → get_elem? pool.proxies (pool.cursor % length pool.proxies) ≡ some p
    → next_proxy_url pool now fetched ≡ (
      answer (some p.url),
      record pool {
        cursor = pool.cursor + 1;
        last_proxy_name = some p.name;
        last_proxy_url = some p.url;
      },
    )
unfolding next_proxy_url refresh_if_needed
serve pool now fetched p s e = rw (s, next_proxy_url, refresh_if_needed) (rw e refl)

next_index_lt : (n m : ℕ) → 0 < m → n % m < m
next_index_lt n m h = omega (arith, h)

-- A call of such a pool.
serve_next :
    (pool later : ProxyPool) (n now : ℕ) (fetched : Answer (List ProxyEndpoint))
    → 0 < length pool.proxies
    → HasServed pool n later
    → (p : ProxyEndpoint) × (get_elem? pool.proxies ((pool.cursor + n) % length pool.proxies)
        ≡ some p)
      × (next_proxy_url later now fetched ≡ (
        answer (some p.url),
        record later {
          cursor = later.cursor + 1;
          last_proxy_name = some p.name;
          last_proxy_url = some p.url;
        },
      ))
serve_next pool later n now fetched l h =
    let index = (pool.cursor + n) % length pool.proxies in
    let found =
      get_elem?-some pool.proxies index (next_index_lt (pool.cursor + n) (length pool.proxies) l) in
    (
      found.0,
      found.1,
      serve later now fetched found.0 h.static (rw (h.same_proxies, h.moved) found.1),
    )

served_next :
    (pool later : ProxyPool) (n now : ℕ) (fetched : Answer (List ProxyEndpoint))
    → 0 < length pool.proxies
    → HasServed pool n later
    → HasServed pool (suc n) (next_proxy_url later now fetched).1
served_next pool later n now fetched l h =
    let step = serve_next pool later n now fetched l h in
    rw (step.2)
      (record { same_proxies = h.same_proxies; static = h.static; moved = omega (arith, h.moved) })

called-HasServed :
    (now : ℕ → ℕ) (fetched : ℕ → Answer (List ProxyEndpoint)) (pool : ProxyPool) (n : ℕ)
    → pool.subscription_url ≡ none
    → 0 < length pool.proxies
    → HasServed pool n (called now fetched n pool)
called-HasServed now fetched pool zero s l = record {
  same_proxies = refl;
  static = s;
  moved = omega arith;
}
called-HasServed now fetched pool (suc n) s l =
    served_next pool (called now fetched n pool) n (now n) (fetched n) l
      (called-HasServed now fetched pool n s l)

-- A pool of proxies without a subscription hands them out in turn: call number n, counted from 0,
-- gives the URL of the proxy at the pool's cursor plus n, modulo the number of proxies, which
-- there is, and does not raise.
pub next_proxy_url-turn :
    (now : ℕ → ℕ) (fetched : ℕ → Answer (List ProxyEndpoint)) (pool : ProxyPool) (n : ℕ)
    → pool.subscription_url ≡ none
    → 0 < length pool.proxies
    → (p : ProxyEndpoint) × (get_elem? pool.proxies ((pool.cursor + n) % length pool.proxies)
        ≡ some p)
      × ((next_proxy_url (called now fetched n pool) (now n) (fetched n)).0 ≡ answer (some p.url))
next_proxy_url-turn now fetched pool n s l =
    let step =
      serve_next pool (called now fetched n pool) n (now n) (fetched n) l
        (called-HasServed now fetched pool n s l) in
    (step.0, step.1, ap (λ (r : Answer (Option String) × ProxyPool). r.0) step.2)
