-- ===== src/Provider/Subscription/Distinct.antt =====
-- googletrends_app/proxy_pool.py, parse_proxy_subscription: the URLs of the endpoints that it gives.
use googletrends.Base.{
  ◌≡◌, refl, sym, String, Bool, true, false, Option, none, some, List, [], ◌∷◌, ◌++◌, any_of, All,
  is_blank, Bool-cases, inl, inr, ◌==◌, eq_iff, if◌then◌else◌, arith,
}
use mathlib.Core.Path.{subst}
use googletrends.Database.Pairwise.{Pairwise, Pairwise-append_one, All-map_of}
use googletrends.Provider.Clash.{Answer, answer, fault}
use googletrends.Provider.Proxies.{ProxyEndpoint}
use googletrends.Provider.Subscription.{
  Library, add_endpoints, parse_direct_proxy_urls, decode_base64_subscription,
}
use googletrends.Provider.Subscription.Parse.{
  add_direct, add_clash, add_decoded, parse_clash_subscription, parse_proxy_subscription,
}

-- No two endpoints have one URL.
abbrev pub AreDistinct : List ProxyEndpoint → Type 0
AreDistinct = Pairwise (λ a b. (a.url == b.url) ≡ false)

abbrev pub has_url : String → List ProxyEndpoint → Bool
has_url url endpoints = any_of (λ e. e.url == url) endpoints

-- The first list has the URLs of the second.
abbrev pub Covers : List ProxyEndpoint → List ProxyEndpoint → Type 0
Covers endpoints items = All (λ (e : ProxyEndpoint). has_url e.url endpoints ≡ true) items

none_like :
    (url : String) (es : List ProxyEndpoint)
    → has_url url es ≡ false
    → All (λ (e : ProxyEndpoint). (e.url == url) ≡ false) es
none_like url [] h = tt
none_like url (e ∷ es) h = (ground arith, none_like url es (ground arith))

has_url-append :
    (url : String) (es fs : List ProxyEndpoint)
    → has_url url es ≡ true
    → has_url url (es ++ fs) ≡ true
has_url-append url [] fs h = cc h
has_url-append url (e ∷ es) fs h = ground (arith, has_url-append url es fs)

has_url-last : (es : List ProxyEndpoint) (e : ProxyEndpoint) → has_url e.url (es ++ e ∷ []) ≡ true
has_url-last [] e = ground (arith, (eq_iff e.url e.url).1 refl)
has_url-last (f ∷ es) e = ground (arith, has_url-last es e)

add_endpoints-AreDistinct :
    (es items : List ProxyEndpoint) → AreDistinct es → AreDistinct (add_endpoints es items)
unfolding add_endpoints
add_endpoints-AreDistinct es [] d = d
add_endpoints-AreDistinct es (i ∷ rest) d = elim (Bool-cases (has_url i.url es)) [
  | inl t ↦ rw (t, if◌then◌else◌) (add_endpoints-AreDistinct es rest d)
  | inr f ↦
      rw (f, if◌then◌else◌)
        (add_endpoints-AreDistinct (es ++ i ∷ []) rest (
          Pairwise-append_one (λ (a b : ProxyEndpoint). (a.url == b.url) ≡ false) es i d
            (none_like i.url es f)))
]

-- What has a URL keeps it.
add_endpoints-keeps :
    (url : String) (es items : List ProxyEndpoint)
    → has_url url es ≡ true
    → has_url url (add_endpoints es items) ≡ true
unfolding add_endpoints
add_endpoints-keeps url es [] h = h
add_endpoints-keeps url es (i ∷ rest) h = elim (Bool-cases (has_url i.url es)) [
  | inl t ↦ rw (t, if◌then◌else◌) (add_endpoints-keeps url es rest h)
  | inr f ↦
      rw (f, if◌then◌else◌)
        (add_endpoints-keeps url (es ++ i ∷ []) rest (has_url-append url es (i ∷ []) h))
]

add_endpoints-Covers : (es items : List ProxyEndpoint) → Covers (add_endpoints es items) items
unfolding add_endpoints
add_endpoints-Covers es [] = tt
add_endpoints-Covers es (i ∷ rest) = elim (Bool-cases (has_url i.url es)) [
  | inl t ↦
      let same : add_endpoints es (i ∷ rest) ≡ add_endpoints es rest = rw (t, if◌then◌else◌) refl in
      subst (λ z. Covers z (i ∷ rest)) (sym same)
        (add_endpoints-keeps i.url es rest t, add_endpoints-Covers es rest)
  | inr f ↦
      let more : add_endpoints es (i ∷ rest) ≡ add_endpoints (es ++ i ∷ []) rest =
        rw (f, if◌then◌else◌) refl in
      subst (λ z. Covers z (i ∷ rest)) (sym more)
        (
          add_endpoints-keeps i.url (es ++ i ∷ []) rest (has_url-last es i),
          add_endpoints-Covers (es ++ i ∷ []) rest,
        )
]

-- Of two additions, the later keeps what the earlier covers.
kept-Covers :
    (es items later : List ProxyEndpoint) → Covers es items → Covers (add_endpoints es later) items
kept-Covers es items later c =
    All-map_of (λ (e : ProxyEndpoint). has_url e.url es ≡ true)
      (λ (e : ProxyEndpoint). has_url e.url (add_endpoints es later) ≡ true) items
      (λ e h. add_endpoints-keeps e.url es later h) c

-- An answer whose endpoints have different URLs, those of each part among them.
abbrev pub IsMerged :
    Answer (List ProxyEndpoint) → Answer (List ProxyEndpoint) → List ProxyEndpoint → Type 0
IsMerged (answer es) (answer direct) clash = AreDistinct es × Covers es direct × Covers es clash
IsMerged (answer es) (fault e) clash = ⊥
IsMerged (fault m) direct clash = Unit

-- The same of a text that is not decoded yet, without its Clash nodes.
abbrev HasDirect : Answer (List ProxyEndpoint) → Answer (List ProxyEndpoint) → Type 0
HasDirect (answer es) (answer direct) = AreDistinct es × Covers es direct
HasDirect (answer es) (fault e) = ⊥
HasDirect (fault m) direct = Unit

direct-HasDirect : (direct : Answer (List ProxyEndpoint)) → HasDirect (add_direct [] direct) direct
unfolding add_direct
direct-HasDirect (fault e) = tt
direct-HasDirect (answer items) =
    (add_endpoints-AreDistinct [] items tt, add_endpoints-Covers [] items)

more-HasDirect :
    (es items : List ProxyEndpoint) (direct : Answer (List ProxyEndpoint))
    → HasDirect (answer es) direct
    → HasDirect (answer (add_endpoints es items)) direct
more-HasDirect es items (fault e) h = h
more-HasDirect es items (answer direct) h =
    (add_endpoints-AreDistinct es items h.0, kept-Covers es direct items h.1)

decoded_part-HasDirect :
    (es clash : List ProxyEndpoint) (direct decoded : Answer (List ProxyEndpoint))
    → HasDirect (answer es) direct
    → HasDirect (add_clash (add_direct es decoded) clash) direct
unfolding add_direct add_clash
decoded_part-HasDirect es clash direct (fault e) h = tt
decoded_part-HasDirect es clash direct (answer items) h =
    more-HasDirect (add_endpoints es items) clash direct (more-HasDirect es items direct h)

decoded-HasDirect :
    (l : Library) (decoded : Option String) (so_far direct : Answer (List ProxyEndpoint))
    → HasDirect so_far direct
    → HasDirect (add_decoded l decoded so_far) direct
unfolding add_decoded
decoded-HasDirect l decoded (fault e) direct h = tt
decoded-HasDirect l none (answer es) direct h = h
decoded-HasDirect l (some text) (answer es) direct h = elim (Bool-cases (is_blank text)) [
  | inl b ↦ rw (b, if◌then◌else◌) h
  | inr b ↦
      rw (b, if◌then◌else◌)
        (decoded_part-HasDirect es (parse_clash_subscription l text) direct
          (parse_direct_proxy_urls l text) h)
]

clash-IsMerged :
    (so_far direct : Answer (List ProxyEndpoint)) (clash : List ProxyEndpoint)
    → HasDirect so_far direct
    → IsMerged (add_clash so_far clash) direct clash
unfolding add_clash
clash-IsMerged (fault e) direct clash h = tt
clash-IsMerged (answer es) (fault e) clash h = h
clash-IsMerged (answer es) (answer direct) clash h = (
  add_endpoints-AreDistinct es clash h.0,
  kept-Covers es direct clash h.1,
  add_endpoints-Covers es clash,
)

-- Unless the reading of a subscription raises, its endpoints have different URLs, the direct
-- proxies of the text could be read, and the URLs of these and of the Clash nodes of the text are
-- among those of the endpoints.
pub parse_proxy_subscription-IsMerged :
    (l : Library) (text : String)
    → IsMerged
        (parse_proxy_subscription l text)
        (parse_direct_proxy_urls l text)
        (parse_clash_subscription l text)
unfolding parse_proxy_subscription
parse_proxy_subscription-IsMerged l text =
    clash-IsMerged
      (add_decoded l (decode_base64_subscription l text)
        (add_direct [] (parse_direct_proxy_urls l text)))
      (parse_direct_proxy_urls l text) (parse_clash_subscription l text)
      (decoded-HasDirect l (decode_base64_subscription l text) _ (parse_direct_proxy_urls l text)
        (direct-HasDirect (parse_direct_proxy_urls l text)))
