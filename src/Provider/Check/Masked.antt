-- ===== src/Provider/Check/Masked.antt =====
-- googletrends_app/proxy_check.py, mask_proxy_url: what the page does not show.
use googletrends.Base.{ℕ, ◌≡◌, refl, sym, ◌∙◌, String, false, Option, some, is_blank, if◌then◌else◌}
use googletrends.Provider.Clash.{Answer, answer, fault}
use googletrends.Provider.Subscription.{Url, Library}
use googletrends.Provider.Check.{masked_with, mask_proxy_url}

-- URLs that agree in all but the password: the network locations may differ.
pub record AgreeOpenly (a b : Url) : Type 0 where
  pub same_scheme : a.scheme ≡ b.scheme
  pub same_path : a.path ≡ b.path
  pub same_query : a.query ≡ b.query
  pub same_fragment : a.fragment ≡ b.fragment
  pub same_username : a.username ≡ b.username
  pub same_hostname : a.hostname ≡ b.hostname
  pub same_port : a.port ≡ b.port

masked_with-open :
    (l : Library) (username : String) (a b : Url) (port : Answer (Option ℕ))
    → AgreeOpenly a b
    → masked_with l username a port ≡ masked_with l username b port
masked_with-open l username a b (fault e) o = refl
masked_with-open l username a b (answer port) o =
    rw (o.same_scheme, o.same_path, o.same_query, o.same_fragment, o.same_hostname) refl

-- Two URLs with a user name that is not empty, which urlsplit takes apart into the same parts but
-- for the network location, are masked to one text: the mask does not depend on the password.
pub mask_proxy_url-open :
    (l : Library) (value other username : String) (a b : Url)
    → l.urlsplit value ≡ answer a
    → l.urlsplit other ≡ answer b
    → a.username ≡ some username
    → is_blank username ≡ false
    → AgreeOpenly a b
    → mask_proxy_url l value ≡ mask_proxy_url l other
unfolding mask_proxy_url
mask_proxy_url-open l value other username a b split_a split_b named given o =
    rw (split_a, split_b, named, sym o.same_username ∙ named, given, o.same_port, if◌then◌else◌)
      (masked_with-open l username a b b.port o)
