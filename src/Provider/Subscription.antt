-- ===== src/Provider/Subscription.antt =====
-- googletrends_app/proxy_pool.py, the reading of proxies from texts and subscriptions, and the pool
-- that a configuration gives. What Python's libraries make of a text is an argument.
pub mod Nodes
pub mod Parse
pub mod Pool
pub mod Distinct
pub mod Usable
use googletrends.Base.{
  decimal, ℕ, ◌+◌, ◌-◌, ◌%◌, nat_eq, leb, String, Bool, true, false, not, ◌&&◌, ◌||◌, Option, none,
  some, List, [], ◌∷◌, ◌++◌, codes, any_of, contains, is_empty, is_blank, is_some, is_prefix,
  has_text, append, strip, strip_front, strip_back, is_space, pieces, text_length, ◌==◌,
  if◌then◌else◌,
}
use Prim.Native.Char
use googletrends.Provider.Clash.{Answer, answer, fault}
use googletrends.Provider.Proxies.{ProxyEndpoint, ProxyPool}

-- The parts of `urlsplit(value)`; reading the port can raise ValueError.
pub record Url : Type 0 where
  pub scheme : String
  pub netloc : String
  pub path : String
  pub query : String
  pub fragment : String
  pub username : Option String
  pub hostname : Option String
  pub port : Answer (Option ℕ)

-- A value of a mapping: None, or something with its truth and its `str`.
pub data Scalar : Type 0 where
  null : Scalar
  scalar : Bool → String → Scalar

abbrev pub Node : Type 0
Node = List (String × Scalar)

-- What `yaml.safe_load` gives: nothing, without the library or where it raises; a mapping, with its
-- entry "proxies" if that is a list; a list; or something else. An element that is no mapping is none.
pub data Document : Type 0 where
  unread : Document
  mapping : Option (List (Option Node)) → Document
  sequence : List (Option Node) → Document
  other : Document

pub record Library : Type 0 where
  pub urlsplit : String → Answer Url
  pub urlunsplit : String → String → String → String → String → String
  pub lower : String → String
  -- `quote(text, safe="")`
  pub quote : String → String
  -- `str(int(text))`, none where `int` raises
  pub int_text : String → Option String
  -- `b64decode` and `urlsafe_b64decode` followed by the decoding of UTF-8, none where they raise
  pub b64decode : String → Option String
  pub urlsafe_b64decode : String → Option String
  pub safe_load : String → Document
  -- the fields of all rows of `csv.reader` with `skipinitialspace`
  pub csv_fields : String → List String

abbrev pub supported_proxy_schemes : List String
supported_proxy_schemes = "http" ∷ "https" ∷ "socks4" ∷ "socks4a" ∷ "socks5" ∷ "socks5h" ∷ []

abbrev pub is_quote : ℕ → Bool
is_quote c = nat_eq c 39 || nat_eq c 34

-- `s.strip("'\"")`
abbrev pub strip_quotes : String → String
strip_quotes s = strip_back is_quote (strip_front is_quote s)

abbrev pub is_slash : ℕ → Bool
is_slash c = nat_eq c 47

-- `not parsed.hostname`
abbrev pub lacks_host : Option String → Bool
lacks_host none = true
lacks_host (some host) = is_blank host

abbrev pub with_port : String → Answer (Option ℕ) → Answer (Option String)
with_port url (fault e) = fault e
with_port url (answer none) = answer none
with_port url (answer (some port)) = answer (some url)

abbrev pub normalized : Library → Answer Url → Answer (Option String)
normalized l (fault e) = fault e
normalized l (answer url) =
    let scheme = l.lower url.scheme in
    if not (contains scheme supported_proxy_schemes) || lacks_host url.hostname
    then answer none
    else with_port (l.urlunsplit scheme url.netloc (strip_back is_slash url.path) url.query "")
        url.port

unfoldable pub normalize_proxy_url : Library → String → Answer (Option String)
normalize_proxy_url l value = normalized l (l.urlsplit value)

abbrev pub cons_endpoint : ProxyEndpoint → Answer (List ProxyEndpoint) → Answer (List ProxyEndpoint)
cons_endpoint e (answer es) = answer (e ∷ es)
cons_endpoint e (fault m) = fault m

abbrev pub endpoint_at : ℕ → String → ProxyEndpoint
endpoint_at index url = record { name = append "proxy-" (decimal index); url = url }

-- The loop over the pieces, with what the rest gives if this one is taken, or passed over.
abbrev pub direct_step :
    ℕ
    → Answer (Option String)
    → Answer (List ProxyEndpoint)
    → Answer (List ProxyEndpoint)
    → Answer (List ProxyEndpoint)
direct_step index (fault e) taken passed = fault e
direct_step index (answer none) taken passed = passed
direct_step index (answer (some url)) taken passed = cons_endpoint (endpoint_at index url) taken

unfoldable pub direct_from : Library → ℕ → List String → Answer (List ProxyEndpoint)
unfolding normalize_proxy_url
direct_from l index [] = answer []
direct_from l index (token ∷ rest) =
    let value = strip_quotes (strip token) in
    if is_blank value
    then direct_from l index rest
    else direct_step index (normalize_proxy_url l value) (direct_from l (index + 1) rest)
        (direct_from l index rest)

-- `re.split(r"[\s,]+", text)`, with an empty piece more between two neighbouring marks.
unfoldable pub parse_direct_proxy_urls : Library → String → Answer (List ProxyEndpoint)
unfolding direct_from
parse_direct_proxy_urls l text = direct_from l 1 (pieces (λ c. is_space c || nat_eq c 44) text)

-- `"".join(text.split())`
abbrev pub without_spaces : String → String
without_spaces String.[] = String.[]
without_spaces (String.◌∷◌ c s) =
    let rest = without_spaces s in
    if is_space (Prim.Native.Char.code c) then rest else String.◌∷◌ c rest

abbrev pub is_base64 : ℕ → Bool
is_base64 c =
    (leb 65 c && leb c 90)
    || (leb 97 c && leb c 122)
    || (leb 48 c && leb c 57)
    || nat_eq c 43
    || nat_eq c 47
    || nat_eq c 61
    || nat_eq c 95
    || nat_eq c 45

-- `"=" * (-len(compact) % 4)`
abbrev pub padding : ℕ → String
padding n =
    if nat_eq (n % 4) 0
    then ""
    else if nat_eq (n % 4) 1
    then "==="
    else if nat_eq (n % 4) 2
    then "=="
    else "="

-- The first decoding that succeeds with a text of proxies.
abbrev pub first_decoded : List (Option String) → Option String
first_decoded [] = none
first_decoded (none ∷ rest) = first_decoded rest
first_decoded (some decoded ∷ rest) =
    if has_text "://" decoded || has_text "proxies:" decoded
    then some decoded
    else first_decoded rest

unfoldable pub decode_base64_subscription : Library → String → Option String
decode_base64_subscription l text =
    let compact = without_spaces text in
    let padded = append compact (padding (text_length compact)) in
    if is_blank compact || any_of (λ c. not (is_base64 c)) (codes compact)
    then none
    else first_decoded (l.b64decode padded ∷ l.urlsafe_b64decode padded ∷ [])

abbrev pub given : Option String → String
given none = ""
given (some s) = s

abbrev pub password_part : Library → Option String → String
password_part l none = ""
password_part l (some password) = append ":" (l.quote password)

unfoldable pub build_proxy_url :
    Library → String → String → String → Option String → Option String → String
build_proxy_url l scheme server port username password =
    let name = given username in
    let secret = password_part l password in
    let auth = if is_blank name then "" else append (l.quote name) (append secret "@") in
    let host =
      if has_text ":" server && not (is_prefix "[" server)
      then append "[" (append server "]")
      else server in
    append scheme (append "://" (append auth (append host (append ":" port))))

-- The local function `add`: the endpoints whose URL is not there yet.
unfoldable pub add_endpoints : List ProxyEndpoint → List ProxyEndpoint → List ProxyEndpoint
add_endpoints endpoints [] = endpoints
add_endpoints endpoints (item ∷ rest) =
    add_endpoints
      (if any_of (λ e. e.url == item.url) endpoints then endpoints else endpoints ++ item ∷ []) rest
