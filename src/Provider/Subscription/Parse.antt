-- ===== src/Provider/Subscription/Parse.antt =====
-- googletrends_app/proxy_pool.py, the endpoints of a Clash subscription, and the whole
-- subscription.
use googletrends.Base.{
  decimal, ℕ, ◌+◌, String, true, ◌||◌, Option, none, some, List, [], ◌∷◌, is_blank, append, strip,
  ◌==◌, if◌then◌else◌,
}
use googletrends.Provider.Clash.{Answer, answer, fault}
use googletrends.Provider.Proxies.{ProxyEndpoint}
use googletrends.Provider.Subscription.{
  Scalar, null, scalar, Node, Library, parse_direct_proxy_urls, decode_base64_subscription,
  build_proxy_url, add_endpoints,
}
use googletrends.Provider.Subscription.Nodes.{entry, load_clash_nodes}

-- `SUPPORTED_CLASH_TYPES.get(proxy_type)`
abbrev pub scheme_of : String → Option String
scheme_of proxy_type =
    if proxy_type == "http"
    then some "http"
    else if proxy_type == "https"
    then some "https"
    else if proxy_type == "socks5" || proxy_type == "socks"
    then some "socks5h"
    else none

-- `str(node.get(key, ""))`
abbrev pub str_of : Option Scalar → String
str_of none = ""
str_of (some null) = "None"
str_of (some (scalar truth text)) = text

-- `node.get(a) or node.get(b)`, and `str` of it where it is not None
abbrev pub str_unless_none : Option Scalar → Option String
str_unless_none (some (scalar truth text)) = some text
str_unless_none _ = none

abbrev pub or_entry : Option Scalar → Option Scalar → Option String
or_entry (some (scalar true text)) b = some text
or_entry _ b = str_unless_none b

-- `str(node.get("name") or …)`
abbrev pub name_or : Option Scalar → String → String
name_or (some (scalar true text)) default_name = text
name_or _ default_name = default_name

-- The port of a node as the text of a number.
abbrev pub port_text : Library → Option Scalar → Option String
port_text l (some (scalar truth text)) = l.int_text text
port_text l _ = none

unfoldable pub endpoint_of :
    Library → ℕ → Node → Option String → String → Option String → Option ProxyEndpoint
unfolding build_proxy_url
endpoint_of l index node (some scheme) server (some port) =
    if is_blank server
    then none
    else some (record {
      name = name_or (entry "name" node) (append "clash-proxy-" (decimal index));
      url =
          build_proxy_url l scheme server port
            (or_entry (entry "username" node) (entry "user" node))
            (or_entry (entry "password" node) (entry "pass" node));
    })
endpoint_of l index node _ server _ = none

abbrev pub cons_some : Option ProxyEndpoint → List ProxyEndpoint → List ProxyEndpoint
cons_some none es = es
cons_some (some e) es = e ∷ es

unfoldable pub endpoints_from : Library → ℕ → List Node → List ProxyEndpoint
unfolding endpoint_of
endpoints_from l index [] = []
endpoints_from l index (node ∷ rest) =
    cons_some
      (endpoint_of l index node (scheme_of (l.lower (str_of (entry "type" node))))
        (strip (str_of (entry "server" node))) (port_text l (entry "port" node)))
      (endpoints_from l (index + 1) rest)

unfoldable pub parse_clash_subscription : Library → String → List ProxyEndpoint
unfolding load_clash_nodes endpoints_from
parse_clash_subscription l text = endpoints_from l 1 (load_clash_nodes l text)

-- `add(parse_direct_proxy_urls(text))`, which may raise
unfoldable pub add_direct :
    List ProxyEndpoint → Answer (List ProxyEndpoint) → Answer (List ProxyEndpoint)
unfolding add_endpoints
add_direct endpoints (fault e) = fault e
add_direct endpoints (answer items) = answer (add_endpoints endpoints items)

unfoldable pub add_clash :
    Answer (List ProxyEndpoint) → List ProxyEndpoint → Answer (List ProxyEndpoint)
unfolding add_endpoints
add_clash (fault e) items = fault e
add_clash (answer endpoints) items = answer (add_endpoints endpoints items)

-- What a decoded text adds; `if decoded:` passes over an empty one.
unfoldable pub add_decoded :
    Library → Option String → Answer (List ProxyEndpoint) → Answer (List ProxyEndpoint)
unfolding parse_direct_proxy_urls parse_clash_subscription add_direct add_clash
add_decoded l decoded (fault e) = fault e
add_decoded l none (answer endpoints) = answer endpoints
add_decoded l (some decoded) (answer endpoints) =
    if is_blank decoded
    then answer endpoints
    else add_clash (add_direct endpoints (parse_direct_proxy_urls l decoded))
        (parse_clash_subscription l decoded)

unfoldable pub parse_proxy_subscription : Library → String → Answer (List ProxyEndpoint)
unfolding parse_direct_proxy_urls decode_base64_subscription parse_clash_subscription add_direct
    add_clash add_decoded
parse_proxy_subscription l text =
    add_clash
      (add_decoded l (decode_base64_subscription l text)
        (add_direct [] (parse_direct_proxy_urls l text)))
      (parse_clash_subscription l text)
