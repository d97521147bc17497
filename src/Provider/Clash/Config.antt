-- ===== src/Provider/Clash/Config.antt =====
-- googletrends_app/clash.py, the configuration: the controllers that may be there, and the first of
-- them that answers. The configuration file, the list of listening programs and the controllers'
-- answers are arguments.
pub mod First
use googletrends.Base.{
  ℕ, nat_eq, leb, String, Bool, true, false, not, ◌&&◌, ◌||◌, Option, none, some, List, [], ◌∷◌,
  ◌++◌, contains, is_empty, is_blank, is_some, is_prefix, append, strip, strip_back, pieces,
  replace_text, map, select, ◌==◌, if◌then◌else◌,
}
use googletrends.Provider.Clash.{Settings}

abbrev pub default_skip_proxy_names : List String
default_skip_proxy_names = "DIRECT" ∷ "REJECT" ∷ "REJECT-DROP" ∷ "PASS" ∷ []

abbrev pub default_allowed_proxy_name_keywords : List String
default_allowed_proxy_name_keywords = "香港" ∷ "日本" ∷ "美国" ∷ "新加坡" ∷ "狮城" ∷ "台湾" ∷ []

-- `value.strip().rstrip("/")`, the scheme, and the replacement of the address.
unfoldable pub normalize_controller_url : String → String
normalize_controller_url value =
    let url = strip_back (λ c. nat_eq c 47) (strip value) in
    replace_text "://0.0.0.0:" "://127.0.0.1:"
      (if is_prefix "http://" url || is_prefix "https://" url then url else append "http://" url)

-- `tuple(item.strip() for item in value.split(",") if item.strip())`
abbrev pub listed_items : String → List String
listed_items value =
    select (λ s. not (is_blank s)) (map (λ s. strip s) (pieces (λ c. nat_eq c 44) value))

abbrev pub or_default_items : List String → List String → List String
or_default_items [] default_items = default_items
or_default_items (x ∷ xs) default_items = x ∷ xs

unfoldable pub parse_skip_proxy_names : Option String → List String
parse_skip_proxy_names none = default_skip_proxy_names
parse_skip_proxy_names (some value) =
    if is_blank value
    then default_skip_proxy_names
    else or_default_items (listed_items value) default_skip_proxy_names

unfoldable pub parse_allowed_proxy_name_keywords : Option String → List String
parse_allowed_proxy_name_keywords none = default_allowed_proxy_name_keywords
parse_allowed_proxy_name_keywords (some value) = listed_items value

pub record ClashConfig : Type 0 where
  pub controller_url : Option String
  pub secret : Option String

-- The two entries of the configuration file as texts: none where the file or the entry is missing.
-- A file that exists is taken to be readable.
pub record ConfigFile : Type 0 where
  pub external_controller : Option String
  pub file_secret : Option String

-- A text that is not empty.
abbrev pub nonblank : Option String → Option String
nonblank none = none
nonblank (some s) = if is_blank s then none else some s

abbrev pub normalized_url : Option String → Option String
normalized_url none = none
normalized_url (some url) = some (normalize_controller_url url)

unfoldable pub read_clash_config : ConfigFile → ClashConfig
unfolding normalize_controller_url
read_clash_config file = record {
  controller_url = normalized_url (nonblank file.external_controller);
  secret = nonblank file.file_secret;
}

-- The list of listening programs, none where it cannot be had, and the port that the two searches
-- find in a line of a Clash program.
pub record Listing : Type 0 where
  pub lines : Option (List String)
  pub clash_port : String → Option String

-- `if url not in urls: urls.append(url)`
abbrev pub add_url : List String → String → List String
add_url urls url = if contains url urls then urls else urls ++ url ∷ []

abbrev pub add_urls : List String → List String → List String
add_urls urls [] = urls
add_urls urls (url ∷ rest) = add_urls (add_url urls url) rest

abbrev pub proxy_ports : List String
proxy_ports = "7890" ∷ "7891" ∷ "7892" ∷ "7893" ∷ []

abbrev pub add_port : List String → Option String → List String
add_port urls none = urls
add_port urls (some port) =
    if contains port proxy_ports then urls else add_url urls (append "http://127.0.0.1:" port)

abbrev pub discovered_from : Listing → List String → List String → List String
discovered_from listing urls [] = urls
discovered_from listing urls (line ∷ rest) =
    discovered_from listing (add_port urls (listing.clash_port line)) rest

unfoldable pub discover_clash_controller_urls : Listing → List String
discover_clash_controller_urls listing = elim listing.lines [
  | none ↦ []
  | some lines ↦ discovered_from listing [] lines
]

-- The arguments of `build_clash_controller`; `config_path` tells whether there is one.
pub record Request : Type 0 where
  pub enabled : Bool
  pub controller_url : Option String
  pub secret : Option String
  pub proxy_group : Option String
  pub config_path : Bool
  pub skip_proxy_names : Option String
  pub allowed_proxy_name_keywords : Option String
  pub probe : Bool

abbrev pub given_url : Option String → List String
given_url none = []
given_url (some url) = normalize_controller_url url ∷ []

abbrev pub add_found : List String → Option String → List String
add_found urls none = urls
add_found urls (some url) = add_url urls url

abbrev pub or_secret : Option String → Option String → Option String
or_secret none found = found
or_secret (some s) found = some s

-- Whether the configuration file is read.
abbrev pub reads_config : Request → Bool
reads_config r =
    (not (is_some (nonblank r.controller_url)) || not (is_some r.secret)) && r.config_path

unfoldable pub candidate_urls : Request → ConfigFile → Listing → List String
unfolding normalize_controller_url read_clash_config discover_clash_controller_urls
candidate_urls r file listing =
    let given = given_url (nonblank r.controller_url) in
    let configured =
      if reads_config r then add_found given (read_clash_config file).controller_url else given in
    add_urls configured (discover_clash_controller_urls listing)

unfoldable pub resolved_secret : Request → ConfigFile → Option String
unfolding read_clash_config
resolved_secret r file =
    if reads_config r then or_secret r.secret (read_clash_config file).secret else r.secret

pub record ClashController : Type 0 where
  pub controller_url : String
  pub secret : Option String
  pub settings : Settings

abbrev pub group_or : Option String → String
group_or none = "Google"
group_or (some g) = if is_blank g then "Google" else g

unfoldable pub controller_for : Request → Option String → String → ClashController
unfolding normalize_controller_url parse_skip_proxy_names parse_allowed_proxy_name_keywords
controller_for r secret url = record {
  controller_url = normalize_controller_url url;
  secret = secret;
  settings = record {
    proxy_group = group_or r.proxy_group;
    skip_proxy_names = parse_skip_proxy_names r.skip_proxy_names;
    allowed_proxy_name_keywords = parse_allowed_proxy_name_keywords r.allowed_proxy_name_keywords;
  };
}

-- No controller is wanted; one is found; or RuntimeError.
pub data Build : Type 0 where
  disabled : Build
  built : ClashController → Build
  no_url : Build
  unreachable_urls : Build

-- The loop over the candidates.
unfoldable pub first_available :
    (ClashController → Bool) → Request → Option String → List String → Build
unfolding controller_for
first_available is_available r secret [] = unreachable_urls
first_available is_available r secret (url ∷ rest) =
    let controller = controller_for r secret url in
    if not r.probe || is_available controller
    then built controller
    else first_available is_available r secret rest

unfoldable pub build_clash_controller :
    (ClashController → Bool) → Request → ConfigFile → Listing → Build
unfolding candidate_urls resolved_secret first_available
build_clash_controller is_available r file listing =
    let urls = candidate_urls r file listing in
    if not r.enabled && not (is_some (nonblank r.controller_url))
    then disabled
    else if is_empty urls
    then no_url
    else first_available is_available r (resolved_secret r file) urls
