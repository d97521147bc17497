-- ===== src/Provider/Pytrends.antt =====
-- googletrends_app/trends.py, `PytrendsProvider`: one request through the pools, and at most one
-- more after a rotation of the Clash controller. The network is an argument: what the subscription
-- gives, what Google answers to a request, and the controller.
use googletrends.Base.{
  decimal, has_lower_text, ℕ, ◌/◌, ◌%◌, String, Bool, true, false, not, ◌&&◌, ◌||◌, Option, none,
  some, List, [], ◌∷◌, nat_eq, contains, append, is_blank, if◌then◌else◌,
}
use googletrends.Trends.{TrendPoint, now_timeframes}
use googletrends.Provider.Clash.{
  Answer, answer, fault, Controller, Settings, ClashError, request_failed, group_not_found,
  group_not_selectable, no_reachable_proxy, Rotation, rotated, no_candidates, rotation_error,
  rotate_proxy_with_group,
}
use googletrends.Provider.Proxies.{ProxyEndpoint, ProxyPool, next_proxy_url}
use googletrends.Provider.Profiles.{ProfilePool, profile_for}

-- The fields of a timestamp that the code reads; `day` is the text of its date.
pub record Timestamp : Type 0 where
  pub day : String
  pub hour : ℕ
  pub minute : ℕ
  pub second : ℕ
  pub microsecond : ℕ

-- A row of the answer: the value of the term, if there is one, and the mark of a partial period.
pub record Row : Type 0 where
  pub timestamp : Timestamp
  pub value : Option ℕ
  pub is_partial : Bool

-- The arguments of `TrendReq` that depend on the pools.
pub record Sent : Type 0 where
  pub proxy_url : Option String
  pub profile : Option ℕ

-- The outside of one call of `collect_keyword`, for its first and its second request.
pub record Network : Type 0 where
  pub now : ℕ → ℕ
  pub subscription : ℕ → Answer (List ProxyEndpoint)
  pub interest : ℕ → Sent → Answer (List Row)
  pub controller : Controller

pub record Pytrends : Type 0 where
  pub proxy_pool : Option ProxyPool
  pub profile_pool : Option ProfilePool
  pub clash : Option Settings
  pub rotate_on_429 : Bool
  pub rotate_on_error : Bool
  pub retry_after_rotate : Bool
  pub last_proxy_name : Option String
  pub last_proxy_url : Option String
  pub last_profile_key : Option String

unfoldable pub is_rate_limit_error : String → Bool
is_rate_limit_error error =
    has_lower_text "429" error
    || has_lower_text "too many requests" error
    || has_lower_text "rate limit" error
    || has_lower_text "ratelimit" error

abbrev two_digits : ℕ → String
two_digits n = append (decimal (n / 10)) (decimal (n % 10))

-- `isoformat(timespec="seconds")` of a time without a zone
abbrev pub datetime_text : Timestamp → String
datetime_text t = append t.day (
    append "T" (
      append (two_digits t.hour)
        (append ":" (append (two_digits t.minute) (append ":" (two_digits t.second))))))

abbrev pub is_midnight : Timestamp → Bool
is_midnight t = nat_eq t.hour 0 && nat_eq t.minute 0 && nat_eq t.second 0 && nat_eq t.microsecond 0

-- A date for midnight outside the short windows, and the time to the second otherwise.
unfoldable pub point_date : String → Timestamp → String
point_date timeframe t =
    if not (contains timeframe now_timeframes) && is_midnight t then t.day else datetime_text t

unfoldable pub points_of : String → List Row → List TrendPoint
unfolding point_date
points_of timeframe [] = []
points_of timeframe (row ∷ rest) =
    let later = points_of timeframe rest in
    elim row.value [
      | none ↦ later
      | some v ↦
          record {
            date = point_date timeframe row.timestamp;
            value = v;
            is_partial = row.is_partial;
          }
          ∷ later
    ]

abbrev or_else : Option String → String → String
or_else none d = d
or_else (some s) d = if is_blank s then d else s

-- `proxy_name`, where the pool has none: "direct" or the URL.
abbrev pub name_of : Option String → Option String → String
name_of (some name) url = name
name_of none none = "direct"
name_of none (some url) = url

-- The pool's next URL and the name that it leaves behind.
abbrev pub Picked : Type 0
Picked = Answer (Option String) × Option ProxyPool

unfoldable pub pick_proxy : Option ProxyPool → ℕ → Answer (List ProxyEndpoint) → Picked
pick_proxy none now fetched = (answer none, none)
pick_proxy (some pool) now fetched =
    let (url, pool') = next_proxy_url pool now fetched in (url, some pool')

abbrev pub pool_name : Option ProxyPool → Option String
pool_name none = none
pool_name (some pool) = pool.last_proxy_name

abbrev pub pick_profile : Option ProfilePool → String → Option ℕ × Option ProfilePool
pick_profile none key = (none, none)
pick_profile (some pool) key = let (index, pool') = profile_for pool key in (some index, some pool')

abbrev pub identity_key : Option String → String → String
identity_key profile_key proxy_name = or_else profile_key (or_else (some proxy_name) "direct")

abbrev pub with_request :
    Pytrends → Option String → Option String → Option ProxyPool → Sent × Pytrends
with_request p profile_key url pool =
    let name = name_of (pool_name pool) url in
    let key = identity_key profile_key name in
    let (profile, profiles) = pick_profile p.profile_pool key in
    (
      record { proxy_url = url; profile = profile },
      record p {
        proxy_pool = pool;
        profile_pool = profiles;
        last_proxy_name = some name;
        last_proxy_url = url;
        last_profile_key = some key;
      },
    )

abbrev pub built : Pytrends → Option String → Picked → Answer Sent × Pytrends
built p profile_key (fault e, pool) = (fault e, record p { proxy_pool = pool })
built p profile_key (answer url, pool) =
    let (sent, p') = with_request p profile_key url pool in (answer sent, p')

unfoldable pub build_trend_req : Network → ℕ → Pytrends → Option String → Answer Sent × Pytrends
unfolding pick_proxy
build_trend_req net i p profile_key =
    built p profile_key (pick_proxy p.proxy_pool (net.now i) (net.subscription i))

abbrev pub received : String → Answer (List Row) → Answer (List TrendPoint)
received timeframe (fault e) = fault e
received timeframe (answer rows) = answer (points_of timeframe rows)

abbrev pub fetched_with :
    Network → ℕ → String → Answer Sent × Pytrends → Answer (List TrendPoint) × Pytrends
fetched_with net i timeframe (fault e, p) = (fault e, p)
fetched_with net i timeframe (answer sent, p) = (received timeframe (net.interest i sent), p)

-- The request number `i` of a call; the term, the region and the property go to the network as they are.
unfoldable pub collect_keyword_once :
    Network → ℕ → Pytrends → String → Option String → Answer (List TrendPoint) × Pytrends
unfolding build_trend_req points_of
collect_keyword_once net i p timeframe profile_key =
    fetched_with net i timeframe (build_trend_req net i p profile_key)

unfoldable pub should_rotate_clash_proxy : Pytrends → String → Bool
unfolding is_rate_limit_error
should_rotate_clash_proxy p error = elim p.clash [
  | none ↦ false
  | some _ ↦ if p.rotate_on_429 && is_rate_limit_error error then true else p.rotate_on_error
]

-- `str(exc)`, with `repr` of a group's name as the name in quotes.
unfoldable pub clash_error_text : ClashError → String
clash_error_text (request_failed e) = e
clash_error_text (group_not_found g) = append "Clash proxy group '" (append g "' was not found.")
clash_error_text (group_not_selectable g) =
    append "Clash proxy group '" (append g "' is not selectable.")
clash_error_text (no_reachable_proxy g none) =
    append "No reachable proxy candidate was found for group '" (append g "'.")
clash_error_text (no_reachable_proxy g (some e)) =
    append "No reachable proxy candidate was found for group '"
      (append g (append "'. Last connectivity check failed: " e))

-- After a rotation: the second request, or the first error, or both errors.
abbrev pub after_rotation :
    Network → Pytrends → String → String → Rotation → Answer (List TrendPoint) × Pytrends
after_rotation net p timeframe error (rotation_error e) = (
  fault (append error (append " (Clash proxy rotation failed: " (append (clash_error_text e) ")"))),
  p,
)
after_rotation net p timeframe error no_candidates = (fault error, p)
after_rotation net p timeframe error (rotated proxy_group selected) =
    if not (is_blank selected) && p.retry_after_rotate
    then collect_keyword_once net 1 p timeframe (some (append "clash:" selected))
    else (fault error, p)

abbrev pub rotation_of : Network → Option Settings → Rotation
rotation_of net none = no_candidates
rotation_of net (some s) = rotate_proxy_with_group net.controller s

abbrev pub retried :
    Network → String → Answer (List TrendPoint) × Pytrends → Answer (List TrendPoint) × Pytrends
retried net timeframe (answer found, p) = (answer found, p)
retried net timeframe (fault error, p) =
    if should_rotate_clash_proxy p error
    then after_rotation net p timeframe error (rotation_of net p.clash)
    else (fault error, p)

unfoldable pub collect_keyword : Network → Pytrends → String → Answer (List TrendPoint) × Pytrends
unfolding collect_keyword_once should_rotate_clash_proxy
collect_keyword net p timeframe =
    retried net timeframe (collect_keyword_once net 0 p timeframe none)
