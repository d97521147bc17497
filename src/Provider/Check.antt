-- ===== src/Provider/Check.antt =====
-- googletrends_app/proxy_check.py: the check of the proxies, and the URLs that the page shows. The
-- answers of the network and the clock are arguments.
pub mod Masked
pub mod Rotate
use googletrends.Base.{
  decimal, ℕ, nat_eq, String, Bool, true, false, not, ◌&&◌, ◌||◌, Option, none, some, List, [], ◌∷◌,
  is_blank, is_prefix, has_text, append, strip, pieces, map, select, length, replace_text, ◌==◌,
  if◌then◌else◌,
}
use googletrends.Settings.{Settings}
use googletrends.Provider.Clash.{
  Answer, answer, fault, Controller, ClashError, Rotation, rotated, no_candidates, rotation_error,
  effective_proxy_group_name, rotate_proxy_with_group,
}
use googletrends.Provider.Clash.Config.{
  Request, ClashController, Build, disabled, built, no_url, unreachable_urls,
}
use googletrends.Provider.Proxies.{ProxyPool}
use googletrends.Provider.Subscription.{Url, Library}
use googletrends.Provider.Subscription.Nodes.{is_line_break}

pub record ProxyCheckResult : Type 0 where
  pub ok : Bool
  pub checked_at : String
  pub proxy_url : String
  pub proxy_ip : String
  pub direct_ip : String
  pub elapsed_ms : Option ℕ
  pub error : String
  pub warning : String

abbrev pub host_of : Option String → String
host_of none = ""
host_of (some host) =
    if has_text ":" host && not (is_prefix "[" host) then append "[" (append host "]") else host

-- `if parsed.port:`
abbrev pub port_part : Option ℕ → String
port_part none = ""
port_part (some port) = if nat_eq port 0 then "" else append ":" (decimal port)

abbrev pub masked_with : Library → String → Url → Answer (Option ℕ) → Answer String
masked_with l username url (fault e) = fault e
masked_with l username url (answer port) = answer (
    l.urlunsplit url.scheme
      (append username (append ":***@" (append (host_of url.hostname) (port_part port)))) url.path
      url.query url.fragment)

abbrev pub masked_for : Library → String → Url → Option String → Answer String
masked_for l value url none = answer value
masked_for l value url (some username) =
    if is_blank username then answer value else masked_with l username url url.port

abbrev pub masked : Library → String → Answer Url → Answer String
masked l value (fault e) = answer value
masked l value (answer url) = masked_for l value url url.username

-- The text with the password hidden, or the ValueError of its port.
unfoldable pub mask_proxy_url : Library → String → Answer String
mask_proxy_url l value = masked l value (l.urlsplit value)

unfoldable pub summary_of : Library → List String → Answer String
unfolding mask_proxy_url
summary_of l [] = answer "-"
summary_of l (url ∷ []) = mask_proxy_url l url
summary_of l (url ∷ other ∷ rest) =
    answer (append "已配置 " (append (decimal (length (url ∷ other ∷ rest))) " 个代理"))

unfoldable pub summarize_proxy_urls : Library → String → Answer String
unfolding summary_of
summarize_proxy_urls l value = summary_of l (
    select (λ s. not (is_blank s))
      (map (λ s. strip s) (pieces is_line_break (replace_text "," "\n" value))))

-- What `requests.get` and `response.json()` give: an exception; a body that is no JSON; a mapping
-- with the text of its entry "ip", empty for none; or another value.
pub data IpReply : Type 0 where
  request_error : String → IpReply
  plain : String → IpReply
  ip_entry : String → IpReply
  other_value : IpReply

-- The address, and the error.
unfoldable pub fetch_ip : IpReply → String × String
fetch_ip (request_error e) = ("", e)
fetch_ip (plain text) = (strip text, "")
fetch_ip (ip_entry ip) = (strip ip, "")
fetch_ip other_value = ("", "")

abbrev pub or_dash : String → String
or_dash s = if is_blank s then "-" else s

abbrev pub not_checked : String → String → ProxyCheckResult
not_checked checked_at error = record {
  ok = false;
  checked_at = checked_at;
  proxy_url = "-";
  proxy_ip = "-";
  direct_ip = "-";
  elapsed_ms = none;
  error = error;
  warning = "";
}

abbrev pub same_address : String
same_address =
    append "代理请求成功，且请求已使用本次代理入口发起；代理出口 IP 和直连检测 IP 一致。"
      (append "如果 Docker、Clash Verge TUN 或系统代理已开启，直连检测也可能被同一代理接管，" "此时应以代理请求成功和 Clash 连接日志作为主要判断。")

abbrev pub warning_of : String × String → String × String → String
warning_of (direct_ip, direct_error) (proxy_ip, proxy_error) =
    if not (is_blank direct_error)
    then append "直连检测失败：" direct_error
    else if not (is_blank direct_ip) && not (is_blank proxy_ip) && direct_ip == proxy_ip
    then same_address
    else ""

abbrev pub checked :
    String → ℕ → String × String → String × String → Answer String → Answer ProxyCheckResult
checked checked_at elapsed_ms direct proxy (fault e) = fault e
checked checked_at elapsed_ms direct proxy (answer proxy_url) = answer (record {
  ok = is_blank proxy.1;
  checked_at = checked_at;
  proxy_url = proxy_url;
  proxy_ip = or_dash proxy.0;
  direct_ip = or_dash direct.0;
  elapsed_ms = some elapsed_ms;
  error = proxy.1;
  warning = warning_of direct proxy;
})

-- With what `next_proxy_url` of the pool gives, and the replies to the direct request and to the one
-- through the proxy. Without a pool the argument is none.
unfoldable pub run_proxy_check :
    Library
    → String
    → ℕ
    → Option (Answer (Option String))
    → IpReply
    → (String → IpReply)
    → Answer ProxyCheckResult
unfolding mask_proxy_url fetch_ip
run_proxy_check l checked_at elapsed_ms none direct through = answer (
    not_checked checked_at (
      append "当前没有可用代理池。请配置 GOOGLETRENDS_PROXY_URLS、GOOGLETRENDS_PROXY_SUBSCRIPTION_URL，"
        "或启用 Clash。"))
run_proxy_check l checked_at elapsed_ms (some (fault e)) direct through =
    answer (not_checked checked_at (append "读取代理失败：" e))
run_proxy_check l checked_at elapsed_ms (some (answer none)) direct through =
    answer (not_checked checked_at "代理池为空，当前不会通过代理访问 Google Trends。")
run_proxy_check l checked_at elapsed_ms (some (answer (some url))) direct through =
    if is_blank url
    then answer (not_checked checked_at "代理池为空，当前不会通过代理访问 Google Trends。")
    else checked checked_at elapsed_ms (fetch_ip direct) (fetch_ip (through url))
        (mask_proxy_url l url)
