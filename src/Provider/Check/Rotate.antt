-- ===== src/Provider/Check/Rotate.antt =====
-- googletrends_app/proxy_check.py, the rotation of the Clash proxy on request. The text of Clash's
-- errors and the controllers' answers are arguments.
use googletrends.Base.{
  String, Bool, true, false, ◌||◌, Option, none, some, is_blank, append, if◌then◌else◌,
}
use googletrends.Settings.{Settings}
use googletrends.Provider.Clash.{
  Answer, answer, fault, Controller, ClashError, Rotation, rotated, no_candidates, rotation_error,
  effective_proxy_group_name, rotate_proxy_with_group,
}
use googletrends.Provider.Clash.Config.{
  Request, ClashController, Build, disabled, built, no_url, unreachable_urls,
}

pub record ClashRotateResult : Type 0 where
  pub ok : Bool
  pub checked_at : String
  pub controller_url : String
  pub proxy_group : String
  pub selected_proxy : String
  pub error : String

abbrev pub resolved_build : Build → Option ClashController × String
resolved_build disabled = (none, "")
resolved_build (built controller) = (some controller, "")
resolved_build no_url =
    (none, "Clash controller is enabled, but no controller URL was configured or found.")
resolved_build unreachable_urls = (
  none,
  append "Clash controller is enabled, but no reachable controller was found. "
      "Set GOOGLETRENDS_CLASH_CONTROLLER_URL to the current Clash API address.",
)

abbrev pub group_by_mode : ClashController → Answer String → String
group_by_mode c (answer mode) = effective_proxy_group_name c.settings mode
group_by_mode c (fault e) = c.settings.proxy_group

-- `safe_effective_proxy_group`
unfoldable pub safe_effective_proxy_group : ClashController → Controller → String
safe_effective_proxy_group c live = group_by_mode c live.mode

abbrev pub rotate_result :
    String → (ClashError → String) → ClashController → Controller → Rotation → ClashRotateResult
rotate_result checked_at error_text c live (rotated proxy_group name) = record {
  ok = true;
  checked_at = checked_at;
  controller_url = c.controller_url;
  proxy_group = proxy_group;
  selected_proxy = name;
  error = "";
}
rotate_result checked_at error_text c live no_candidates = record {
  ok = false;
  checked_at = checked_at;
  controller_url = c.controller_url;
  proxy_group = safe_effective_proxy_group c live;
  selected_proxy = "-";
  error = "代理组没有可切换的候选节点。";
}
rotate_result checked_at error_text c live (rotation_error e) = record {
  ok = false;
  checked_at = checked_at;
  controller_url = c.controller_url;
  proxy_group = safe_effective_proxy_group c live;
  selected_proxy = "-";
  error = error_text e;
}

abbrev pub url_or : Option String → String
url_or none = "自动发现/未配置"
url_or (some url) = if is_blank url then "自动发现/未配置" else url

module _ {Z R : Type 0} where
  abbrev pub request_of : Settings Z R → Request
  request_of s = record {
    enabled = true;
    controller_url = s.clash_controller_url;
    secret = s.clash_secret;
    proxy_group = some s.clash_proxy_group;
    config_path = true;
    skip_proxy_names = s.clash_skip_proxy_names;
    allowed_proxy_name_keywords = s.clash_allowed_proxy_name_keywords;
    probe = true;
  }

  -- `build` is `build_clash_controller` on the settings' request.
  unfoldable pub resolve_clash_controller :
      Settings Z R → (Request → Build) → Option ClashController → Option ClashController × String
  resolve_clash_controller s build (some controller) = (some controller, "")
  resolve_clash_controller s build none =
      if s.clash_enabled || s.proxy_auto_detect_local_clash
      then resolved_build (build (request_of s))
      else (none, "Clash controller 未启用。")

  abbrev pub rotate_resolved :
      Settings Z R
      → String
      → (ClashError → String)
      → (ClashController → Controller)
      → Option ClashController × String
      → ClashRotateResult
  rotate_resolved s checked_at error_text live (none, error) = record {
    ok = false;
    checked_at = checked_at;
    controller_url = url_or s.clash_controller_url;
    proxy_group = s.clash_proxy_group;
    selected_proxy = "-";
    error = if is_blank error then "Clash controller 不可用，无法切换代理组。" else error;
  }
  rotate_resolved s checked_at error_text live (some c, error) =
      rotate_result checked_at error_text c (live c) (rotate_proxy_with_group (live c) c.settings)

  unfoldable pub rotate_clash_proxy :
      Settings Z R
      → String
      → (ClashError → String)
      → (Request → Build)
      → (ClashController → Controller)
      → Option ClashController
      → ClashRotateResult
  unfolding resolve_clash_controller safe_effective_proxy_group
  rotate_clash_proxy s checked_at error_text build live controller =
      rotate_resolved s checked_at error_text live (resolve_clash_controller s build controller)
