-- ===== src/Settings.antt =====
-- googletrends_app/settings.py: the settings that the environment gives. Python's `int` and `float`
-- of a text, and the paths of the system, are arguments.
use googletrends.Base.{
  String, Bool, false, not, ◌||◌, Option, none, some, is_blank, nocase_eq, strip, ◌==◌,
  if◌then◌else◌,
}
use googletrends.Provider.Clash.{Answer, answer, fault}

pub record Settings (Z R : Type 0) : Type 0 where
  pub db_path : String
  pub scheduler_enabled : Bool
  pub feishu_webhook_url : Option String
  pub public_base_url : String
  pub request_delay_seconds : R
  pub request_profiles_enabled : Bool
  pub retry_delay_seconds : Z
  pub max_attempts : Z
  pub p1_alert_cooldown_hours : Z
  pub p2_alert_cooldown_hours : Z
  pub proxy_urls : Option String
  pub proxy_subscription_url : Option String
  pub proxy_refresh_seconds : Z
  pub proxy_auto_detect_local_clash : Bool
  pub clash_enabled : Bool
  pub clash_proxy_url : String
  pub clash_controller_url : Option String
  pub clash_secret : Option String
  pub clash_proxy_group : String
  pub clash_config_path : String
  pub clash_skip_proxy_names : Option String
  pub clash_allowed_proxy_name_keywords : Option String
  pub clash_rotate_on_429 : Bool
  pub clash_rotate_on_error : Bool
  pub clash_retry_after_rotate : Bool

pub record Environment (Z R : Type 0) : Type 0 where
  pub getenv : String → Option String
  pub int_of : String → Answer Z
  pub float_of : String → Answer R
  -- `str(Path.cwd() / "data" / "googletrends.sqlite3")` and the path of Clash's configuration
  pub default_db_path : String
  pub default_clash_config_path : String
  pub expanduser : String → String

-- `os.getenv(name, default)` and `os.getenv(name) or None` of what is found
abbrev pub or_text : Option String → String → String
or_text none default_text = default_text
or_text (some s) default_text = s

abbrev pub or_none : Option String → Option String
or_none none = none
or_none (some s) = if is_blank s then none else some s

-- `text.strip().lower() in {"1", "true", "yes", "on"}`; no other character folds to a letter of these.
abbrev pub is_true_text : String → Bool
is_true_text s =
    let t = strip s in
    nocase_eq t "1" || nocase_eq t "true" || nocase_eq t "yes" || nocase_eq t "on"

abbrev pub and_then : {A B : Type 0} → Answer A → (A → Answer B) → Answer B
and_then (answer a) f = f a
and_then (fault e) f = fault e

abbrev pub is_given : Option String → Bool
is_given none = false
is_given (some s) = not (is_blank s)

-- `clash_enabled`, from the variable of that name and the controller's URL
abbrev pub enabled_by : Option String → Option String → Bool
enabled_by none controller_url = is_given controller_url
enabled_by (some s) controller_url = is_true_text s

module _ {Z R : Type 0} (env : Environment Z R) where
  unfoldable pub getenv_bool : String → String → Bool
  getenv_bool name default_text = is_true_text (or_text (env.getenv name) default_text)

  abbrev pub getenv_int : String → String → Answer Z
  getenv_int name default_text = env.int_of (or_text (env.getenv name) default_text)

  -- The settings, or the ValueError of a number.
  unfoldable pub load_settings : Answer (Settings Z R)
  unfolding getenv_bool
  load_settings =
      and_then (env.float_of (or_text (env.getenv "GOOGLETRENDS_REQUEST_DELAY_SECONDS") "2"))
        (λ request_delay_seconds.
          and_then (getenv_int "GOOGLETRENDS_RETRY_DELAY_SECONDS" "5") (λ retry_delay_seconds.
            and_then (getenv_int "GOOGLETRENDS_MAX_ATTEMPTS" "5") (λ max_attempts.
              and_then (getenv_int "GOOGLETRENDS_P1_ALERT_COOLDOWN_HOURS" "6")
                (λ p1_alert_cooldown_hours.
                  and_then (getenv_int "GOOGLETRENDS_P2_ALERT_COOLDOWN_HOURS" "24")
                    (λ p2_alert_cooldown_hours.
                      and_then (getenv_int "GOOGLETRENDS_PROXY_REFRESH_SECONDS" "3600")
                        (λ proxy_refresh_seconds.
                          let controller_url =
                            or_none (env.getenv "GOOGLETRENDS_CLASH_CONTROLLER_URL") in
                          answer (record {
                            db_path =
                                or_text (env.getenv "GOOGLETRENDS_DB_PATH") env.default_db_path;
                            scheduler_enabled =
                                not (or_text (env.getenv "GOOGLETRENDS_SCHEDULER") "1" == "0");
                            feishu_webhook_url = or_none (env.getenv "FEISHU_WEBHOOK_URL");
                            public_base_url =
                                or_text (env.getenv "GOOGLETRENDS_PUBLIC_BASE_URL")
                                  "http://127.0.0.1:8000";
                            request_delay_seconds = request_delay_seconds;
                            request_profiles_enabled =
                                getenv_bool "GOOGLETRENDS_REQUEST_PROFILES_ENABLED" "1";
                            retry_delay_seconds = retry_delay_seconds;
                            max_attempts = max_attempts;
                            p1_alert_cooldown_hours = p1_alert_cooldown_hours;
                            p2_alert_cooldown_hours = p2_alert_cooldown_hours;
                            proxy_urls = or_none (env.getenv "GOOGLETRENDS_PROXY_URLS");
                            proxy_subscription_url =
                                or_none (env.getenv "GOOGLETRENDS_PROXY_SUBSCRIPTION_URL");
                            proxy_refresh_seconds = proxy_refresh_seconds;
                            proxy_auto_detect_local_clash =
                                getenv_bool "GOOGLETRENDS_PROXY_AUTO_DETECT_LOCAL_CLASH" "1";
                            clash_enabled =
                                enabled_by (env.getenv "GOOGLETRENDS_CLASH_ENABLED") controller_url;
                            clash_proxy_url =
                                or_text (env.getenv "GOOGLETRENDS_CLASH_PROXY_URL")
                                  "http://127.0.0.1:7897";
                            clash_controller_url = controller_url;
                            clash_secret = or_none (env.getenv "GOOGLETRENDS_CLASH_SECRET");
                            clash_proxy_group =
                                or_text (env.getenv "GOOGLETRENDS_CLASH_PROXY_GROUP") "Google";
                            clash_config_path = env.expanduser (
                                or_text (env.getenv "GOOGLETRENDS_CLASH_CONFIG_PATH")
                                  env.default_clash_config_path);
                            clash_skip_proxy_names =
                                or_none (env.getenv "GOOGLETRENDS_CLASH_SKIP_PROXY_NAMES");
                            clash_allowed_proxy_name_keywords =
                                or_none
                                  (env.getenv "GOOGLETRENDS_CLASH_ALLOWED_PROXY_NAME_KEYWORDS");
                            clash_rotate_on_429 =
                                getenv_bool "GOOGLETRENDS_CLASH_ROTATE_ON_429" "1";
                            clash_rotate_on_error =
                                getenv_bool "GOOGLETRENDS_CLASH_ROTATE_ON_ERROR" "1";
                            clash_retry_after_rotate =
                                getenv_bool "GOOGLETRENDS_CLASH_RETRY_AFTER_ROTATE" "1";
                          })))))))
