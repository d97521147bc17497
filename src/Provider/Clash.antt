-- ===== src/Provider/Clash.antt =====
-- googletrends_app/clash.py, the rotation of the proxy group. The controller's HTTP interface is not
-- part of the repository: its answers are an argument.
pub mod Order
pub mod Config
use googletrends.Base.{
  ℕ, zero, suc, ◌+◌, String, Bool, true, false, not, ◌&&◌, ◌||◌, Option, none, some, List, [], ◌∷◌,
  ◌++◌, take, drop, select, any_of, contains, is_empty, is_prefix, has_text, ◌==◌, if◌then◌else◌,
}

-- A value, or the text of an exception.
pub data Answer (A : Type 0) : Type 0 where
  answer : A → Answer A
  fault : String → Answer A

-- An entry of the controller's proxies: no mapping, a mapping without a list, or a group with its
-- current proxy (empty for none) and its members.
pub data Group : Type 0 where
  no_mapping unselectable : Group
  group : String → List String → Group

-- Whether a delay test gives a delay, gives none, or fails.
pub data Probe : Type 0 where
  reachable unreachable : Probe
  probe_fault : String → Probe

-- The controller's answers during one rotation: its mode, its proxies, the test of a name at a
-- place of the order, and the selection.
pub record Controller : Type 0 where
  pub mode : Answer String
  pub proxies : Answer (String → Group)
  pub delay : ℕ → String → Probe
  pub put : String → String → Answer Unit

pub data ClashError : Type 0 where
  request_failed : String → ClashError
  group_not_found group_not_selectable : String → ClashError
  no_reachable_proxy : String → Option String → ClashError

pub data Rotation : Type 0 where
  -- the group and the proxy that was selected in it
  rotated : String → String → Rotation
  no_candidates : Rotation
  rotation_error : ClashError → Rotation

pub record Settings : Type 0 where
  pub proxy_group : String
  pub skip_proxy_names : List String
  pub allowed_proxy_name_keywords : List String

abbrev pub skip_proxy_prefixes : List String
skip_proxy_prefixes = "Traffic:" ∷ "Expire:" ∷ []

unfoldable pub is_allowed_proxy_name : Settings → String → Bool
is_allowed_proxy_name s name =
    if is_empty s.allowed_proxy_name_keywords
    then true
    else any_of (λ keyword. has_text keyword name) s.allowed_proxy_name_keywords

unfoldable pub is_skipped_proxy_name : Settings → String → Bool
unfolding is_allowed_proxy_name
is_skipped_proxy_name s name =
    if contains name s.skip_proxy_names || any_of (λ p. is_prefix p name) skip_proxy_prefixes
    then true
    else not (is_allowed_proxy_name s name)

unfoldable pub available_candidates : Settings → List String → List String
unfolding is_skipped_proxy_name
available_candidates s members = select (λ name. not (is_skipped_proxy_name s name)) members

-- `candidates.index(current) + 1`, and 0 where it raises ValueError
unfoldable pub start_index : String → List String → ℕ
start_index current [] = 0
start_index current (x ∷ xs) =
    if x == current then 1 else (if contains current xs then suc (start_index current xs) else 0)

unfoldable pub ordered_candidates : String → List String → List String
unfolding start_index
ordered_candidates current candidates =
    drop (start_index current candidates) candidates
    ++ take (start_index current candidates) candidates

abbrev pub effective_proxy_group_name : Settings → String → String
effective_proxy_group_name s mode = if mode == "global" then "GLOBAL" else s.proxy_group

abbrev pub selected_by : String → String → Answer Unit → Rotation
selected_by proxy_group name (answer _) = rotated proxy_group name
selected_by proxy_group name (fault e) = rotation_error (request_failed e)

-- The loop over the ordered candidates, with the last fault of a test.
unfoldable pub probe_candidates : Controller → String → ℕ → Option String → List String → Rotation
probe_candidates c proxy_group i last_error [] =
    rotation_error (no_reachable_proxy proxy_group last_error)
probe_candidates c proxy_group i last_error (name ∷ rest) = elim (c.delay i name) [
  | reachable ↦ selected_by proxy_group name (c.put proxy_group name)
  | unreachable ↦ probe_candidates c proxy_group (i + 1) last_error rest
  | probe_fault e ↦ probe_candidates c proxy_group (i + 1) (some e) rest
]

unfoldable pub rotate_group : Controller → Settings → String → Group → Rotation
unfolding available_candidates ordered_candidates probe_candidates
rotate_group c s proxy_group no_mapping = rotation_error (group_not_found proxy_group)
rotate_group c s proxy_group unselectable = rotation_error (group_not_selectable proxy_group)
rotate_group c s proxy_group (group current members) =
    let candidates = available_candidates s members in
    if is_empty candidates
    then no_candidates
    else probe_candidates c proxy_group 0 none (ordered_candidates current candidates)

abbrev pub rotate_in : Controller → Settings → String → Answer (String → Group) → Rotation
rotate_in c s proxy_group (answer proxies) = rotate_group c s proxy_group (proxies proxy_group)
rotate_in c s proxy_group (fault e) = rotation_error (request_failed e)

abbrev pub rotate_by_mode : Controller → Settings → Answer String → Rotation
rotate_by_mode c s (answer mode) = rotate_in c s (effective_proxy_group_name s mode) c.proxies
rotate_by_mode c s (fault e) = rotation_error (request_failed e)

unfoldable pub rotate_proxy_with_group : Controller → Settings → Rotation
unfolding rotate_group
rotate_proxy_with_group c s = rotate_by_mode c s c.mode
