-- ===== src/Provider/Subscription/Nodes.antt =====
-- googletrends_app/proxy_pool.py, the nodes of a Clash subscription: those that the YAML library
-- reads, or those of the line by line fallback.
use googletrends.Base.{
  ℕ, nat_eq, leb, String, Bool, not, ◌&&◌, ◌||◌, Option, none, some, List, [], ◌∷◌, ◌++◌, is_blank,
  is_prefix, is_suffix, has_text, strip, pieces, split_once, drop_text, ◌==◌, if◌then◌else◌,
}
use googletrends.Provider.Subscription.{
  Scalar, scalar, Node, Document, unread, mapping, sequence, other, Library, strip_quotes,
}

-- `node.get(key)`
abbrev pub entry : String → Node → Option Scalar
entry key [] = none
entry key ((k, v) ∷ rest) = if k == key then some v else entry key rest

-- `node[key] = value`
abbrev pub set_entry : String → Scalar → Node → Node
set_entry key value [] = (key, value) ∷ []
set_entry key value ((k, v) ∷ rest) =
    if k == key then (k, value) ∷ rest else (k, v) ∷ set_entry key value rest

-- `value.split(" #", 1)[0].strip()` where there is a comment, and no quotes around.
unfoldable pub clean_yaml_scalar : String → String
clean_yaml_scalar value =
    let text = strip value in
    strip_quotes (if has_text " #" text then strip (split_once " #" text).0 else text)

abbrev pub text_scalar : String → Scalar
text_scalar s = scalar (not (is_blank s)) s

-- `key, value = text.split(":", 1)` and the assignment.
unfoldable pub set_from : String → Node → Node
unfolding clean_yaml_scalar
set_from text node =
    let (key, value) = split_once ":" text in
    set_entry (strip key) (text_scalar (clean_yaml_scalar value)) node

abbrev pub drop_last : String → String
drop_last String.[] = String.[]
drop_last (String.◌∷◌ c s) = if is_blank s then String.[] else String.◌∷◌ c (drop_last s)

abbrev pub set_fields : List String → Node → Node
set_fields [] node = node
set_fields (item ∷ rest) node =
    set_fields rest (if has_text ":" item then set_from item node else node)

unfoldable pub parse_inline_mapping : Library → String → Node
parse_inline_mapping l value =
    let inner = strip value in
    set_fields
      (l.csv_fields (
        if is_prefix "{" inner && is_suffix "}" inner
        then drop_last (drop_text 1 inner)
        else inner))
      []

-- The nodes that are finished, and the current one, which may be empty.
pub record Reading : Type 0 where
  pub nodes : List Node
  pub current : Option Node

abbrev pub with_current : List Node → Option Node → List Node
with_current nodes none = nodes
with_current nodes (some []) = nodes
with_current nodes (some (e ∷ es)) = nodes ++ (e ∷ es) ∷ []

abbrev pub finish_current : Reading → Reading
finish_current r = record { nodes = with_current r.nodes r.current; current = none }

unfoldable pub continued : String → Option Node → Option Node
unfolding set_from
continued line none = none
continued line (some node) = some (if has_text ":" line then set_from line node else node)

-- One line, without the space around it.
unfoldable pub read_line : Library → String → Reading → Reading
unfolding parse_inline_mapping
read_line l line r =
    if is_blank line || is_prefix "#" line
    then r
    else if is_prefix "- {" line && is_suffix "}" line
    then (let done = finish_current r in
        record {
          nodes = done.nodes ++ parse_inline_mapping l (strip (drop_text 2 line)) ∷ [];
          current = done.current;
        })
    else if is_prefix "- " line
    then (let done = finish_current r in
        let remainder = strip (drop_text 2 line) in
        record {
          nodes = done.nodes;
          current = some (if has_text ":" remainder then set_from remainder [] else []);
        })
    else record r { current = continued line r.current }

unfoldable pub read_lines : Library → List String → Reading → List Node
unfolding read_line
read_lines l [] r = (finish_current r).nodes
read_lines l (line ∷ rest) r = read_lines l rest (read_line l (strip line) r)

-- The characters at which `splitlines` cuts; the empty line inside CR LF is passed over.
abbrev pub is_line_break : ℕ → Bool
is_line_break c =
    (leb 10 c && leb c 13)
    || (leb 28 c && leb c 30)
    || nat_eq c 0x85
    || nat_eq c 0x2028
    || nat_eq c 0x2029

unfoldable pub parse_clash_nodes_fallback : Library → String → List Node
unfolding read_lines
parse_clash_nodes_fallback l text =
    read_lines l (pieces is_line_break text) (record { nodes = []; current = none })

-- `[node for node in nodes if isinstance(node, dict)]`
abbrev pub mappings_in : List (Option Node) → List Node
mappings_in [] = []
mappings_in (none ∷ rest) = mappings_in rest
mappings_in (some node ∷ rest) = node ∷ mappings_in rest

unfoldable pub nodes_of : Library → String → Document → List Node
unfolding parse_clash_nodes_fallback
nodes_of l text unread = parse_clash_nodes_fallback l text
nodes_of l text (mapping none) = parse_clash_nodes_fallback l text
nodes_of l text (mapping (some nodes)) = mappings_in nodes
nodes_of l text (sequence nodes) = mappings_in nodes
nodes_of l text other = parse_clash_nodes_fallback l text

unfoldable pub load_clash_nodes : Library → String → List Node
unfolding nodes_of
load_clash_nodes l text = nodes_of l text (l.safe_load text)
