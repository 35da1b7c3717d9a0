-- ===== src/Validator/Tree.antt =====
-- src/tools/validate-query.ts: what is read from the parser's syntax tree. The fields of an object
-- come in the order of `Object.values`.
use omnibase.Prelude.{Bool, false, Option, none, some, List, [], ◌∷◌, ◌++◌, flat_map, if◌then◌else◌}
use omnibase.Text.{Text, codes, text_eq, to_lower, text_runs}
use omnibase.Values.{
  Value, undefined, null, bool, num, str, arr, obj, Items, nil, item, Fields, end, field, items,
  get_field, values_run,
}
use omnibase.Collections.{Map, insert, unique, collections_run}
use omnibase.Types.{type_error}
use omnibase.Exec.{Result, ok, err}
use omnibase.Exec.Pure.{◌>>=◌}

-- The nodes that `walkAst` visits, in its order.
unfoldable mutual
  pub nodes : Value → List Value
  nodes undefined = []
  nodes null = []
  nodes (bool b) = bool b ∷ []
  nodes (num n) = num n ∷ []
  nodes (str s) = str s ∷ []
  nodes (arr vs) = arr vs ∷ item_nodes vs
  nodes (obj fs) = obj fs ∷ field_nodes fs

  pub item_nodes : Items → List Value
  item_nodes nil = []
  item_nodes (item v vs) = nodes v ++ item_nodes vs

  pub field_nodes : Fields → List Value
  field_nodes end = []
  field_nodes (field k v fs) = nodes v ++ field_nodes fs

-- `v[key]` of what is neither `null` nor `undefined`; only an object has fields here.
abbrev pub member : Text → Value → Value
member key (obj fs) = get_field key fs
member key (arr vs) = undefined
member key (str s) = undefined
member key (num n) = undefined
member key (bool b) = undefined
member key null = undefined
member key undefined = undefined

-- The text of a value, where it is one.
abbrev pub text_of : Value → Option Text
text_of (str s) = some s
text_of _ = none

-- The elements of a value, where it is an array.
abbrev pub elements : Value → List Value
elements (arr vs) = items vs
elements _ = []

-- `v === text`
abbrev pub equals : Text → Value → Bool
equals text (str s) = text_eq s text
equals text _ = false

abbrev one : Option Text → List Text
one none = []
one (some s) = s ∷ []

-- The text, where it is not empty.
abbrev filled : Option Text → List Text
filled none = []
filled (some []) = []
filled (some (c ∷ s)) = (c ∷ s) ∷ []

abbrev from_items : Value → List Value
from_items node = elements (member (codes "from") node)

abbrev own_table : Value → List Text
own_table node =
    if equals (codes "column_ref") (member (codes "type") node)
    then []
    else filled (text_of (member (codes "table") node))

-- The tables that one node names.
unfoldable pub node_tables : Value → List Text
node_tables node =
    own_table node ++ flat_map (λ it. one (text_of (member (codes "table") it))) (from_items node)

unfoldable pub extract_table_refs : Value → List Text
extract_table_refs ast = unique (flat_map node_tables (nodes ast))

-- `Array.isArray(ast) ? ast : [ast]`
abbrev pub statements : Value → List Value
statements (arr vs) = items vs
statements v = v ∷ []

abbrev pub first_statement : List Value → Value
first_statement [] = undefined
first_statement (v ∷ vs) = v

-- The name of one `WITH` clause: a text, or an object that holds one.
abbrev cte_name : Value → List Text
cte_name (str s) = to_lower s ∷ []
cte_name (obj fs) = elim (text_of (get_field (codes "value") fs)) [
  | none ↦ []
  | some s ↦ to_lower s ∷ []
]
cte_name _ = []

unfoldable pub extract_cte_names : Value → List Text
extract_cte_names ast = unique (
    flat_map
      (λ stmt.
        flat_map (λ cte. cte_name (member (codes "name") cte))
          (elements (member (codes "with") stmt)))
      (statements ast))

-- `typeof c.value === "string" ? c.value : typeof c === "string" ? c : null`
abbrev insert_column : Value → Result (List Text)
insert_column null = err type_error
insert_column undefined = err type_error
insert_column (str s) = ok (s ∷ [])
insert_column v = ok (one (text_of (member (codes "value") v)))

unfoldable pub insert_columns : List Value → Result (List Text)
insert_columns [] = ok []
insert_columns (v ∷ vs) = do first ← insert_column v; rest ← insert_columns vs; ok (first ++ rest)

abbrev is_insert : Value → Bool
is_insert stmt = equals (codes "insert") (member (codes "type") stmt)

unfoldable pub extract_insert_columns : Value → Result (List Text)
extract_insert_columns ast =
    let stmt = first_statement (statements ast) in
    let columns = insert_columns (elements (member (codes "columns") stmt)) in
    if is_insert stmt then columns else ok []

unfoldable pub extract_insert_table : Value → Option Text
extract_insert_table ast =
    let stmt = first_statement (statements ast) in
    let first = first_statement (elements (member (codes "table") stmt)) in
    if is_insert stmt then text_of (member (codes "table") first) else none

abbrev set_alias : Option Text → Option Text → Map Text → Map Text
set_alias (some table) (some alias) aliases = insert (to_lower alias) table aliases
set_alias _ _ aliases = aliases

unfoldable pub set_aliases : List Value → Map Text → Map Text
set_aliases [] aliases = aliases
set_aliases (it ∷ its) aliases =
    set_aliases its
      (set_alias (text_of (member (codes "table") it)) (text_of (member (codes "as") it)) aliases)

unfoldable pub extract_alias_map : Value → Map Text
extract_alias_map ast = set_aliases (flat_map from_items (nodes ast)) []

pub record ColumnRef : Type 0 where
  pub table : Option Text
  pub column : Text

-- `{expr: {value: "name"}}`
abbrev column_name : Value → Option Text
column_name (str s) = some s
column_name v = text_of (member (codes "value") (member (codes "expr") v))

abbrev named_column : Option Text → Option Text → List ColumnRef
named_column table none = []
named_column table (some []) = []
named_column table (some (c ∷ s)) =
    if text_eq (c ∷ s) (codes "*") then [] else record { table = table; column = c ∷ s } ∷ []

unfoldable pub column_ref : Value → List ColumnRef
column_ref node =
    if equals (codes "column_ref") (member (codes "type") node)
    then named_column (text_of (member (codes "table") node))
        (column_name (member (codes "column") node))
    else []

unfoldable pub extract_column_refs : Value → List ColumnRef
extract_column_refs ast = flat_map column_ref (nodes ast)

-- Opens what this file defines, to evaluate it on concrete inputs.
unfoldable pub tree_runs : Unit {0}
unfolding nodes item_nodes field_nodes node_tables extract_table_refs extract_cte_names
    insert_columns extract_insert_columns extract_insert_table set_aliases extract_alias_map
    column_ref extract_column_refs values_run collections_run text_runs
tree_runs = tt
