-- ===== src/Relationships.antt =====
-- src/tools/get-relationships.ts: the foreign keys of a schema, and the graph they make.
pub mod Graph
use omnibase.Prelude.{
  ℕ, Bool, true, false, ◌||◌, Option, none, some, List, [], ◌∷◌, ◌++◌, map, keep, flat_map, or_else,
  if◌then◌else◌,
}
use omnibase.Text.{Text, codes, text_eq, same_name, text_runs}
use omnibase.Collections.{Map, lookup, insert, has, add, collections_run}
use omnibase.Types.{ForeignKeyInfo, TableInfo, SchemaInfo, OmnibaseConfig, table_not_found}
use omnibase.Exec.{Result, ok, err, Exec, pure, lift, ◌>>=◌, ◌>>◌}
use omnibase.Exec.Pure.{reject_if}
use omnibase.Config.{values_of, get_connection, config_runs}
use omnibase.Session.{Backend, Session}
use omnibase.Manager.{get_schema, manager_runs}
use omnibase.Browse.{lacks_table}

pub record Relationship : Type 0 where
  pub from_table : Text
  pub from_column : Text
  pub to_table : Text
  pub to_column : Text

pub record TableNode : Type 0 where
  pub name : Text
  pub references : List Text
  pub referenced_by : List Text

abbrev relationship : TableInfo → ForeignKeyInfo → Relationship
relationship table fk = record {
  from_table = table.name;
  from_column = fk.column;
  to_table = fk.references_table;
  to_column = fk.references_column;
}

unfoldable pub relationships : List TableInfo → List Relationship
relationships tables = flat_map (λ t. map (relationship t) t.foreign_keys) tables

-- An empty name asks for every table.
unfoldable pub involving : Option Text → List Relationship → List Relationship
involving none rels = rels
involving (some []) rels = rels
involving (some (c ∷ s)) rels =
    keep (λ r. same_name r.from_table (c ∷ s) || same_name r.to_table (c ∷ s)) rels

abbrev new_node : Text → TableNode
new_node name = record { name = name; references = []; referenced_by = [] }

-- `nodeMap.get(name)!` once `getNode` has put it there.
unfoldable pub node_of : Text → Map TableNode → TableNode
node_of name nodes = or_else (lookup name nodes) (new_node name)

-- `getNode`, whose node the callers change in place: the change is a set of its key.
unfoldable pub get_node : Text → Map TableNode → Map TableNode
get_node name nodes = insert name (node_of name nodes) nodes

abbrev pub label : Relationship → Text
label r = r.from_column ++ (codes " -> " ++ (r.to_table ++ (codes "." ++ r.to_column)))

abbrev pub reverse_label : Relationship → Text
reverse_label r = r.from_table ++ (codes "." ++ (r.from_column ++ (codes " -> " ++ r.to_column)))

unfoldable pub add_reference : Text → Text → Map TableNode → Map TableNode
add_reference name text nodes =
    let node = node_of name nodes in
    insert name (record node { references = add text node.references }) nodes

unfoldable pub add_referenced_by : Text → Text → Map TableNode → Map TableNode
add_referenced_by name text nodes =
    let node = node_of name nodes in
    insert name (record node { referenced_by = add text node.referenced_by }) nodes

-- One relationship: both nodes are made first, and the two may be one.
unfoldable pub add_relationship : Map TableNode → Relationship → Map TableNode
add_relationship nodes rel = add_referenced_by rel.to_table (reverse_label rel) (
    add_reference rel.from_table (label rel)
      (get_node rel.to_table (get_node rel.from_table nodes)))

unfoldable pub build_graph : Map TableNode → List Relationship → Map TableNode
build_graph nodes [] = nodes
build_graph nodes (rel ∷ rels) = build_graph (add_relationship nodes rel) rels

module _ {W : Type 0} (backend : Backend W) (on_schema_fetched : Text → SchemaInfo → W → W) where
  unfoldable pub handle_get_relationships :
      OmnibaseConfig → Text → Option Text → Exec (Session W) (List Relationship × List TableNode)
  handle_get_relationships config connection table = do
    conn ← lift (get_connection config connection)
    schema ← get_schema backend on_schema_fetched conn false none
    lift (reject_if (lacks_table table schema.tables) (table_not_found (or_else table [])))
    pure (
        let filtered = involving table (relationships schema.tables) in
        (filtered, values_of (build_graph [] filtered)))

-- Opens what this file defines, to evaluate it on concrete inputs.
unfoldable pub relationships_run : Unit {0}
unfolding relationships involving node_of get_node add_reference add_referenced_by add_relationship
    build_graph handle_get_relationships config_runs manager_runs
relationships_run = tt
