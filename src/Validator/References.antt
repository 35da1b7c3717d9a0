-- ===== src/Validator/References.antt =====
-- src/tools/validate-query.ts: the tables and columns of a statement against the schema.
use omnibase.Prelude.{
  Bool, true, false, not, ◌&&◌, ◌||◌, Option, none, some, List, [], ◌∷◌, ◌++◌, map, keep, flat_map,
  or_else, is_some,
}
use omnibase.Text.{Text, to_lower}
use omnibase.Values.{Value}
use omnibase.Collections.{Map, lookup, insert, has}
use omnibase.Types.{TableInfo, SchemaInfo}
use omnibase.Exec.{Result, ok}
use omnibase.Exec.Pure.{◌>>=◌}
use omnibase.Validator.Tree.{
  ColumnRef, extract_table_refs, extract_alias_map, extract_cte_names, extract_column_refs,
  extract_insert_columns, extract_insert_table, tree_runs,
}

-- The warnings, without their wording.
pub data Warning : Type 0 where
  missing_table : Text → Warning
  -- a column, and the table that does not have it
  missing_column : Text → Text → Warning
  -- the same with the qualifier that the statement gives
  missing_qualified_column : Option Text → Text → Text → Warning
  affects_all_rows : Warning

-- What the five extractions give.
pub record References : Type 0 where
  pub tables : List Text
  pub aliases : Map Text
  pub ctes : List Text
  pub columns : List ColumnRef
  pub insert_columns : List Text
  pub insert_table : Option Text

unfoldable pub references_of : Value → Result References
references_of ast = do
  columns ← extract_insert_columns ast
  ok (record {
    tables = extract_table_refs ast;
    aliases = extract_alias_map ast;
    ctes = extract_cte_names ast;
    columns = extract_column_refs ast;
    insert_columns = columns;
    insert_table = extract_insert_table ast;
  })

unfoldable pub known_tables : List TableInfo → Map (List Text) → Map (List Text)
known_tables [] known = known
known_tables (t ∷ tables) known =
    known_tables tables (insert (to_lower t.name) (map (λ c. to_lower c.name) t.columns) known)

abbrev is_known : Map (List Text) → Text → Bool
is_known known table = is_some (lookup (to_lower table) known)

-- A table that the statement neither defines itself nor finds in the schema.
unfoldable pub is_missing : Map (List Text) → List Text → Text → Bool
is_missing known ctes table = not (has (to_lower table) ctes) && not (is_known known table)

unfoldable pub table_warnings : Map (List Text) → References → List Warning
table_warnings known refs = map missing_table (keep (is_missing known refs.ctes) refs.tables)

-- Where the columns are known, and the column is none of them.
abbrev lacks_column : Option (List Text) → Text → Bool
lacks_column none column = false
lacks_column (some columns) column = not (has (to_lower column) columns)

abbrev columns_of : Map (List Text) → Text → Option (List Text)
columns_of known table = lookup (to_lower table) known

-- An empty table name is none.
abbrev insert_warnings : Map (List Text) → Option Text → List Text → List Warning
insert_warnings known none columns = []
insert_warnings known (some []) columns = []
insert_warnings known (some (c ∷ s)) columns =
    map (λ column. missing_column column (c ∷ s))
      (keep (λ column. lacks_column (columns_of known (c ∷ s)) column) columns)

-- `tableRefs.filter(…)`
unfoldable pub resolved_tables : Map (List Text) → References → List Text
resolved_tables known refs = keep (λ t. is_known known t || has (to_lower t) refs.ctes) refs.tables

abbrev warn_if : Bool → Warning → List Warning
warn_if true warning = warning ∷ []
warn_if false warning = []

abbrev warn_on : Map (List Text) → References → ColumnRef → Text → List Warning
warn_on known refs ref table =
    warn_if
      (not (has (to_lower table) refs.ctes) && lacks_column (columns_of known table) ref.column)
      (missing_qualified_column ref.table ref.column table)

-- A column without a qualifier is looked up where one table alone is resolved.
abbrev warn_alone : Map (List Text) → References → ColumnRef → List Text → List Warning
warn_alone known refs ref (table ∷ []) =
    warn_if
      (not (has (to_lower table) refs.ctes) && lacks_column (columns_of known table) ref.column)
      (missing_column ref.column table)
warn_alone known refs ref _ = []

-- The table that a qualifier stands for; an alias of the empty name stands for none.
abbrev qualified : Map (List Text) → References → ColumnRef → Text → List Warning
qualified known refs ref [] = warn_alone known refs ref (resolved_tables known refs)
qualified known refs ref (c ∷ s) = warn_on known refs ref (c ∷ s)

unfoldable pub column_warnings : Map (List Text) → References → ColumnRef → List Warning
column_warnings known refs ref = elim ref.table [
  | none ↦ warn_alone known refs ref (resolved_tables known refs)
  | some table ↦ elim table [
    | [] ↦ warn_alone known refs ref (resolved_tables known refs)
    | c ∷ s ↦ qualified known refs ref (or_else (lookup (to_lower (c ∷ s)) refs.aliases) (c ∷ s))
  ]
]

unfoldable pub reference_warnings : SchemaInfo → References → List Warning
reference_warnings schema refs =
    let known = known_tables schema.tables [] in
    table_warnings known refs
    ++ (insert_warnings known refs.insert_table refs.insert_columns
        ++ flat_map (column_warnings known refs) refs.columns)

-- Opens what this file defines, to evaluate it on concrete inputs.
unfoldable pub references_run : Unit {0}
unfolding references_of known_tables is_missing table_warnings resolved_tables column_warnings
    reference_warnings tree_runs
references_run = tt
