-- ===== src/Browse.antt =====
-- The tools that show a schema: `formatSchemaResult` of src/output-formatter.ts and the
-- handlers of src/tools/get-schema.ts, list-tables.ts, search-schema.ts, get-indexes.ts,
-- test-connection.ts and list-connections.ts. Objects with snake_case keys are records with the same fields.
pub mod Requested
use omnibase.Prelude.{
  ℕ, Bool, true, false, not, ◌&&◌, Option, none, some, List, [], ◌∷◌, ◌++◌, map, keep, any, length,
  or_else, is_some, flat_map, if◌then◌else◌,
}
use omnibase.Text.{Text, codes, to_lower, same_name, trim, split_on, text_runs}
use omnibase.Collections.{has, collections_run}
use omnibase.Types.{
  ConnectionConfig, PermissionLevel, ConnectionStatus, ColumnInfo, IndexInfo, ForeignKeyInfo,
  TableInfo, SchemaInfo, OmnibaseConfig, Error, invalid_query, table_not_found,
}
use omnibase.Exec.{Result, ok, err, Exec, pure, throw, lift, catch, ◌>>=◌, ◌>>◌}
use omnibase.Exec.Pure.{reject_if}
use omnibase.Config.{values_of, get_connection, config_runs}
use omnibase.Formatter.{SearchResult, format_search_results, formatter_runs}
use omnibase.Session.{Backend, Session, Manager}
use omnibase.Manager.{get_schema, ping, get_status, get_driver, manager_runs}
use omnibase.ExecuteSql.Checks.{is_blank}

-- `row_count` or `row_count_estimate`
pub data RowCount : Type 0 where
  row_count row_count_estimate : ℕ → RowCount

pub record TableDetail : Type 0 where
  pub name : Text
  pub schema : Text
  pub columns : List ColumnInfo
  pub primary_key : List Text
  pub indexes : List IndexInfo
  pub foreign_keys : List ForeignKeyInfo
  pub rows : RowCount
  pub comment : Option Text

pub record TableSummary : Type 0 where
  pub name : Text
  pub schema : Text
  pub column_count : ℕ
  pub primary_key : List Text
  pub rows : RowCount

pub data SchemaView : Type 0 where
  details : List TableDetail → SchemaView
  summaries : List TableSummary → SchemaView

abbrev pub rows_of : TableInfo → RowCount
rows_of t =
    if t.exact_count
    then row_count t.row_count_estimate
    else row_count_estimate t.row_count_estimate

abbrev pub detail : TableInfo → TableDetail
detail t = record {
  name = t.name;
  schema = t.schema;
  columns = t.columns;
  primary_key = t.primary_key;
  indexes = t.indexes;
  foreign_keys = t.foreign_keys;
  rows = rows_of t;
  comment = t.comment;
}

abbrev pub summary : TableInfo → TableSummary
summary t = record {
  name = t.name;
  schema = t.schema;
  column_count = length t.columns;
  primary_key = t.primary_key;
  rows = rows_of t;
}

unfoldable pub format_schema_result : SchemaInfo → Bool → SchemaView
format_schema_result schema detailed =
    if detailed then details (map detail schema.tables) else summaries (map summary schema.tables)

abbrev pub lower_names : List TableInfo → List Text
lower_names tables = map (λ t. to_lower t.name) tables

-- `filtered`, for a list of names that is not empty
unfoldable pub filter_tables : List Text → SchemaInfo → SchemaInfo
filter_tables requested schema = record {
  tables = keep (λ t. has (to_lower t.name) (map to_lower requested)) schema.tables;
}

-- The requested names that a warning is given for.
unfoldable pub missing_tables : List Text → SchemaInfo → List Text
missing_tables requested filtered =
    keep (λ name. not (has (to_lower name) (lower_names filtered.tables))) requested

-- The answer of `handleGetSchema`, with the names that its warnings are about.
abbrev pub select_tables : Option (List Text) → SchemaInfo → SchemaView × List Text
select_tables none schema = (format_schema_result schema false, [])
select_tables (some []) schema = (format_schema_result schema false, [])
select_tables (some (t ∷ ts)) schema =
    let filtered = filter_tables (t ∷ ts) schema in
    (format_schema_result filtered true, missing_tables (t ∷ ts) filtered)

pub record IndexEntry : Type 0 where
  pub table : Text
  pub name : Text
  pub columns : List Text
  pub unique : Bool
  pub type : Text
  pub partial : Bool
  pub filter : Option Text

-- `idx.type || "unknown"`
abbrev or_unknown : Text → Text
or_unknown [] = codes "unknown"
or_unknown (c ∷ s) = c ∷ s

abbrev pub index_entry : TableInfo → IndexInfo → IndexEntry
index_entry t i = record {
  table = t.name;
  name = i.name;
  columns = i.columns;
  unique = i.unique;
  type = or_unknown i.type;
  partial = is_some i.filter;
  filter = i.filter;
}

-- An empty name asks for every table.
abbrev pub is_wanted : Option Text → TableInfo → Bool
is_wanted none t = true
is_wanted (some []) t = true
is_wanted (some (c ∷ s)) t = same_name t.name (c ∷ s)

-- A named table that the schema does not have.
abbrev pub lacks_table : Option Text → List TableInfo → Bool
lacks_table none tables = false
lacks_table (some []) tables = false
lacks_table (some (c ∷ s)) tables = not (any (λ t. same_name t.name (c ∷ s)) tables)

unfoldable pub index_entries : Option Text → List TableInfo → List IndexEntry
index_entries table tables =
    flat_map (λ t. map (index_entry t) t.indexes) (keep (is_wanted table) tables)

pub record ConnectionInfo : Type 0 where
  pub name : Text
  pub database_type : Text
  pub permission_level : PermissionLevel
  pub status : ConnectionStatus

abbrev scheme_of : List Text → Text
scheme_of [] = []
scheme_of (s ∷ ss) = s

abbrev driver_or : Text → Text → Text
driver_or [] dsn = scheme_of (split_on b':' dsn)
driver_or (c ∷ s) dsn = c ∷ s

unfoldable pub handle_list_connections : OmnibaseConfig → Manager → List ConnectionInfo
handle_list_connections config m =
    map
      (λ conn. record {
        name = conn.name;
        database_type = driver_or (get_driver m conn.name) conn.dsn;
        permission_level = conn.permission;
        status = get_status m conn.name;
      })
      (values_of config.connections)

-- The answer of `handleTestConnection`, without the latency: "ok", or the error.
pub record TestResult : Type 0 where
  pub connection : Text
  pub failure : Option Error

unfoldable pub handle_test_connection :
    {W : Type 0} → Backend W → OmnibaseConfig → Text → Exec (Session W) TestResult
handle_test_connection backend config connection = do
  conn ← lift (get_connection config connection)
  catch (do ping backend conn; pure (record { connection = conn.name; failure = none }))
      (λ e. pure (record { connection = conn.name; failure = some e }))

module _ {W : Type 0} (backend : Backend W) (on_schema_fetched : Text → SchemaInfo → W → W) where
  unfoldable pub handle_get_schema :
      OmnibaseConfig
      → Text
      → Option (List Text)
      → Option Bool
      → Exec (Session W) (SchemaView × List Text)
  handle_get_schema config connection tables force_refresh = do
    conn ← lift (get_connection config connection)
    schema ← get_schema backend on_schema_fetched conn (or_else force_refresh false) none
    pure (select_tables tables schema)

  unfoldable pub handle_list_tables :
      OmnibaseConfig → Text → Option Bool → Exec (Session W) (List (Text × Text × RowCount))
  handle_list_tables config connection exact_counts = do
    conn ← lift (get_connection config connection)
    schema ← get_schema backend on_schema_fetched conn false (some (or_else exact_counts true))
    pure (map (λ t. (t.name, t.schema, rows_of t)) schema.tables)

  unfoldable pub handle_search_schema :
      OmnibaseConfig → Text → Text → Exec (Session W) (List SearchResult)
  handle_search_schema config connection query = do
    conn ← lift (get_connection config connection)
    lift (reject_if (is_blank (trim query)) invalid_query)
    schema ← get_schema backend on_schema_fetched conn false none
    pure (format_search_results schema.tables query)

  unfoldable pub handle_get_indexes :
      OmnibaseConfig → Text → Option Text → Exec (Session W) (List IndexEntry)
  handle_get_indexes config connection table = do
    conn ← lift (get_connection config connection)
    schema ← get_schema backend on_schema_fetched conn false none
    lift (reject_if (lacks_table table schema.tables) (table_not_found (or_else table [])))
    pure (index_entries table schema.tables)

-- Opens what this file defines, to evaluate it on concrete inputs.
unfoldable pub browse_runs : Unit {0}
unfolding format_schema_result filter_tables missing_tables index_entries handle_list_connections
    handle_get_schema handle_list_tables handle_search_schema handle_get_indexes
    handle_test_connection config_runs formatter_runs manager_runs
browse_runs = tt
