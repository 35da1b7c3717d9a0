-- ===== src/Sidecar/Answers.antt =====
-- src/sidecar-client.ts: what the methods of `SidecarClient` send, and how they rename the fields of
-- the answers, which come in snake_case and may leave fields out. An answer is taken to have the
-- types that the source casts it to.
use omnibase.Prelude.{ℕ, Bool, false, Option, none, some, List, [], ◌∷◌, map, or_else}
use omnibase.Text.{Text, codes, print_ℕ}
use omnibase.Values.{Value, null, bool, num, str, arr, obj, Items, nil, item, Fields, end, field}
use omnibase.Types.{
  ColumnInfo, IndexInfo, ForeignKeyInfo, TableInfo, SchemaInfo, SchemaFilter, QueryResult,
  ExecuteOptions,
}

abbrev array_of : List Value → Items
array_of [] = nil
array_of (v ∷ vs) = item v (array_of vs)

abbrev text_array : Option (List Text) → Value
text_array none = null
text_array (some texts) = arr (array_of (map str texts))

abbrev bool_or_null : Option Bool → Value
bool_or_null none = null
bool_or_null (some b) = bool b

abbrev params_value : Option (List Value) → Value
params_value none = null
params_value (some params) = arr (array_of params)

abbrev id_and : Text → Fields → Value
id_and id rest = obj (field (codes "id") (str id) rest)

unfoldable pub connect_params : Text → Text → Value
connect_params id dsn = id_and id (field (codes "dsn") (str dsn) end)

unfoldable pub execute_params : Text → Text → Option (List Value) → ExecuteOptions → Value
execute_params id query params options = id_and id (
    field (codes "query") (str query) (
      field (codes "params") (params_value params) (
        field (codes "max_rows") (num (print_ℕ (or_else options.max_rows 500)))
          (field (codes "timeout_ms") (num (print_ℕ (or_else options.timeout_ms 30000))) end))))

abbrev filter_fields : Option SchemaFilter → Fields
filter_fields none =
    field (codes "schemas") null
      (field (codes "tables") null (field (codes "exact_counts") null end))
filter_fields (some f) = field (codes "schemas") (text_array f.schemas) (
    field (codes "tables") (text_array f.tables)
      (field (codes "exact_counts") (bool_or_null f.exact_counts) end))

unfoldable pub schema_params : Text → Option SchemaFilter → Value
schema_params id filter = id_and id (filter_fields filter)

unfoldable pub explain_params : Text → Text → Option Bool → Value
explain_params id query analyze =
    id_and id (
      field (codes "query") (str query)
        (field (codes "analyze") (bool (or_else analyze false)) end))

-- `driver` of the answer to "connect"
unfoldable pub driver_of : Option Text → Text
driver_of driver = or_else driver []

pub record RawResult : Type 0 where
  pub columns : Option (List Text)
  pub rows : Option (List (List Value))
  pub row_count : ℕ
  pub has_more : Bool
  pub affected_rows : Option ℕ
  pub last_insert_id : Option ℕ

unfoldable pub query_result : RawResult → QueryResult
query_result r = record {
  columns = or_else r.columns [];
  rows = or_else r.rows [];
  row_count = r.row_count;
  has_more = r.has_more;
  affected_rows = r.affected_rows;
  last_insert_id = r.last_insert_id;
}

-- The answer to "explain" has no counts of changes.
unfoldable pub explain_result : RawResult → QueryResult
explain_result r = record {
  columns = or_else r.columns [];
  rows = or_else r.rows [];
  row_count = r.row_count;
  has_more = r.has_more;
  affected_rows = none;
  last_insert_id = none;
}

pub record RawColumn : Type 0 where
  pub name : Text
  pub type : Text
  pub nullable : Bool
  pub default_value : Option Text
  pub is_primary_key : Option Bool
  pub comment : Option Text

pub record RawIndex : Type 0 where
  pub name : Text
  pub columns : Option (List Text)
  pub unique : Option Bool
  pub type : Option Text
  pub filter : Option Text

pub record RawTable : Type 0 where
  pub name : Text
  pub schema : Text
  pub columns : Option (List RawColumn)
  pub primary_key : Option (List Text)
  pub indexes : Option (List RawIndex)
  pub foreign_keys : Option (List ForeignKeyInfo)
  pub row_count_estimate : Option ℕ
  pub exact_count : Option Bool
  pub comment : Option Text

unfoldable pub column_info : RawColumn → ColumnInfo
column_info c = record {
  name = c.name;
  type = c.type;
  nullable = c.nullable;
  default_value = c.default_value;
  is_primary_key = or_else c.is_primary_key false;
  comment = c.comment;
}

unfoldable pub index_info : RawIndex → IndexInfo
index_info i = record {
  name = i.name;
  columns = or_else i.columns [];
  unique = or_else i.unique false;
  type = or_else i.type [];
  filter = i.filter;
}

unfoldable pub table_info : RawTable → TableInfo
table_info t = record {
  name = t.name;
  schema = t.schema;
  columns = map column_info (or_else t.columns []);
  primary_key = or_else t.primary_key [];
  indexes = map index_info (or_else t.indexes []);
  foreign_keys = or_else t.foreign_keys [];
  row_count_estimate = or_else t.row_count_estimate 0;
  exact_count = or_else t.exact_count false;
  comment = t.comment;
}

-- `getSchema`, from the `tables` of the answer
unfoldable pub schema_info : Option (List RawTable) → SchemaInfo
schema_info tables = record { tables = map table_info (or_else tables []) }
