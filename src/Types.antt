-- ===== src/Types.antt =====
-- src/types.ts: configuration, schema, results and errors. An error is its class with the variable
-- parts of its message; the fixed wording of messages is left out. Milliseconds, row counts and
-- limits are natural numbers.
use omnibase.Prelude.{ℕ, Bool, Option, List}
use omnibase.Text.{Text}
use omnibase.Values.{Value}
use omnibase.Collections.{Map}

pub data PermissionLevel : Type 0 where
  read_only read_write admin : PermissionLevel

pub data QueryCategory : Type 0 where
  read write ddl : QueryCategory

pub record SchemaFilter : Type 0 where
  pub schemas : Option (List Text)
  pub tables : Option (List Text)
  pub exact_counts : Option Bool

pub record ConnectionConfig : Type 0 where
  pub name : Text
  pub dsn : Text
  pub permission : PermissionLevel
  pub timeout : ℕ
  pub max_rows : ℕ
  pub schema_filter : Option (Option (List Text) × Option (List Text))
  pub allow_all_pragmas : Bool
  pub max_value_length : Option ℕ
  pub read_only_tables : Option (List Text)

pub data AuditFormat : Type 0 where
  jsonl plain : AuditFormat

pub record AuditConfig : Type 0 where
  pub enabled : Bool
  pub path : Text
  pub format : AuditFormat
  pub max_entries : ℕ

-- The type of a configuration file is cast unchecked; `unlisted` stands for whatever else it holds.
pub data ParameterType : Type 0 where
  string number boolean enum unlisted : ParameterType

pub record CustomToolParameter : Type 0 where
  pub type : ParameterType
  pub description : Text
  pub required : Option Bool
  pub default : Value
  pub values : Option (List Text)

pub record CustomToolStep : Type 0 where
  pub sql : Text
  pub is_return : Option Bool

-- The two alternatives of `ComposeStep` as one record of optional fields, since the validator is
-- what excludes a step with both or with neither.
pub record ComposeStep : Type 0 where
  pub tool : Option Text
  pub sql : Option Text
  pub args : Option (Map Value)
  pub as_name : Option Text

pub record CustomToolConfig : Type 0 where
  pub connection : Text
  pub description : Option Text
  pub sql : Option Text
  pub steps : Option (List CustomToolStep)
  pub compose : Option (List ComposeStep)
  pub permission : Option PermissionLevel
  pub max_rows : Option ℕ
  pub timeout : Option ℕ
  pub parameters : Option (Map CustomToolParameter)

pub record Defaults : Type 0 where
  pub permission : PermissionLevel
  pub timeout : ℕ
  pub max_rows : ℕ

pub record OmnibaseConfig : Type 0 where
  pub connections : Map ConnectionConfig
  pub defaults : Defaults
  pub tools : Option (Map CustomToolConfig)
  pub audit : Option AuditConfig
  pub schema_hints : Bool

pub data ConnectionStatus : Type 0 where
  available connected error : ConnectionStatus

pub record ColumnInfo : Type 0 where
  pub name : Text
  pub type : Text
  pub nullable : Bool
  pub default_value : Option Text
  pub is_primary_key : Bool
  pub comment : Option Text

pub record IndexInfo : Type 0 where
  pub name : Text
  pub columns : List Text
  pub unique : Bool
  pub type : Text
  pub filter : Option Text

pub record ForeignKeyInfo : Type 0 where
  pub column : Text
  pub references_table : Text
  pub references_column : Text

pub record TableInfo : Type 0 where
  pub name : Text
  pub schema : Text
  pub columns : List ColumnInfo
  pub primary_key : List Text
  pub indexes : List IndexInfo
  pub foreign_keys : List ForeignKeyInfo
  pub row_count_estimate : ℕ
  pub exact_count : Bool
  pub comment : Option Text

pub record SchemaInfo : Type 0 where
  pub tables : List TableInfo

pub record QueryResult : Type 0 where
  pub columns : List Text
  pub rows : List (List Value)
  pub row_count : ℕ
  pub has_more : Bool
  pub affected_rows : Option ℕ
  pub last_insert_id : Option ℕ

pub record FormattedQueryResult : Type 0 where
  pub columns : List Text
  pub rows : List (List Value)
  pub row_count : ℕ
  pub truncated : Bool
  pub affected_rows : Option ℕ
  pub last_insert_id : Option ℕ
  pub page_offset : Option ℕ

pub record ExecuteOptions : Type 0 where
  pub max_rows : Option ℕ
  pub timeout_ms : Option ℕ

-- Every class of error that the modelled code throws.
pub data Error : Type 0 where
  permission_denied : Text → PermissionLevel → QueryCategory → Error
  unknown_connection : Text → Error
  invalid_query multi_statement : Error
  forbidden_operation : Text → Error
  table_read_only : Text → Error
  table_not_found : Text → Error
  column_not_found : Text → Text → Error
  invalid_params : Error
  invalid_tool_config : Text → Error
  compose_error : Text → Text → Error
  invalid_parameter : Text → Error
  invalid_config : Text → Error
  -- an error of a database, by its code and message
  database : Text → Text → Error
  -- `SIDECAR_CRASH` and `SIDECAR_TIMEOUT`
  sidecar_crash sidecar_timeout : Error
  -- a `TypeError` of the language
  type_error : Error
