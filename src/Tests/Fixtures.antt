-- ===== src/Tests/Fixtures.antt =====
-- A small database, a configuration and requests.
use omnibase.Prelude.{ℕ, suc, true, false, Option, none, some, List, [], ◌∷◌, take, length, or_else}
use omnibase.Text.{Text, codes}
use omnibase.Values.{Value, null, num, Conversions}
use omnibase.Collections.{Map}
use omnibase.Types.{
  PermissionLevel, read_only, ConnectionConfig, OmnibaseConfig, TableInfo, SchemaInfo, QueryResult,
  ExecuteOptions, CustomToolParameter, CustomToolConfig, database, string,
}
use omnibase.Exec.{ok, err}
use omnibase.Session.{Backend, Session, new_session}
use omnibase.ExecuteSql.{Request}

-- A parser that rejects every text.
abbrev pub rejects : Text → Option Value
rejects t = none

abbrev pub host : Conversions
host = record { to_string = λ v. codes "7"; to_number = λ v. codes "7" }

abbrev pub conn_of : PermissionLevel → ConnectionConfig
conn_of level = record {
  name = codes "db";
  dsn = codes "sqlite:x";
  permission = level;
  timeout = 1000;
  max_rows = 2;
  schema_filter = none;
  allow_all_pragmas = false;
  max_value_length = none;
  read_only_tables = none;
}

abbrev pub users : TableInfo
users = record {
  name = codes "Users";
  schema = codes "main";
  columns = [];
  primary_key = [];
  indexes = [];
  foreign_keys = [];
  row_count_estimate = 3;
  exact_count = true;
  comment = none;
}

abbrev pub schema_of_db : SchemaInfo
schema_of_db = record { tables = users ∷ [] }

abbrev pub rows_of_db : List (List Value)
rows_of_db = (num (codes "1") ∷ []) ∷ (num (codes "2") ∷ []) ∷ (num (codes "3") ∷ []) ∷ []

abbrev pub result_of : ExecuteOptions → QueryResult
result_of options =
    let rows = take (or_else options.max_rows 0) rows_of_db in
    record {
      columns = codes "id" ∷ [];
      rows = rows;
      row_count = length rows;
      has_more = true;
      affected_rows = none;
      last_insert_id = none;
    }

-- The database counts what it is asked.
abbrev pub counting : Backend ℕ
counting = record {
  connect = λ name dsn w. (ok (codes "sqlite"), suc w);
  execute = λ name sql params options w. (ok (result_of options), suc w);
  get_schema = λ name filter w. (ok schema_of_db, suc w);
  explain_query =
      λ name sql analyze w. (ok (result_of (record { max_rows = none; timeout_ms = none })), suc w);
  validate_query = λ name sql w. (ok (record { valid = true; error = none }), suc w);
  ping = λ name w. (ok tt, suc w);
  disconnect = λ name w. (err (database [] []), suc w);
}

abbrev pub fresh : Session ℕ
fresh = new_session 0

abbrev pub config_with : PermissionLevel → Option (Map CustomToolConfig) → OmnibaseConfig
config_with level tools = record {
  connections = (codes "db", conn_of level) ∷ [];
  defaults = record { permission = read_only; timeout = 1000; max_rows = 2 };
  tools = tools;
  audit = none;
  schema_hints = false;
}

abbrev pub request : Text → Request
request query = record {
  connection = codes "DB";
  query = query;
  params = none;
  limit = some 1;
  offset = some 1;
}

abbrev pub blank_tool : CustomToolConfig
blank_tool = record {
  connection = codes "db";
  description = some (codes "a tool");
  sql = none;
  steps = none;
  compose = none;
  permission = none;
  max_rows = none;
  timeout = none;
  parameters = none;
}

abbrev pub name_param : CustomToolParameter
name_param = record {
  type = string;
  description = codes "a name";
  required = some true;
  default = null;
  values = none;
}

abbrev pub find_tool : CustomToolConfig
find_tool = record blank_tool {
  sql = some (codes "select * from t where name = {name}");
  parameters = some ((codes "name", name_param) ∷ []);
}

abbrev pub steps_tool : CustomToolConfig
steps_tool = record blank_tool {
  steps = some (record { sql = codes "select 1"; is_return = none } ∷ []);
}

abbrev pub calls : Text → CustomToolConfig
calls name = record blank_tool {
  compose =
      some (record { tool = some name; sql = none; args = none; as_name = some (codes "s") } ∷ []);
}
