-- ===== src/Config/Parse.antt =====
-- src/config.ts: `parseConfig` behind the YAML parser, with `resolveDsn` and `validatePermission`, and
-- `extractSqlDescription` of src/custom-tools.ts. The environment is the argument `env`; the default
-- path of the audit log, which the host's path functions join, is the argument `audit_path`.
pub mod Laws
use omnibase.Prelude.{
  ℕ, Bool, true, false, Option, none, some, List, [], ◌∷◌, map, or_else, ◌==◌, if◌then◌else◌,
}
use omnibase.Text.{Text, codes, text_eq, trim, drop_spaces, strip_prefix, split_on, join, text_runs}
use omnibase.Collections.{Map, insert, collections_run}
use omnibase.Types.{
  PermissionLevel, read_only, read_write, admin, ConnectionConfig, AuditFormat, jsonl, plain,
  AuditConfig, CustomToolParameter, ComposeStep, CustomToolConfig, Defaults, OmnibaseConfig, Error,
  invalid_config,
}
use omnibase.Exec.{Result, ok, err}
use omnibase.Exec.Pure.{◌>>=◌}
use omnibase.Config.Raw.{
  RawConnection, RawDefaults, RawComposeStep, RawParameter, RawTool, RawAudit, RawConfig,
}

unfoldable pub validate_permission : Text → Result PermissionLevel
validate_permission value =
    if text_eq value (codes "read-only")
    then ok read_only
    else if text_eq value (codes "read-write")
    then ok read_write
    else if text_eq value (codes "admin")
    then ok admin
    else err (invalid_config value)

-- `text ? validatePermission(text) : other`
abbrev pub permission_or : PermissionLevel → Option Text → Result PermissionLevel
permission_or other none = ok other
permission_or other (some []) = ok other
permission_or other (some (c ∷ s)) = validate_permission (c ∷ s)

abbrev pub env_value : Text → Option Text → Result Text
env_value name none = err (invalid_config name)
env_value name (some []) = err (invalid_config name)
env_value name (some (c ∷ s)) = ok (c ∷ s)

-- `$NAME` stands for the value of an environment variable.
unfoldable pub resolve_dsn : (Text → Option Text) → Text → Result Text
resolve_dsn env [] = ok []
resolve_dsn env (c ∷ s) = if c == b'$' then env_value s (env s) else ok (c ∷ s)

abbrev pub checked_dsn : (Text → Option Text) → Text → Option Text → Result Text
checked_dsn env name none = err (invalid_config name)
checked_dsn env name (some []) = err (invalid_config name)
checked_dsn env name (some (c ∷ s)) = resolve_dsn env (c ∷ s)

unfoldable pub parse_defaults : RawDefaults → Result Defaults
parse_defaults raw = do
  permission ← permission_or read_only raw.permission
  ok (record {
    permission = permission;
    timeout = or_else raw.timeout 30000;
    max_rows = or_else raw.max_rows 500;
  })

unfoldable pub parse_connection :
    (Text → Option Text) → Defaults → Text → RawConnection → Result ConnectionConfig
parse_connection env defaults name raw = do
  dsn ← checked_dsn env name raw.dsn
  permission ← permission_or defaults.permission raw.permission
  ok (record {
    name = name;
    dsn = dsn;
    permission = permission;
    timeout = or_else raw.timeout defaults.timeout;
    max_rows = or_else raw.max_rows defaults.max_rows;
    schema_filter = raw.schema_filter;
    allow_all_pragmas = or_else raw.allow_all_pragmas false;
    max_value_length = raw.max_value_length;
    read_only_tables = raw.read_only_tables;
  })

unfoldable pub parse_connections :
    (Text → Option Text) → Defaults → Map RawConnection → Result (Map ConnectionConfig)
parse_connections env defaults [] = ok []
parse_connections env defaults ((name, raw) ∷ rest) = do
  conn ← parse_connection env defaults name raw
  conns ← parse_connections env defaults rest
  ok ((name, conn) ∷ conns)

-- The comment lines that open a statement; a blank line between them is passed over.
abbrev comment_line : Text → Option Text → List Text → List Text
comment_line line (some rest) later = trim rest ∷ later
comment_line [] none later = later
comment_line (_ ∷ _) none later = []

unfoldable pub comment_lines : List Text → List Text
comment_lines [] = []
comment_lines (line ∷ lines) =
    let start = drop_spaces line in
    comment_line start (strip_prefix (codes "-- ") start) (comment_lines lines)

abbrev joined : List Text → Option Text
joined [] = none
joined (line ∷ lines) = some (join (codes " ") (line ∷ lines))

unfoldable pub extract_sql_description : Text → Option Text
extract_sql_description sql = joined (comment_lines (split_on 10 sql))

abbrev sql_description : Option Text → Option Text
sql_description none = none
sql_description (some []) = none
sql_description (some (c ∷ s)) = extract_sql_description (c ∷ s)

abbrev pub or_other : Option Text → Option Text → Option Text
or_other (some t) other = some t
or_other none other = other

-- A step that names a tool has no statement, and one that names none has no arguments.
abbrev compose_step : RawComposeStep → Option Text → ComposeStep
compose_step raw none = record { tool = none; sql = raw.sql; args = none; as_name = raw.as_name }
compose_step raw (some []) = record {
  tool = none;
  sql = raw.sql;
  args = none;
  as_name = raw.as_name;
}
compose_step raw (some (c ∷ s)) = record {
  tool = some (c ∷ s);
  sql = none;
  args = raw.args;
  as_name = raw.as_name;
}

abbrev pub parse_compose : Option (List RawComposeStep) → Option (List ComposeStep)
parse_compose none = none
parse_compose (some []) = none
parse_compose (some (step ∷ steps)) = some (map (λ raw. compose_step raw raw.tool) (step ∷ steps))

abbrev pub parse_parameter : RawParameter → CustomToolParameter
parse_parameter raw = record {
  type = raw.type;
  description = raw.description;
  required = some (or_else raw.required true);
  default = raw.default;
  values = raw.values;
}

abbrev parse_parameters : Option (Map RawParameter) → Option (Map CustomToolParameter)
parse_parameters none = none
parse_parameters (some params) = some (map (λ (name, raw). (name, parse_parameter raw)) params)

abbrev optional_permission : Option Text → Result (Option PermissionLevel)
optional_permission none = ok none
optional_permission (some []) = ok none
optional_permission (some (c ∷ s)) = validate_permission (c ∷ s) >>= λ level. ok (some level)

unfoldable pub parse_tool : RawTool → Result CustomToolConfig
parse_tool raw = do
  permission ← optional_permission raw.permission
  ok (record {
    connection = raw.connection;
    description = or_other raw.description (sql_description raw.sql);
    sql = raw.sql;
    steps = raw.steps;
    compose = parse_compose raw.compose;
    permission = permission;
    max_rows = raw.max_rows;
    timeout = raw.timeout;
    parameters = parse_parameters raw.parameters;
  })

unfoldable pub parse_tools : Map RawTool → Result (Map CustomToolConfig)
parse_tools [] = ok []
parse_tools ((name, raw) ∷ rest) = do
  tool ← parse_tool raw
  tools ← parse_tools rest
  ok ((name, tool) ∷ tools)

abbrev if_any : Map CustomToolConfig → Option (Map CustomToolConfig)
if_any [] = none
if_any (entry ∷ tools) = some (entry ∷ tools)

abbrev format_of : Option Text → AuditFormat
format_of none = jsonl
format_of (some format) = if text_eq format (codes "text") then plain else jsonl

abbrev pub parse_audit : Text → Option RawAudit → Option AuditConfig
parse_audit audit_path none = none
parse_audit audit_path (some raw) = some (record {
  enabled = or_else raw.enabled false;
  path = or_else raw.path audit_path;
  format = format_of raw.format;
  max_entries = or_else raw.max_entries 10000;
})

unfoldable pub parse_config : (Text → Option Text) → Text → RawConfig → Result OmnibaseConfig
parse_config env audit_path raw = do
  defaults ← parse_defaults raw.defaults
  connections ← parse_connections env defaults raw.connections
  tools ← parse_tools raw.tools
  ok (record {
    connections = connections;
    defaults = defaults;
    tools = if_any tools;
    audit = parse_audit audit_path raw.audit;
    schema_hints = or_else raw.schema_hints true;
  })

-- Opens what this file defines, to evaluate it on concrete inputs.
unfoldable pub parse_runs : Unit {0}
unfolding validate_permission resolve_dsn parse_defaults parse_connection parse_connections
    comment_lines extract_sql_description parse_tool parse_tools parse_config text_runs
    collections_run
parse_runs = tt
