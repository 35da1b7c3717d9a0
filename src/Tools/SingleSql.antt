-- ===== src/Tools/SingleSql.antt =====
-- src/custom-tools.ts: a custom tool with one template, run for a client
-- (the last branch of `executeCustomTool`) or for a pipeline (that of `executeRawCustomTool`).
pub mod Guards
use omnibase.Prelude.{ℕ, Bool, true, false, Option, none, some, List, [], ◌∷◌, ◌++◌, or_else}
use omnibase.Text.{Text, codes}
use omnibase.Values.{Value, Conversions}
use omnibase.Collections.{Map}
use omnibase.Types.{
  ConnectionConfig, OmnibaseConfig, CustomToolConfig, QueryCategory, QueryResult,
  FormattedQueryResult, Error,
}
use omnibase.Exec.{Result, ok, err, Exec, pure, throw, lift, modify, when, catch, ◌>>=◌, ◌>>◌}
use omnibase.Config.{get_connection, config_runs}
use omnibase.Formatter.{format_query_result, formatter_runs}
use omnibase.Session.{Backend, Session, AuditStatus, done, failed, AuditEntry, audit, on_manager}
use omnibase.Manager.{execute, invalidate_schema_cache, manager_runs}
use omnibase.ExecuteSql.Checks.{changes_data}
use omnibase.Tools.Prepare.{execution_options, check_template, prepare_runs}

-- The name under which a tool is registered and audited.
abbrev pub custom_name : Text → Text
custom_name name = codes "custom_" ++ name

abbrev pub tool_entry :
    ConnectionConfig → Text → Text → List Value → ℕ → AuditStatus → Option Error → AuditEntry
tool_entry conn name sql values rows status error = record {
  tool = custom_name name;
  connection = conn.name;
  sql = sql;
  params = values;
  rows = rows;
  status = status;
  error = error;
}

module _ {W : Type 0} (astify : Text → Option Value) (host : Conversions)
    (backend : Backend W) where
  -- What follows the checks: the cache is invalidated and the statement sent.
  abbrev pub send_tool_sql :
      ConnectionConfig
      → CustomToolConfig
      → Text
      → List Value
      → QueryCategory
      → Exec (Session W) QueryResult
  send_tool_sql conn tool sql values category = do
    when (changes_data category) (modify (on_manager (invalidate_schema_cache conn.name)))
    execute backend conn sql (some values) (some (execution_options conn tool))

  unfoldable pub execute_single_raw :
      OmnibaseConfig → CustomToolConfig → Map Value → Exec (Session W) QueryResult
  execute_single_raw config tool args = do
    conn ← lift (get_connection config tool.connection)
    ((sql, values), category) ← lift (check_template astify host conn tool args)
    send_tool_sql conn tool sql values category

  -- Only the statement itself stands in the `try` block.
  unfoldable pub run_single :
      ConnectionConfig
      → Text
      → CustomToolConfig
      → Text
      → List Value
      → QueryCategory
      → Exec (Session W) FormattedQueryResult
  run_single conn name tool sql values category = do
    when (changes_data category) (modify (on_manager (invalidate_schema_cache conn.name)))
    result ←
        catch (execute backend conn sql (some values) (some (execution_options conn tool)))
          (λ e. modify (audit (tool_entry conn name sql values 0 failed (some e))) >> throw e)
    modify (audit (tool_entry conn name sql values result.row_count done none))
    pure (format_query_result result (or_else tool.max_rows conn.max_rows) conn.max_value_length)

  unfoldable pub execute_single :
      OmnibaseConfig → Text → CustomToolConfig → Map Value → Exec (Session W) FormattedQueryResult
  execute_single config name tool args = do
    conn ← lift (get_connection config tool.connection)
    ((sql, values), category) ← lift (check_template astify host conn tool args)
    run_single conn name tool sql values category

-- Opens what this file defines, to evaluate it on concrete inputs.
unfoldable pub single_sql_runs : Unit {0}
unfolding execute_single_raw run_single execute_single prepare_runs config_runs formatter_runs
    manager_runs
single_sql_runs = tt
