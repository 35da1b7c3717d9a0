-- ===== src/Tools/Prepare.antt =====
-- src/custom-tools.ts: what is checked before a custom tool reaches the database, for one template
-- and for several steps.
use omnibase.Prelude.{Bool, false, Option, some, List, [], ◌∷◌, ltb, or_else, if◌then◌else◌}
use omnibase.Text.{Text}
use omnibase.Values.{Value, Conversions}
use omnibase.Collections.{Map}
use omnibase.Types.{
  ConnectionConfig, CustomToolStep, CustomToolConfig, QueryCategory, read, ExecuteOptions,
  PermissionLevel, multi_statement,
}
use omnibase.Exec.{Result, ok}
use omnibase.Exec.Pure.{◌>>=◌, ◌>>◌, reject_if}
use omnibase.Analyzer.{classify_query, is_multi_statement}
use omnibase.Permission.{enforce_permission}
use omnibase.Permission.Laws.{category_rank}
use omnibase.Security.{check_sql_security}
use omnibase.Parameters.{substitute_parameters, parameters_run}
use omnibase.ExecuteSql.Checks.{checks_run}

-- `execOpts`
abbrev pub execution_options : ConnectionConfig → CustomToolConfig → ExecuteOptions
execution_options conn tool = record {
  max_rows = some (or_else tool.max_rows conn.max_rows);
  timeout_ms = some (or_else tool.timeout conn.timeout);
}

-- `tool.permission ?? connConfig.permission`
abbrev pub effective_permission : ConnectionConfig → CustomToolConfig → PermissionLevel
effective_permission conn tool = or_else tool.permission conn.permission

abbrev pub higher : QueryCategory → QueryCategory → QueryCategory
higher category max = if ltb (category_rank max) (category_rank category) then category else max

-- A step with its parameters substituted.
pub record Prepared : Type 0 where
  pub sql : Text
  pub values : List Value
  pub is_return : Bool

module _ (astify : Text → Option Value) (host : Conversions) where
  unfoldable pub prepare :
      ConnectionConfig
      → CustomToolConfig
      → Map Value
      → QueryCategory
      → List CustomToolStep
      → Result (QueryCategory × List Prepared)
  prepare conn tool args max [] = ok (max, [])
  prepare conn tool args max (step ∷ steps) = do
    (sql, values) ← substitute_parameters host step.sql args (or_else tool.parameters [])
    check_sql_security sql conn.allow_all_pragmas
    (top, later) ← prepare conn tool args (higher (classify_query astify sql) max) steps
    ok (
      top,
      record { sql = sql; values = values; is_return = or_else step.is_return false } ∷ later,
    )

  unfoldable pub check_steps_allowed :
      ConnectionConfig → CustomToolConfig → Map Value → Result (List Prepared)
  check_steps_allowed conn tool args = do
    (top, prepared) ← prepare conn tool args read (or_else tool.steps [])
    enforce_permission conn.name (effective_permission conn tool) top
    ok prepared

  -- The checks of one statement.
  unfoldable pub check_tool_sql : ConnectionConfig → CustomToolConfig → Text → Result QueryCategory
  check_tool_sql conn tool sql =
      let category = classify_query astify sql in
      do
        reject_if (is_multi_statement astify sql) multi_statement
        check_sql_security sql conn.allow_all_pragmas
        enforce_permission conn.name (effective_permission conn tool) category
        ok category

  -- The statement with its values, and its category.
  unfoldable pub check_template :
      ConnectionConfig → CustomToolConfig → Map Value → Result ((Text × List Value) × QueryCategory)
  check_template conn tool args = do
    bound ← substitute_parameters host (or_else tool.sql []) args (or_else tool.parameters [])
    category ← check_tool_sql conn tool bound.0
    ok (bound, category)

-- Opens what this file defines, to evaluate it on concrete inputs.
unfoldable pub prepare_runs : Unit {0}
unfolding prepare check_steps_allowed check_tool_sql check_template checks_run parameters_run
prepare_runs = tt
