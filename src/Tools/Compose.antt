-- ===== src/Tools/Compose.antt =====
-- src/custom-tools.ts: `executeRawCustomTool`, `executeComposedToolRaw`, `executeComposedTool` and the
-- dispatch of `executeCustomTool`. A pipeline calls other tools, so that a run takes fuel, and one out
-- of fuel has no outcome, nor one that waits for a lock which is never released; Ends shows that the tools of a validated configuration never run out.
pub mod References
pub mod Free
pub mod Ends
use omnibase.Prelude.{ℕ, zero, suc, Option, none, some, List, [], ◌∷◌, ◌++◌, or_else, map}
use omnibase.Text.{Text, codes, join}
use omnibase.Values.{Value, Conversions}
use omnibase.Collections.{Map, lookup}
use omnibase.Types.{
  ConnectionConfig, OmnibaseConfig, ComposeStep, CustomToolStep, CustomToolConfig, QueryResult,
  FormattedQueryResult, Error, type_error,
}
use omnibase.Exec.{Exec, pure, throw, lift, modify, ◌>>◌}
use omnibase.Exec.Fueled.{Fueled, run, catch, ◌>>=◌}
use omnibase.Config.{get_connection}
use omnibase.Formatter.{format_query_result}
use omnibase.Session.{Backend, Session, AuditStatus, done, failed, audit}
use omnibase.Tools.Cycles.{named_tool}
use omnibase.Tools.Steps.{first_result}
use omnibase.Tools.Steps.Locked.{execute_steps_raw, execute_custom_tool_steps, locked_runs}
use omnibase.Tools.SingleSql.{tool_entry, execute_single_raw, execute_single}
use omnibase.Tools.PipelineStep.{step_args, remember_result, run_sql_step, pipeline_step_runs}

-- How a tool runs: `compose` counts where it has a step, then `steps`, then `sql`.
pub data Mode : Type 0 where
  composed : List ComposeStep → Mode
  stepped single : Mode

abbrev unless_composed : Option (List CustomToolStep) → Mode
unless_composed none = single
unless_composed (some steps) = stepped

abbrev pub mode_of : Option (List ComposeStep) → Option (List CustomToolStep) → Mode
mode_of none steps = unless_composed steps
mode_of (some []) steps = unless_composed steps
mode_of (some (step ∷ rest)) steps = composed (step ∷ rest)

abbrev pub tools_of : OmnibaseConfig → Map CustomToolConfig
tools_of config = or_else config.tools []

module _ {W : Type 0} (astify : Text → Option Value) (host : Conversions) (backend : Backend W)
    (config : OmnibaseConfig) where
  -- A run of a tool on arguments.
  abbrev pub Call : Type 0
  Call = CustomToolConfig → Map Value → Fueled (Session W) QueryResult

  -- The tool of a step that names one, or the exception at `undefined.compose`.
  abbrev pub call_tool : Call → Option CustomToolConfig → Map Value → Fueled (Session W) QueryResult
  call_tool call none args = run (throw type_error)
  call_tool call (some tool) args = call tool args

  abbrev pub run_step :
      Call
      → ConnectionConfig
      → CustomToolConfig
      → Map Value
      → Map QueryResult
      → ComposeStep
      → List Text
      → Fueled (Session W) QueryResult
  run_step call conn tool args context step [] =
      run (run_sql_step astify host backend conn tool args context step.sql)
  run_step call conn tool args context step (name ∷ _) =
      call_tool call (lookup name (tools_of config)) (step_args args (or_else step.args []))

  unfoldable pub run_pipeline :
      Call
      → ConnectionConfig
      → CustomToolConfig
      → Map Value
      → Map QueryResult
      → Option QueryResult
      → List ComposeStep
      → Fueled (Session W) QueryResult
  run_pipeline call conn tool args context last [] = run (lift (first_result none last))
  run_pipeline call conn tool args context last (step ∷ steps) = do
    result ← run_step call conn tool args context step (named_tool step.tool)
    run_pipeline call conn tool args (remember_result step.as_name result context) (some result)
        steps

  -- `executeComposedToolRaw`
  unfoldable pub execute_composed_raw :
      Call → CustomToolConfig → List ComposeStep → Map Value → Fueled (Session W) QueryResult
  execute_composed_raw call tool steps args = do
    conn ← run (lift (get_connection config tool.connection))
    run_pipeline call conn tool args [] none steps

  abbrev pub raw_by_mode :
      Call → CustomToolConfig → Map Value → Mode → Fueled (Session W) QueryResult
  raw_by_mode call tool args (composed steps) = execute_composed_raw call tool steps args
  raw_by_mode call tool args stepped = execute_steps_raw astify host backend config tool args
  raw_by_mode call tool args single = run (execute_single_raw astify host backend config tool args)

  unfoldable pub execute_raw : ℕ → Call
  execute_raw zero tool args = λ s. none
  execute_raw (suc fuel) tool args =
      raw_by_mode (execute_raw fuel) tool args (mode_of tool.compose tool.steps)

  abbrev summary_of : ComposeStep → List Text → Text
  summary_of step [] = or_else step.sql (codes "")
  summary_of step (name ∷ _) = codes "[tool:" ++ (name ++ codes "]")

  abbrev pub sql_summary : List ComposeStep → Text
  sql_summary steps = join (codes "; ") (map (λ step. summary_of step (named_tool step.tool)) steps)

  abbrev log_failure :
      ConnectionConfig → Text → List ComposeStep → Error → Exec (Session W) FormattedQueryResult
  log_failure conn name steps e =
      modify (audit (tool_entry conn name (sql_summary steps) [] 0 failed (some e))) >> throw e

  -- The `try` block of `executeComposedTool`.
  abbrev run_and_log :
      ℕ
      → ConnectionConfig
      → Text
      → CustomToolConfig
      → List ComposeStep
      → Map Value
      → Fueled (Session W) FormattedQueryResult
  run_and_log fuel conn name tool steps args = do
    result ← execute_composed_raw (execute_raw fuel) tool steps args
    run (
        modify (audit (tool_entry conn name (sql_summary steps) [] result.row_count done none))
        >> pure (
            format_query_result result (or_else tool.max_rows conn.max_rows) conn.max_value_length))

  unfoldable pub execute_composed_tool :
      ℕ
      → Text
      → CustomToolConfig
      → List ComposeStep
      → Map Value
      → Fueled (Session W) FormattedQueryResult
  execute_composed_tool fuel name tool steps args = do
    conn ← run (lift (get_connection config tool.connection))
    catch (run_and_log fuel conn name tool steps args) (log_failure conn name steps)

  abbrev pub by_mode :
      ℕ → Text → CustomToolConfig → Map Value → Mode → Fueled (Session W) FormattedQueryResult
  by_mode fuel name tool args (composed steps) = execute_composed_tool fuel name tool steps args
  by_mode fuel name tool args stepped =
      execute_custom_tool_steps astify host backend config name tool args
  by_mode fuel name tool args single =
      run (execute_single astify host backend config name tool args)

  unfoldable pub execute_custom_tool :
      ℕ → Text → CustomToolConfig → Map Value → Fueled (Session W) FormattedQueryResult
  execute_custom_tool fuel name tool args =
      by_mode fuel name tool args (mode_of tool.compose tool.steps)

-- Opens what this file defines, to evaluate it on concrete inputs.
unfoldable pub compose_runs : Unit {0}
unfolding run_pipeline execute_composed_raw execute_raw execute_composed_tool execute_custom_tool
    locked_runs pipeline_step_runs
compose_runs = tt
