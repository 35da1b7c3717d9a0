-- ===== src/Tools/PipelineStep.antt =====
-- src/custom-tools.ts: one step of a pipeline in `executeComposedToolRaw`, but for the call of the tool
-- that it may name: the arguments handed to that tool, a step with a statement, and the results so far.
pub mod Inlined
use omnibase.Prelude.{Option, none, some, [], ◌∷◌, or_else, if◌then◌else◌}
use omnibase.Text.{Text, text_eq}
use omnibase.Values.{Value, str, Conversions}
use omnibase.Collections.{Map, insert}
use omnibase.Types.{ConnectionConfig, CustomToolConfig, QueryResult, type_error}
use omnibase.Exec.{Exec, throw, lift, ◌>>=◌}
use omnibase.Template.{placeholder_at}
use omnibase.Parameters.{argument, braces, substitute_parameters}
use omnibase.Expander.{expand_compose_references, expander_runs}
use omnibase.Session.{Backend, Session}
use omnibase.Tools.Prepare.{check_tool_sql}
use omnibase.Tools.SingleSql.{send_tool_sql, single_sql_runs}

-- `/^\{name\}$/`
abbrev whole_placeholder : Text → Option Text → Option Text
whole_placeholder s none = none
whole_placeholder s (some name) = if text_eq s (braces name) then some name else none

abbrev resolved : Map Value → Value → Option Text → Value
resolved args value none = value
resolved args value (some name) = argument args name

-- An argument that reads `{name}` is the caller's argument of that name.
unfoldable pub resolve_argument : Map Value → Value → Value
resolve_argument args (str s) = resolved args (str s) (whole_placeholder s (placeholder_at s))
resolve_argument args value = value

unfoldable pub step_args : Map Value → Map Value → Map Value
step_args args [] = []
step_args args ((key, value) ∷ rest) = (key, resolve_argument args value) ∷ step_args args rest

-- `context.set(step.as, result)`
abbrev pub remember_result : Option Text → QueryResult → Map QueryResult → Map QueryResult
remember_result none result context = context
remember_result (some name) result context = insert name result context

module _ {W : Type 0} (astify : Text → Option Value) (host : Conversions)
    (backend : Backend W) where
  -- The references to earlier results are expanded before the parameters are substituted.
  unfoldable pub run_sql_step :
      ConnectionConfig
      → CustomToolConfig
      → Map Value
      → Map QueryResult
      → Option Text
      → Exec (Session W) QueryResult
  run_sql_step conn tool args context none = throw type_error
  run_sql_step conn tool args context (some template) = do
    expanded ← lift (expand_compose_references template context)
    bound ← lift (substitute_parameters host expanded args (or_else tool.parameters []))
    category ← lift (check_tool_sql astify host conn tool bound.0)
    send_tool_sql astify host backend conn tool bound.0 bound.1 category

-- Opens what this file defines, to evaluate it on concrete inputs.
unfoldable pub pipeline_step_runs : Unit {0}
unfolding resolve_argument step_args run_sql_step single_sql_runs expander_runs
pipeline_step_runs = tt
