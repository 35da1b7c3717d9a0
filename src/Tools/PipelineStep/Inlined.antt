-- ===== src/Tools/PipelineStep/Inlined.antt =====
-- What a pipeline step makes of an inlined value that looks like a placeholder.
use omnibase.Prelude.{◌≡◌, refl, ◌≢◌, Option, some, [], ◌∷◌, ◌++◌, All, or_else}
use omnibase.Text.{Text}
use omnibase.Values.{Value, Conversions}
use omnibase.Collections.{Map, lookup}
use omnibase.Types.{ConnectionConfig, CustomToolConfig, CustomToolParameter, QueryResult}
use omnibase.Exec.{ok, lift, ◌>>=◌}
use omnibase.Template.Laws.{IsName}
use omnibase.Expander.{sql_literal, expand_compose_references}
use omnibase.Parameters.{argument, with_default, braces, coerce_parameter}
use omnibase.Parameters.Laws.{literal_is_substituted}
use omnibase.Session.{Backend, Session}
use omnibase.Tools.Prepare.{check_tool_sql}
use omnibase.Tools.SingleSql.{send_tool_sql}
use omnibase.Tools.PipelineStep.{run_sql_step}

-- A pipeline step whose references expand to a text without an opening brace, followed by the literal
-- of a value that reads `{name}`, for a defined parameter, does not send that value: it checks and
-- sends the statement with '?' in place of the literal, and binds the argument of `name` to it.
pub inlined_value_is_rewritten :
    {W : Type 0} (astify : Text → Option Value) (host : Conversions) (backend : Backend W)
    (conn : ConnectionConfig) (tool : CustomToolConfig) (args : Map Value)
    (context : Map QueryResult) (template before name : Text) (def : CustomToolParameter)
    (v : Value) (s : Session W)
    → expand_compose_references template context ≡ ok (before ++ sql_literal (braces name))
    → All (λ c. c ≢ b'{') before
    → IsName name
    → lookup name (or_else tool.parameters []) ≡ some def
    → coerce_parameter host name (with_default def (argument args name)) def ≡ ok v
    → let sent = before ++ 39 ∷ b'?' ∷ 39 ∷ [] in
      run_sql_step astify host backend conn tool args context (some template) s
      ≡ (lift (check_tool_sql astify host conn tool sent)
            >>= send_tool_sql astify host backend conn tool sent (v ∷ []))
          s
unfolding run_sql_step
inlined_value_is_rewritten astify host backend conn tool args context template before name def v s
      expanded plain named found coerced =
    rw
      (
        expanded,
        literal_is_substituted host args (or_else tool.parameters []) before name def v plain named
            found coerced,
      )
      refl
