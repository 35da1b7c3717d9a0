-- ===== src/Tools/Compose/Free.antt =====
-- Runs in a session that holds no transaction lock: none of them waits, and none leaves a lock behind
-- where it returns.
use omnibase.Prelude.{◌≡◌, refl, ◌∙◌, inl, inr, false, Option, none, some, List, [], or_else}
use omnibase.Text.{Text}
use omnibase.Values.{Value, Conversions}
use omnibase.Collections.{Map, has}
use omnibase.Types.{ConnectionConfig, OmnibaseConfig, CustomToolConfig, QueryResult}
use omnibase.Types.{QueryCategory}
use omnibase.Exec.{err, lift, modify}
use omnibase.Exec.Laws.{Result-cases}
use omnibase.Exec.Keeps.{
  Keeps, Keeps-throw, Keeps-lift, Keeps-lifted, Keeps-bind, Keeps-modify, Keeps-when,
}
use omnibase.Exec.Finishes.{Finishes, Ends, After-kept, Finishes-run, Ends-bind, Ends-catch}
use omnibase.ExecuteSql.Checks.{changes_data}
use omnibase.Expander.{expand_compose_references}
use omnibase.Parameters.{substitute_parameters}
use omnibase.Config.{get_connection}
use omnibase.Session.{Backend, Session, on_manager}
use omnibase.Manager.{invalidate_schema_cache}
use omnibase.Tools.Prepare.{execution_options, check_template, check_tool_sql}
use omnibase.Tools.SingleSql.{send_tool_sql, execute_single_raw}
use omnibase.Tools.PipelineStep.{run_sql_step}
use omnibase.Tools.Steps.Locked.{execute_steps_raw, execute_custom_tool_steps}
use omnibase.Tools.Steps.Locks.{Keeps-execute, execute_steps_raw-lock}

-- No transaction lock is held.
abbrev pub Free : {W : Type 0} → Session W → Type 0
Free s = s.locked ≡ []

module _ {W : Type 0} (astify : Text → Option Value) (host : Conversions)
    (backend : Backend W) where
  Keeps-send :
      (conn : ConnectionConfig) (tool : CustomToolConfig) (sql : Text) (values : List Value)
      (category : QueryCategory)
      → Keeps Free (send_tool_sql astify host backend conn tool sql values category)
  Keeps-send conn tool sql values category =
      Keeps-bind _ _
        (Keeps-when (changes_data category)
          (modify (on_manager (invalidate_schema_cache conn.name)))
          (Keeps-modify (on_manager (invalidate_schema_cache conn.name)) (λ s h. h)))
        (λ _.
          Keeps-execute astify backend [] conn sql (some values)
            (some (execution_options conn tool)))

  pub Keeps-single :
      (config : OmnibaseConfig) (tool : CustomToolConfig) (args : Map Value)
      → Keeps Free (execute_single_raw astify host backend config tool args)
  unfolding execute_single_raw
  Keeps-single config tool args = Keeps-lifted (get_connection config tool.connection) _ (λ conn.
      Keeps-lifted (check_template astify host conn tool args) _
        (λ ((sql, values), category). Keeps-send conn tool sql values category))

  pub Keeps-sql_step :
      (conn : ConnectionConfig) (tool : CustomToolConfig) (args : Map Value)
      (context : Map QueryResult) (template : Option Text)
      → Keeps Free (run_sql_step astify host backend conn tool args context template)
  unfolding run_sql_step
  Keeps-sql_step conn tool args context none = Keeps-throw _
  Keeps-sql_step conn tool args context (some template) =
      Keeps-lifted (expand_compose_references template context) _ (λ expanded.
        Keeps-lifted (substitute_parameters host expanded args (or_else tool.parameters [])) _
          (λ bound.
            Keeps-lifted (check_tool_sql astify host conn tool bound.0) _
              (λ category. Keeps-send conn tool bound.0 bound.1 category)))

  nothing_held : (name : Text) → has name [] ≡ false
  unfolding has
  nothing_held name = refl

  pub steps-Finishes :
      (config : OmnibaseConfig) (tool : CustomToolConfig) (args : Map Value)
      → Finishes Free (execute_steps_raw astify host backend config tool args)
  unfolding execute_steps_raw
  steps-Finishes config tool args s free =
      elim (Result-cases (get_connection config tool.connection)) [
        | inr (e, unknown) ↦ ((err e, s), rw unknown refl, tt)
        | inl (conn, found) ↦
            let (r, s', outcome, how) =
              execute_steps_raw-lock astify host backend config conn tool args s found
                (rw free (nothing_held conn.name)) in
            (
              (r, s'),
              outcome,
              elim how [
                | inl same ↦ After-kept Free r s' (same ∙ free)
                | inr (e, _, thrown, _) ↦ rw thrown tt
              ],
            )
      ]

  pub custom_tool_steps-Ends :
      (config : OmnibaseConfig) (name : Text) (tool : CustomToolConfig) (args : Map Value)
      → Ends Free (execute_custom_tool_steps astify host backend config name tool args)
  unfolding execute_custom_tool_steps
  custom_tool_steps-Ends config name tool args =
      Ends-bind Free _ _
        (Finishes-run Free (lift (get_connection config tool.connection)) (Keeps-lift _))
        (λ conn.
          Ends-catch Free _ _
            (Ends-bind Free _ _ (steps-Finishes config tool args) (λ result s free. (_, refl))))
