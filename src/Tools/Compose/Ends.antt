-- ===== src/Tools/Compose/Ends.antt =====
-- The tools of a validated configuration end, however they call one another.
use mathlib.Core.WellFounded.{Acc}
use omnibase.Tools.Validation.{validate_custom_tools}
use omnibase.Tools.Validation.Laws.{validate_custom_tools-decides}
use omnibase.Prelude.{
  ℕ, suc, ◌≡◌, refl, ap, inl, inr, true, false, ◌||◌, Option, none, some, List, [], ◌∷◌, arith,
  Option-cases, or_else,
}
use omnibase.Text.{Text, text_eq}
use omnibase.Text.Laws.{text_eq_refl}
use omnibase.Values.{Value, Conversions}
use omnibase.Collections.{Map, lookup, has, add}
use omnibase.Collections.Laws.{has-add}
use omnibase.Types.{
  ConnectionConfig, OmnibaseConfig, ComposeStep, CustomToolStep, CustomToolConfig, QueryResult,
  FormattedQueryResult, type_error,
}
use omnibase.Exec.{Result, ok, throw, lift}
use omnibase.Exec.Keeps.{Keeps-throw, Keeps-lift}
use omnibase.Exec.Finishes.{Finishes, Ends, Finishes-bind, Finishes-run, Ends-bind, Ends-catch}
use omnibase.Tools.Compose.Free.{
  Free, Keeps-single, Keeps-sql_step, steps-Finishes, custom_tool_steps-Ends,
}
use omnibase.Tools.Compose.References.{has-refs_of, named-Below}
use omnibase.Session.{Backend, Session}
use omnibase.Config.{get_connection}
use omnibase.Tools.Cycles.{named_tool, add_named, refs_of, compose_refs, edges_of, enough}
use omnibase.Tools.Cycles.Sound.{Below, IsGrounded}
use omnibase.Tools.Cycles.Depth.{within_enough}
use omnibase.Tools.PipelineStep.{step_args, remember_result, run_sql_step}
use omnibase.Tools.Steps.{first_result}
use omnibase.Tools.Compose.{
  mode_of, Call, run_step, run_pipeline, execute_composed_raw, raw_by_mode, execute_raw,
  execute_composed_tool, by_mode, execute_custom_tool, tools_of, call_tool,
}

-- Without tools there are no references.
no_tools : (n : Text) → IsGrounded (edges_of []) n
unfolding edges_of
no_tools n =
    Acc.intro n (λ m below. let none_below : false ≡ true = (unfold has lookup in below) in cc)

module _ {W : Type 0} (astify : Text → Option Value) (host : Conversions) (backend : Backend W)
    (config : OmnibaseConfig) where
  Ending : Call astify host backend config → CustomToolConfig → Type 0
  Ending call tool = (args : Map Value) → Finishes Free (call tool args)

  -- The tools that a list of names stands for end.
  Reaches : Call astify host backend config → List Text → Type 0
  Reaches call refs =
      (t : Text) (tool : CustomToolConfig)
      → has t refs ≡ true
      → lookup t (tools_of config) ≡ some tool
      → Ending call tool

  call_tool-Finishes :
      (call : Call astify host backend config) (found : Option CustomToolConfig) (args : Map Value)
      → ((tool : CustomToolConfig) → found ≡ some tool → Ending call tool)
      → Finishes Free (call_tool astify host backend config call found args)
  unfolding Ending
  call_tool-Finishes call none args h =
      Finishes-run Free (throw type_error) (Keeps-throw type_error)
  call_tool-Finishes call (some tool) args h = h tool refl args

  run_step-Finishes :
      (call : Call astify host backend config) (conn : ConnectionConfig) (tool : CustomToolConfig)
      (args : Map Value) (context : Map QueryResult) (step : ComposeStep) (named : List Text)
      → ((t : Text) (ref : CustomToolConfig)
          → has t (add_named named []) ≡ true
          → lookup t (tools_of config) ≡ some ref
          → Ending call ref)
      → Finishes Free (run_step astify host backend config call conn tool args context step named)
  run_step-Finishes call conn tool args context step [] h =
      Finishes-run Free (run_sql_step astify host backend conn tool args context step.sql)
        (Keeps-sql_step astify host backend conn tool args context step.sql)
  run_step-Finishes call conn tool args context step (name ∷ more) h =
      call_tool-Finishes call (lookup name (tools_of config))
        (step_args args (or_else step.args []))
        (λ ref found. h name ref (unfold has add in rw (text_eq_refl name) refl) found)

  add_named_more :
      (t : Text) (named refs : List Text)
      → has t (add_named named []) ≡ true
      → has t (add_named named refs) ≡ true
  add_named_more t [] refs h = let bad : false ≡ true = (unfold has in h) in cc
  add_named_more t (n ∷ ns) refs h =
      let nothing : has t [] ≡ false = unfold has in refl in
      let alone : (text_eq n t || has t []) ≡ true = rw (has-add n t []) at h in
      rw (has-add n t refs) (ground arith)

  run_pipeline-Finishes :
      (call : Call astify host backend config) (conn : ConnectionConfig) (tool : CustomToolConfig)
      (args : Map Value) (context : Map QueryResult) (last : Option QueryResult) (refs : List Text)
      (steps : List ComposeStep)
      → Reaches call (refs_of refs steps)
      → Finishes Free
          (run_pipeline astify host backend config call conn tool args context last steps)
  unfolding run_pipeline Reaches refs_of
  run_pipeline-Finishes call conn tool args context last refs [] h =
      Finishes-run Free (lift (first_result none last)) (Keeps-lift (first_result none last))
  run_pipeline-Finishes call conn tool args context last refs (step ∷ steps) h =
      Finishes-bind Free _ _
        (run_step-Finishes call conn tool args context step (named_tool step.tool)
          (λ t ref listed found.
            h t ref
              (has-refs_of t (add_named (named_tool step.tool) refs) steps
                (add_named_more t (named_tool step.tool) refs listed))
              found))
        (λ result.
          run_pipeline-Finishes call conn tool args (remember_result step.as_name result context)
            (some result) (add_named (named_tool step.tool) refs) steps h)

  execute_composed_raw-Finishes :
      (call : Call astify host backend config) (tool : CustomToolConfig) (steps : List ComposeStep)
      (args : Map Value)
      → Reaches call (refs_of [] steps)
      → Finishes Free (execute_composed_raw astify host backend config call tool steps args)
  unfolding execute_composed_raw
  execute_composed_raw-Finishes call tool steps args h =
      Finishes-bind Free _ _
        (Finishes-run Free (lift (get_connection config tool.connection)) (Keeps-lift _))
        (λ conn. run_pipeline-Finishes call conn tool args [] none [] steps h)

  raw_by_mode-Finishes :
      (call : Call astify host backend config) (tool : CustomToolConfig) (args : Map Value)
      (compose : Option (List ComposeStep)) (steps : Option (List CustomToolStep))
      → Reaches call (compose_refs compose)
      → Finishes Free
          (raw_by_mode astify host backend config call tool args (mode_of compose steps))
  raw_by_mode-Finishes call tool args none none h =
      Finishes-run Free _ (Keeps-single astify host backend config tool args)
  raw_by_mode-Finishes call tool args none (some steps) h =
      steps-Finishes astify host backend config tool args
  raw_by_mode-Finishes call tool args (some []) none h =
      Finishes-run Free _ (Keeps-single astify host backend config tool args)
  raw_by_mode-Finishes call tool args (some []) (some steps) h =
      steps-Finishes astify host backend config tool args
  raw_by_mode-Finishes call tool args (some (step ∷ rest)) steps h =
      execute_composed_raw-Finishes call tool (step ∷ rest) args h

  by_mode-Ends :
      (fuel : ℕ) (name : Text) (tool : CustomToolConfig) (args : Map Value)
      (compose : Option (List ComposeStep)) (steps : Option (List CustomToolStep))
      → Reaches (execute_raw astify host backend config fuel) (compose_refs compose)
      → Ends Free (by_mode astify host backend config fuel name tool args (mode_of compose steps))
  unfolding execute_composed_tool
  by_mode-Ends fuel name tool args none none h = λ s free. (_, refl)
  by_mode-Ends fuel name tool args none (some steps) h =
      custom_tool_steps-Ends astify host backend config name tool args
  by_mode-Ends fuel name tool args (some []) none h = λ s free. (_, refl)
  by_mode-Ends fuel name tool args (some []) (some steps) h =
      custom_tool_steps-Ends astify host backend config name tool args
  by_mode-Ends fuel name tool args (some (step ∷ rest)) steps h =
      Ends-bind Free _ _
        (Finishes-run Free (lift (get_connection config tool.connection)) (Keeps-lift _))
        (λ conn. Ends-catch Free _ _ (
          Ends-bind Free _ _
            (execute_composed_raw-Finishes (execute_raw astify host backend config fuel) tool
              (step ∷ rest) args h)
            (λ result s free. (_, refl))))

  -- Every tool of the configuration, run on this fuel, ends.
  EndsAt : ℕ → Text → Type 0
  EndsAt fuel name =
      (tool : CustomToolConfig)
      → lookup name (tools_of config) ≡ some tool
      → Ending (execute_raw astify host backend config fuel) tool

  EndsAt-suc :
      (fuel : ℕ) (name : Text)
      → ((t : Text) → Below (edges_of (tools_of config)) t name → EndsAt fuel t)
      → EndsAt (suc fuel) name
  unfolding EndsAt Ending execute_raw Reaches
  EndsAt-suc fuel name below tool found args =
      raw_by_mode-Finishes (execute_raw astify host backend config fuel) tool args tool.compose
        tool.steps
        (λ t ref listed known.
          below t (named-Below (tools_of config) name tool t found listed) ref known)

  grounded_tool-Ends :
      ((n : Text) → IsGrounded (edges_of (tools_of config)) n)
      → (name : Text) (tool : CustomToolConfig) (args : Map Value)
      → lookup name (tools_of config) ≡ some tool
      → Ends Free (
          execute_custom_tool astify host backend config
            (enough (edges_of (tools_of config)))
            name
            tool
            args)
  unfolding execute_custom_tool Reaches EndsAt
  grounded_tool-Ends grounded name tool args found =
      by_mode-Ends (enough (edges_of (tools_of config))) name tool args tool.compose tool.steps
        (λ t ref listed known.
          within_enough (edges_of (tools_of config)) grounded EndsAt EndsAt-suc t ref known)

  validated-IsGrounded :
      validate_custom_tools config ≡ some (ok tt)
      → (n : Text) → IsGrounded (edges_of (tools_of config)) n
  validated-IsGrounded valid = elim (Option-cases config.tools) [
    | inl missing ↦ rw (ap (λ o. or_else o []) missing) no_tools
    | inr (tools, present) ↦ elim (validate_custom_tools-decides config tools present) [
      | inl (passed, fit, grounded) ↦ rw (ap (λ o. or_else o []) present) grounded
      | inr (e, refused) ↦ cc
    ]
  ]

  -- Under a configuration that the validator accepts, and in a session that holds no transaction lock,
  -- a run of any of its tools, composed of others or not, has an outcome on `enough` fuel, whatever its
  -- arguments, the database and the rest of the session: it returns or throws, and it neither runs out
  -- of fuel nor waits for a lock for ever.
  pub execute_custom_tool-ends :
      validate_custom_tools config ≡ some (ok tt)
      → (name : Text) (tool : CustomToolConfig) (args : Map Value) (s : Session W)
      → lookup name (tools_of config) ≡ some tool
      → s.locked ≡ []
      → (r : Result FormattedQueryResult × Session W) × (execute_custom_tool astify host backend
            config
            (enough (edges_of (tools_of config)))
            name
            tool
            args
            s
          ≡ some r)
  execute_custom_tool-ends valid name tool args s found free =
      grounded_tool-Ends (validated-IsGrounded valid) name tool args found s free
