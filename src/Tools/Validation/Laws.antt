-- ===== src/Tools/Validation/Laws.antt =====
-- What a configuration that passes the validator guarantees to the execution of its tools.
use Prim.Native.Nat.{◌<◌}
use omnibase.Prelude.{
  ◌≡◌, refl, ap, ◌∙◌, ◌⊎◌, inl, inr, true, false, Option, none, some, List, [], ◌∷◌, arith, All,
  is_some, or_else, length,
}
use omnibase.Text.{Text, codes, join}
use omnibase.Collections.{Map, has, add}
use omnibase.Types.{
  ComposeStep, CustomToolConfig, ConnectionConfig, OmnibaseConfig, Error, invalid_tool_config,
}
use omnibase.Exec.{Result, ok, err}
use omnibase.Exec.Laws.{Result-cases}
use omnibase.Exec.Pure.Laws.{>>-eq-ok}
use omnibase.Config.{get_connection}
use omnibase.Tools.Cycles.{edges_of, detect_compose_circular_deps}
use omnibase.Tools.Cycles.Sound.{IsGrounded}
use omnibase.Tools.Cycles.Enough.{detect_compose_circular_deps-ends}
use omnibase.Tools.Validation.{
  is_tool_name, is_identifier, defined_modes, names_of, known_connection, check_compose_step,
  check_compose_steps, validate_compose_pipeline, check_placeholders, validate_tool, validate_tools,
  validate_custom_tools, template_names, built_in_tool_names, unknown_tool, both_or_neither,
  then_cycles, validate_all,
}

-- What execution needs of one step of a pipeline.
pub record IsStep (tools : Map CustomToolConfig) (params seen : List Text) (step : ComposeStep)
    : Type 0 where
  pub named : is_identifier (or_else step.as_name []) ≡ true
  pub fresh : has (or_else step.as_name []) seen ≡ false
  pub unshadowed : has (or_else step.as_name []) params ≡ false
  pub one_kind : both_or_neither (is_some step.tool) (is_some step.sql) ≡ false
  pub known : unknown_tool tools step.tool ≡ false

-- Every step is in order behind the names of the steps before it.
abbrev pub AreSteps : Map CustomToolConfig → List Text → List Text → List ComposeStep → Type 0
AreSteps tools params seen [] = Unit
AreSteps tools params seen (step ∷ steps) =
    IsStep tools params seen step × AreSteps tools params (add (or_else step.as_name []) seen) steps

abbrev pub IsPipeline : Map CustomToolConfig → List Text → Option (List ComposeStep) → Type 0
IsPipeline tools params none = Unit
IsPipeline tools params (some steps) = (0 < length steps) × AreSteps tools params [] steps

-- What execution needs of one tool.
pub record IsTool (config : OmnibaseConfig) (tools : Map CustomToolConfig) (name : Text)
    (tool : CustomToolConfig) : Type 0 where
  pub named : is_tool_name name ≡ true
  pub unreserved : has name built_in_tool_names ≡ false
  pub connected : (conn : ConnectionConfig) × (get_connection config tool.connection ≡ ok conn)
  pub one_mode : defined_modes tool ≡ 1
  pub pipeline : IsPipeline tools (names_of tool.parameters) tool.compose
  pub covered : All (λ p. has p (names_of tool.parameters) ≡ true) (template_names tool)

abbrev pub AreTools : OmnibaseConfig → Map CustomToolConfig → Map CustomToolConfig → Type 0
AreTools config tools rest = All (λ entry. IsTool config tools entry.0 entry.1) rest

known_connection-ok :
    (e : Error) (r : Result ConnectionConfig)
    → known_connection e r ≡ ok tt
    → (conn : ConnectionConfig) × (r ≡ ok conn)
known_connection-ok e (ok conn) h = (conn, refl)
known_connection-ok e (err other) h = cc

module _ (tools : Map CustomToolConfig) (e : Error) (params : List Text) where
  check_compose_step-IsStep :
      (seen : List Text) (step : ComposeStep)
      → check_compose_step tools e params seen step ≡ ok tt
      → IsStep tools params seen step
  unfolding check_compose_step
  check_compose_step-IsStep seen step h = record {
    named = ground arith;
    fresh = ground arith;
    unshadowed = ground arith;
    one_kind = ground arith;
    known = ground arith;
  }

  check_compose_steps-AreSteps :
      (seen : List Text) (steps : List ComposeStep)
      → check_compose_steps tools e params seen steps ≡ ok tt
      → AreSteps tools params seen steps
  unfolding check_compose_steps
  check_compose_steps-AreSteps seen [] h = tt
  check_compose_steps-AreSteps seen (step ∷ steps) h =
      let (now, later) =
        >>-eq-ok (check_compose_step tools e params seen step)
          (check_compose_steps tools e params (add (or_else step.as_name []) seen) steps) h in
      (
        check_compose_step-IsStep seen step now,
        check_compose_steps-AreSteps (add (or_else step.as_name []) seen) steps later,
      )

  check_placeholders-All :
      (ps : List Text)
      → check_placeholders tools e params ps ≡ ok tt
      → All (λ p. has p params ≡ true) ps
  unfolding check_placeholders
  check_placeholders-All [] h = tt
  check_placeholders-All (p ∷ ps) h = (ground arith, check_placeholders-All ps (ground arith))

  validate_compose_pipeline-IsPipeline :
      (compose : Option (List ComposeStep))
      → validate_compose_pipeline tools e params compose ≡ ok tt
      → IsPipeline tools params compose
  unfolding validate_compose_pipeline
  validate_compose_pipeline-IsPipeline none h = tt
  validate_compose_pipeline-IsPipeline (some steps) h =
      (ground arith, check_compose_steps-AreSteps [] steps (ground arith))

validate_tool-IsTool :
    (config : OmnibaseConfig) (tools : Map CustomToolConfig) (name : Text) (tool : CustomToolConfig)
    → validate_tool config tools name tool ≡ ok tt
    → IsTool config tools name tool
unfolding validate_tool
validate_tool-IsTool config tools name tool h =
    let e = invalid_tool_config name in
    let params = names_of tool.parameters in
    record {
      named = ground arith;
      unreserved = ground arith;
      connected = known_connection-ok e (get_connection config tool.connection) (ground arith);
      one_mode = ground arith;
      pipeline = validate_compose_pipeline-IsPipeline tools e params tool.compose (ground arith);
      covered = check_placeholders-All tools e params (template_names tool) (ground arith);
    }

validate_tools-AreTools :
    (config : OmnibaseConfig) (tools rest : Map CustomToolConfig)
    → validate_tools config tools rest ≡ ok tt
    → AreTools config tools rest
unfolding validate_tools
validate_tools-AreTools config tools [] h = tt
validate_tools-AreTools config tools ((name, tool) ∷ rest) h =
    let (now, later) =
      >>-eq-ok (validate_tool config tools name tool) (validate_tools config tools rest) h in
    (
      validate_tool-IsTool config tools name tool now,
      validate_tools-AreTools config tools rest later,
    )

pub validate_custom_tools-decides :
    (config : OmnibaseConfig) (tools : Map CustomToolConfig)
    → config.tools ≡ some tools
    → ((validate_custom_tools config ≡ some (ok tt))
        × AreTools config tools tools
        × ((n : Text) → IsGrounded (edges_of tools) n))
      ⊎ ((e : Error) × (validate_custom_tools config ≡ some (err e)))
unfolding validate_custom_tools
validate_custom_tools-decides config tools has_tools =
    let run : validate_custom_tools config
        ≡ then_cycles (detect_compose_circular_deps tools) (validate_tools config tools tools) =
      ap (validate_all config) has_tools in
    elim (Result-cases (validate_tools config tools tools)) [
      | inr (e, refused) ↦ inr (e, run ∙ rw refused refl)
      | inl (x, passed) ↦ elim (detect_compose_circular_deps-ends tools) [
        | inl (st, ends, grounded) ↦ inl (
          run ∙ rw (passed, ends) refl,
          validate_tools-AreTools config tools tools (rw passed refl),
          grounded,
        )
        | inr (path, found) ↦
            inr (invalid_tool_config (join (codes " -> ") path), run ∙ rw (passed, found) refl)
      ]
    ]
