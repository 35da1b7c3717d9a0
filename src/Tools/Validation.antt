-- ===== src/Tools/Validation.antt =====
-- src/custom-tools.ts: `validateCustomTools` and `validateComposePipeline`.
-- The permission of a tool is of the type of levels here, so that its test has nothing to refuse.
-- Each refusal carries the name of the tool; a cycle is refused with the chain of names. A step that
-- refers to a tool by a name that Object.prototype defines is refused here, where the code finds it.
pub mod Laws
use omnibase.Prelude.{
  ℕ, zero, suc, ◌+◌, Bool, true, false, not, ◌&&◌, ◌||◌, Option, none, some, List, [], ◌∷◌, ◌==◌,
  ltb, length, all, keep, flat_map, map, or_else, is_some, if◌then◌else◌,
}
use omnibase.Text.{Text, codes, is_letter, is_word, join, text_runs}
use omnibase.Values.{Value, undefined}
use omnibase.Collections.{Map, lookup, has, add, keys, unique, collections_run}
use omnibase.Types.{
  ParameterType, string, number, boolean, enum, unlisted, CustomToolParameter, CustomToolStep,
  ComposeStep, CustomToolConfig, ConnectionConfig, OmnibaseConfig, Error, invalid_tool_config,
}
use omnibase.Exec.{Result, ok, err}
use omnibase.Exec.Pure.{◌>>◌, reject_if}
use omnibase.Config.{get_connection, config_runs}
use omnibase.Template.{starts_name, extract_placeholders, template_runs}
use omnibase.Tools.Cycles.{
  Outcome, done, cycle, out_of_fuel, detect_compose_circular_deps, cycles_run,
}

abbrev pub built_in_tool_names : List Text
built_in_tool_names = map codes (
    "list_connections" ∷ "test_connection" ∷ "get_schema" ∷ "execute_sql" ∷ "explain_query"
    ∷ "get_sample" ∷ "search_schema" ∷ "list_tables" ∷ "get_relationships" ∷ "get_indexes"
    ∷ "validate_query" ∷ "get_table_stats" ∷ "get_distinct_values" ∷ "query_history" ∷ [])

-- `/^[a-zA-Z][a-zA-Z0-9_]*$/`
abbrev pub is_tool_name : Text → Bool
is_tool_name [] = false
is_tool_name (c ∷ s) = is_letter c && all is_word s

-- `/^[a-zA-Z_][a-zA-Z0-9_]*$/`
abbrev pub is_identifier : Text → Bool
is_identifier [] = false
is_identifier (c ∷ s) = starts_name c && all is_word s

-- `!text` at a text that may be missing
abbrev pub is_missing : Option Text → Bool
is_missing none = true
is_missing (some []) = true
is_missing (some (_ ∷ _)) = false

abbrev pub count {ℓ} : {A : Type ℓ} → Option A → ℕ
count none = 0
count (some a) = 1

-- `definedModes`
abbrev pub defined_modes : CustomToolConfig → ℕ
defined_modes tool = count tool.sql + (count tool.steps + count tool.compose)

abbrev pub names_of {ℓ} : {V : Type ℓ} → Option (Map V) → List Text
names_of none = []
names_of (some m) = keys m

abbrev pub known_connection : Error → Result ConnectionConfig → Result (Unit {0})
known_connection e (ok conn) = ok tt
known_connection e (err other) = err e

abbrev returning : CustomToolStep → Bool
returning step = or_else step.is_return false

unfoldable pub check_steps : Error → Option (List CustomToolStep) → Result (Unit {0})
check_steps e none = ok tt
check_steps e (some steps) = do
  reject_if (length steps == 0) e
  reject_if (ltb 1 (length (keep returning steps))) e

-- A reference to a tool that the configuration does not have.
abbrev pub unknown_tool : Map CustomToolConfig → Option Text → Bool
unknown_tool tools none = false
unknown_tool tools (some t) = not (is_some (lookup t tools))

abbrev pub both_or_neither : Bool → Bool → Bool
both_or_neither true b = b
both_or_neither false b = not b

module _ (tools : Map CustomToolConfig) (e : Error) (params : List Text) where
  -- The tests of one step of a pipeline, behind the names of the steps before it.
  unfoldable pub check_compose_step : List Text → ComposeStep → Result (Unit {0})
  check_compose_step seen step =
      let name = or_else step.as_name [] in
      do
        reject_if (is_missing step.as_name) e
        reject_if (not (is_identifier name)) e
        reject_if (has name seen) e
        reject_if (has name params) e
        reject_if (both_or_neither (is_some step.tool) (is_some step.sql)) e
        reject_if (unknown_tool tools step.tool) e

  unfoldable pub check_compose_steps : List Text → List ComposeStep → Result (Unit {0})
  check_compose_steps seen [] = ok tt
  check_compose_steps seen (step ∷ steps) =
      check_compose_step seen step >> check_compose_steps (add (or_else step.as_name []) seen) steps

  unfoldable pub validate_compose_pipeline : Option (List ComposeStep) → Result (Unit {0})
  validate_compose_pipeline none = ok tt
  validate_compose_pipeline (some compose) = do
    reject_if (length compose == 0) e
    check_compose_steps [] compose

  -- `placeholders`, each of which must have a parameter.
  unfoldable pub check_placeholders : List Text → Result (Unit {0})
  check_placeholders [] = ok tt
  check_placeholders (p ∷ ps) = reject_if (not (has p params)) e >> check_placeholders ps

abbrev statements_of : Option (List CustomToolStep) → List Text
statements_of none = []
statements_of (some steps) = map (λ step. step.sql) steps

abbrev first_of : Option Text → List Text → List Text
first_of none others = others
first_of (some sql) others = sql ∷ []

-- `allSql`, which a pipeline does not have
abbrev pub templates : CustomToolConfig → Option (List ComposeStep) → List Text
templates tool none = first_of tool.sql (statements_of tool.steps)
templates tool (some compose) = []

abbrev pub template_names : CustomToolConfig → List Text
template_names tool = unique (flat_map extract_placeholders (templates tool tool.compose))

abbrev pub lacks_values : ParameterType → Option (List Text) → Bool
lacks_values enum none = true
lacks_values enum (some vs) = length vs == 0
lacks_values string vs = false
lacks_values number vs = false
lacks_values boolean vs = false
lacks_values unlisted vs = false

abbrev pub lacks_default : Option Bool → Value → Bool
lacks_default (some false) undefined = true
lacks_default (some true) v = false
lacks_default none v = false
lacks_default (some false) Value.null = false
lacks_default (some false) (Value.bool _) = false
lacks_default (some false) (Value.num _) = false
lacks_default (some false) (Value.str _) = false
lacks_default (some false) (Value.arr _) = false
lacks_default (some false) (Value.obj _) = false

unfoldable pub check_parameters : Error → Map CustomToolParameter → Result (Unit {0})
check_parameters e [] = ok tt
check_parameters e ((name, param) ∷ params) =
    reject_if (lacks_values param.type param.values) e
    >> (reject_if (lacks_default param.required param.default) e >> check_parameters e params)

-- One round of the loop over the tools.
unfoldable pub validate_tool :
    OmnibaseConfig → Map CustomToolConfig → Text → CustomToolConfig → Result (Unit {0})
validate_tool config tools name tool =
    let e = invalid_tool_config name in
    do
      reject_if (not (is_tool_name name)) e
      reject_if (has name built_in_tool_names) e
      reject_if (is_missing tool.description) e
      known_connection e (get_connection config tool.connection)
      reject_if (ltb 1 (defined_modes tool)) e
      reject_if (defined_modes tool == 0) e
      check_steps e tool.steps
      validate_compose_pipeline tools e (names_of tool.parameters) tool.compose
      check_placeholders tools e (names_of tool.parameters) (template_names tool)
      check_parameters e (or_else tool.parameters [])

unfoldable pub validate_tools :
    OmnibaseConfig → Map CustomToolConfig → Map CustomToolConfig → Result (Unit {0})
validate_tools config tools [] = ok tt
validate_tools config tools ((name, tool) ∷ rest) =
    validate_tool config tools name tool >> validate_tools config tools rest

-- What the search for cycles makes the validator do; `none` where the search ran out of fuel.
abbrev pub report_cycle : Outcome → Option (Result (Unit {0}))
report_cycle (done st) = some (ok tt)
report_cycle (cycle path) = some (err (invalid_tool_config (join (codes " -> ") path)))
report_cycle out_of_fuel = none

abbrev pub then_cycles : Outcome → Result (Unit {0}) → Option (Result (Unit {0}))
then_cycles o (ok x) = report_cycle o
then_cycles o (err e) = some (err e)

abbrev pub validate_all :
    OmnibaseConfig → Option (Map CustomToolConfig) → Option (Result (Unit {0}))
validate_all config none = some (ok tt)
validate_all config (some tools) =
    then_cycles (detect_compose_circular_deps tools) (validate_tools config tools tools)

unfoldable pub validate_custom_tools : OmnibaseConfig → Option (Result (Unit {0}))
validate_custom_tools config = validate_all config config.tools

-- Opens what this file defines, to evaluate it on concrete inputs.
unfoldable pub validation_runs : Unit {0}
unfolding check_steps check_compose_step check_compose_steps validate_compose_pipeline
    check_placeholders check_parameters validate_tool validate_tools validate_custom_tools
    config_runs template_runs cycles_run
validation_runs = tt
