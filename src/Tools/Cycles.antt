-- ===== src/Tools/Cycles.antt =====
-- src/custom-tools.ts: `detectComposeCircularDeps`. The search recurs on fuel; Enough
-- shows that one more than the number of tools that refer to others is enough.
pub mod Sound
pub mod Enough
pub mod Depth
use omnibase.Prelude.{
  ℕ, zero, suc, ◌+◌, Bool, true, false, Option, none, some, List, [], ◌∷◌, ◌++◌, length, or_else,
  if◌then◌else◌,
}
use omnibase.Text.{Text, codes, text_eq}
use omnibase.Collections.{Map, lookup, has, add, remove, keys, collections_run}
use omnibase.Types.{ComposeStep, CustomToolConfig}

-- `if (step.tool)`
abbrev pub named_tool : Option Text → List Text
named_tool none = []
named_tool (some []) = []
named_tool (some (c ∷ s)) = (c ∷ s) ∷ []

abbrev pub add_named : List Text → List Text → List Text
add_named [] refs = refs
add_named (t ∷ ts) refs = add t refs

-- The set of tools that a pipeline refers to.
unfoldable pub refs_of : List Text → List ComposeStep → List Text
refs_of refs [] = refs
refs_of refs (step ∷ steps) = refs_of (add_named (named_tool step.tool) refs) steps

abbrev pub edge : Text → List Text → Map (List Text) → Map (List Text)
edge name [] rest = rest
edge name (r ∷ refs) rest = (name, r ∷ refs) ∷ rest

abbrev pub compose_refs : Option (List ComposeStep) → List Text
compose_refs none = []
compose_refs (some steps) = refs_of [] steps

-- The tools that refer to others, with what they refer to.
unfoldable pub edges_of : Map CustomToolConfig → Map (List Text)
edges_of [] = []
edges_of ((name, tool) ∷ tools) = edge name (compose_refs tool.compose) (edges_of tools)

abbrev pub neighbors_of : Map (List Text) → Text → List Text
neighbors_of edges node = or_else (lookup node edges) []

pub record Search : Type 0 where
  pub visited : List Text
  pub in_stack : List Text

pub data Outcome : Type 0 where
  done : Search → Outcome
  cycle : List Text → Outcome
  out_of_fuel : Outcome

abbrev pub and_then : (Search → Outcome) → Outcome → Outcome
and_then f (done st) = f st
and_then f (cycle c) = cycle c
and_then f out_of_fuel = out_of_fuel

-- A loop over nodes that stops at the first exception.
unfoldable pub visit_all : (Text → Search → Outcome) → List Text → Search → Outcome
visit_all visit [] st = done st
visit_all visit (n ∷ ns) st = and_then (visit_all visit ns) (visit n st)

-- `path.slice(path.indexOf(node)).concat(node)`
unfoldable pub cycle_from : Text → List Text → List Text
cycle_from node [] = node ∷ []
cycle_from node (n ∷ ns) =
    let later = cycle_from node ns in if text_eq n node then (n ∷ ns) ++ node ∷ [] else later

abbrev pub enter : Text → Search → Search
enter node st = record { visited = add node st.visited; in_stack = add node st.in_stack }

abbrev pub leave : Text → Search → Search
leave node st = record { visited = st.visited; in_stack = remove node st.in_stack }

module _ (edges : Map (List Text)) where
  unfoldable pub dfs : ℕ → List Text → Text → Search → Outcome
  dfs zero path node st = out_of_fuel
  dfs (suc fuel) path node st =
      let deeper =
        and_then (λ s. done (leave node s))
          (visit_all (dfs fuel (path ++ node ∷ [])) (neighbors_of edges node) (enter node st)) in
      if has node st.in_stack
      then cycle (cycle_from node path)
      else if has node st.visited
      then done st
      else deeper

  -- `if (!visited.has(node)) dfs(node, [])`
  abbrev pub visit_root : ℕ → Text → Search → Outcome
  visit_root fuel node st =
      let fresh = dfs fuel [] node st in if has node st.visited then done st else fresh

  unfoldable pub search_cycles : ℕ → Outcome
  search_cycles fuel =
      visit_all (visit_root fuel) (keys edges) (record { visited = []; in_stack = [] })

-- The number of tools that refer to others, plus one.
abbrev pub enough : Map (List Text) → ℕ
enough edges = suc (length edges)

unfoldable pub detect_compose_circular_deps : Map CustomToolConfig → Outcome
detect_compose_circular_deps tools =
    let edges = edges_of tools in search_cycles edges (enough edges)

-- Opens what this file defines, to evaluate it on concrete inputs.
unfoldable pub cycles_run : Unit {0}
unfolding refs_of edges_of visit_all cycle_from dfs search_cycles detect_compose_circular_deps
    collections_run
cycles_run = tt
