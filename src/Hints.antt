-- ===== src/Hints.antt =====
-- src/schema-hint-manager.ts: the hints on tables that the descriptions of tools carry. The host's
-- two orders, `localeCompare` on the names of tables and the plain `sort` of texts, are parameters.
pub mod Length
use omnibase.Prelude.{
  ℕ, zero, suc, ◌+◌, ◌-◌, Bool, true, false, Option, none, some, List, [], ◌∷◌, ◌++◌, map, length,
  take, ltb, leb, if◌then◌else◌,
}
use omnibase.Text.{Text, codes, join, print_ℕ, text_runs}
use omnibase.Collections.{Map, insert, collections_run}
use omnibase.Types.{TableInfo, SchemaInfo}

abbrev pub max_hint_length : ℕ
max_hint_length = 800

abbrev max_cols_per_table : ℕ
max_cols_per_table = 12

abbrev max_tables : ℕ
max_tables = 20

pub record Sorting : Type 0 where
  pub by_name : List TableInfo → List TableInfo
  pub sort : List Text → List Text

unfoldable pub format_table : ℕ → TableInfo → Text
format_table max_cols t =
    let cols = map (λ c. c.name) (take max_cols t.columns) in
    let suffix = if ltb max_cols (length t.columns) then codes ", ..." else [] in
    t.name ++ (codes " (" ++ (join (codes ", ") cols ++ (suffix ++ codes ")")))

module _ (sorting : Sorting) where
  -- `formatTables`, and the body of the loop of `truncateHint`, which differ in the columns shown.
  unfoldable pub format_tables : ℕ → List TableInfo → Text
  format_tables max_cols tables =
      let sorted = sorting.by_name tables in
      let formatted = map (format_table max_cols) (take max_tables sorted) in
      let rest = codes "+" ++ (print_ℕ (length sorted - max_tables) ++ codes " more tables") in
      join (codes ", ")
        (if ltb max_tables (length sorted) then formatted ++ rest ∷ [] else formatted)

  abbrev conn_label : Map SchemaInfo → Text → Text
  conn_label schemas name = if ltb 1 (length schemas) then name ++ codes ": " else []

  abbrev assemble : List Text → Text
  assemble parts = codes "Available tables: " ++ join (codes " | ") parts

  unfoldable pub hint_with : ℕ → Map SchemaInfo → Text
  hint_with max_cols schemas =
      assemble (map (λ p. conn_label schemas p.0 ++ format_tables max_cols p.1.tables) schemas)

  unfoldable pub name_list : List TableInfo → Text
  name_list tables =
      let names = take max_tables (sorting.sort (map (λ t. t.name) tables)) in
      let overflow = codes " (+" ++ (print_ℕ (length tables - max_tables) ++ codes " more)") in
      join (codes ", ") names ++ (if ltb max_tables (length tables) then overflow else [])

  unfoldable pub hint_of_names : Map SchemaInfo → Text
  hint_of_names schemas =
      assemble (map (λ p. conn_label schemas p.0 ++ name_list p.1.tables) schemas)

  -- Table names only, cut to the limit.
  unfoldable pub fallback : Map SchemaInfo → Text
  fallback schemas = take (max_hint_length - 3) (hint_of_names schemas) ++ codes "..."

  -- The loop of `truncateHint`: `rounds` are left, with four columns in the last one.
  unfoldable pub truncate_hint : ℕ → Map SchemaInfo → Text
  truncate_hint zero schemas = fallback schemas
  truncate_hint (suc rounds) schemas =
      let candidate = hint_with (rounds + 4) schemas in
      let rest = truncate_hint rounds schemas in
      if leb (length candidate) max_hint_length then candidate else rest

  unfoldable pub build_hint : Map SchemaInfo → Text
  build_hint [] = []
  build_hint (p ∷ schemas) =
      let joined = hint_with max_cols_per_table (p ∷ schemas) in
      if leb (length joined) max_hint_length then joined else truncate_hint 8 (p ∷ schemas)

-- The tools hold a handle each, with the description they were registered with.
pub record HintManager (H : Type 0) : Type 0 where
  pub tools : List (H × Text)
  pub schemas_by_connection : Map SchemaInfo
  pub enabled : Bool

-- The description of a tool with a hint, which may be empty.
abbrev pub described : Text → Text → Text
described [] base = base
described (c ∷ s) base = base ++ (codes "\n\n" ++ (c ∷ s))

module _ {H : Type 0} where
  abbrev pub register_tool : H → Text → HintManager H → HintManager H
  register_tool handle base m = record m { tools = m.tools ++ (handle, base) ∷ [] }

  -- The new state, with the calls of `handle.update` in their order.
  unfoldable pub update_hints :
      Sorting → Text → SchemaInfo → HintManager H → HintManager H × List (H × Text)
  update_hints sorting name schema m =
      let later = record m { schemas_by_connection = insert name schema m.schemas_by_connection } in
      let hint = build_hint sorting later.schemas_by_connection in
      let updates = map (λ t. (t.0, described hint t.1)) m.tools in
      if m.enabled then (later, updates) else (m, [])

-- Opens what this file defines, to evaluate it on concrete inputs.
unfoldable pub hints_run : Unit {0}
unfolding format_table format_tables hint_with name_list hint_of_names fallback truncate_hint
    build_hint update_hints text_runs collections_run
hints_run = tt
