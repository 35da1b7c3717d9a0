-- ===== src/Explain.antt =====
-- src/tools/explain-query.ts: the plan of a query, and its summary.
pub mod Summary
use omnibase.Prelude.{
  ℕ, Bool, true, false, not, ◌&&◌, ◌||◌, Option, none, some, List, [], ◌∷◌, ◌++◌, map, any,
  find_index, is_some, get_elem?, or_else, if◌then◌else◌,
}
use omnibase.Text.{Text, codes, text_eq, to_lower, starts_with, includes, join, text_runs}
use omnibase.Values.{Value, undefined, null, Conversions}
use omnibase.Collections.{add, collections_run}
use omnibase.Types.{OmnibaseConfig, QueryResult}
use omnibase.Exec.{Result, ok, err, Exec, pure, lift, ◌>>=◌, ◌>>◌}
use omnibase.Config.{get_connection, config_runs}
use omnibase.Session.{Backend, Session}
use omnibase.Manager.{explain_query, manager_runs}

abbrev place : Text → List Text → Option ℕ
place name columns = find_index (λ c. text_eq (to_lower c) name) columns

abbrev cell : List Value → ℕ → Value
cell row i = or_else (get_elem? row i) undefined

-- `a || b` of two texts
abbrev first_filled : Text → Text → Text
first_filled [] other = other
first_filled (c ∷ s) other = c ∷ s

abbrev add_filled : Text → List Text → List Text
add_filled [] names = names
add_filled (c ∷ s) names = add (c ∷ s) names

abbrev any_of : Text → List Text → Bool
any_of text names = any (text_eq text) names

-- The sets and flags that the loop over the rows fills.
pub record Findings : Type 0 where
  pub tables : List Text
  pub indexes : List Text
  pub has_sort : Bool
  pub has_agg : Bool

abbrev names_index : Text → Bool
names_index name =
    starts_with name (codes "idx_")
    || includes name (codes "autoindex")
    || includes name (codes "index")

unfoldable pub note_row : Text → Text → Findings → Findings
note_row opcode name found = record {
  tables =
      if text_eq opcode (codes "openread") || text_eq opcode (codes "openwrite")
      then add_filled name found.tables
      else found.tables;
  indexes =
      if text_eq opcode (codes "openread") && names_index name
      then add_filled name found.indexes
      else found.indexes;
  has_sort =
      found.has_sort
      || any_of opcode (codes "sorteropen" ∷ codes "sorterinsert" ∷ codes "sort" ∷ []);
  has_agg =
      found.has_agg
      || any_of opcode (
          codes "aggregatestep" ∷ codes "aggregatefinal" ∷ codes "aggstep" ∷ codes "aggfinal" ∷ []);
}

unfoldable pub scan_line : List Text → Text → Text
scan_line indexes t =
    if any (λ idx. includes idx (to_lower t) || includes idx t) indexes
    then codes "INDEX LOOKUP " ++ t
    else codes "SCAN " ++ t

abbrev index_lines : List Text → List Text
index_lines [] = []
index_lines (i ∷ indexes) = (codes "Using indexes: " ++ join (codes ", ") (i ∷ indexes)) ∷ []

abbrev line_if : Bool → Text → List Text
line_if true line = line ∷ []
line_if false line = []

abbrev or_simple : List Text → List Text
or_simple [] = codes "Simple query (no table scans detected)" ∷ []
or_simple (line ∷ lines) = line ∷ lines

unfoldable pub summary_lines : Findings → List Text
summary_lines found = or_simple (
    map (scan_line found.indexes) found.tables
    ++ (index_lines found.indexes
        ++ (line_if found.has_sort (codes "SORT") ++ line_if found.has_agg (codes "AGGREGATE"))))

module _ (host : Conversions) where
  -- `String(row[i] ?? "")`, or the empty text where there is no such column
  abbrev nullish_text : Value → Text
  nullish_text undefined = []
  nullish_text null = []
  nullish_text v = host.to_string v

  abbrev text_at : Option ℕ → List Value → Text
  text_at none row = []
  text_at (some i) row = nullish_text (cell row i)

  unfoldable pub note_rows : List Text → ℕ → List (List Value) → Findings → Findings
  note_rows columns opcode_at [] found = found
  note_rows columns opcode_at (row ∷ rows) found =
      let comment = text_at (place (codes "comment") columns) row in
      let p4 = text_at (place (codes "p4") columns) row in
      note_rows columns opcode_at rows
        (note_row (to_lower (host.to_string (cell row opcode_at))) (first_filled p4 comment) found)

  unfoldable pub summarize_bytecode_format : List Text → List (List Value) → ℕ → List Text
  summarize_bytecode_format columns rows opcode_at = summary_lines (
      note_rows columns opcode_at rows
        (record { tables = []; indexes = []; has_sort = false; has_agg = false }))

  abbrev column_texts : ℕ → List (List Value) → List Text
  column_texts i rows = map (λ row. host.to_string (cell row i)) rows

  -- `r.join(" | ")`
  abbrev row_text : List Value → Text
  row_text row = join (codes " | ") (map nullish_text row)

  abbrev tabular : List (List Value) → List Text
  tabular [] = codes "No query plan available" ∷ []
  tabular (row ∷ rows) = map row_text (row ∷ rows)

  abbrev is_query_plan : List Text → Bool
  is_query_plan (c ∷ []) = includes (to_lower c) (codes "query plan")
  is_query_plan _ = false

  abbrev by_statement : List Text → List (List Value) → Option ℕ → List Text
  by_statement columns rows (some i) = column_texts i rows
  by_statement columns rows none = tabular rows

  abbrev by_opcode : List Text → List (List Value) → Option ℕ → List Text
  by_opcode columns rows (some i) = summarize_bytecode_format columns rows i
  by_opcode columns rows none =
      if is_query_plan columns
      then column_texts 0 rows
      else by_statement columns rows (place (codes "stmttext") columns)

  abbrev by_detail : List Text → List (List Value) → Option ℕ → List Text
  by_detail columns rows (some i) = column_texts i rows
  by_detail columns rows none = by_opcode columns rows (place (codes "opcode") columns)

  unfoldable pub summarize_explain_output : List Text → List (List Value) → List Text
  summarize_explain_output columns rows = by_detail columns rows (place (codes "detail") columns)

  -- The summary, with the plan itself.
  unfoldable pub handle_explain_query :
      {W : Type 0}
      → Backend W
      → OmnibaseConfig
      → Text
      → Text
      → Option Bool
      → Exec (Session W) (List Text × QueryResult)
  handle_explain_query backend config connection query analyze = do
    conn ← lift (get_connection config connection)
    result ← explain_query backend conn query analyze
    pure (summarize_explain_output result.columns result.rows, result)

-- Opens what this file defines, to evaluate it on concrete inputs.
unfoldable pub explain_runs : Unit {0}
unfolding note_row scan_line summary_lines note_rows summarize_bytecode_format
    summarize_explain_output handle_explain_query config_runs manager_runs collections_run
explain_runs = tt
