-- ===== src/Expander.antt =====
-- src/compose-expander.ts: references of a compose step to the results of earlier steps.
pub mod Laws
use omnibase.Prelude.{
  ℕ, zero, suc, Bool, true, false, Option, none, some, List, [], ◌∷◌, ◌++◌, ◌==◌, get_elem?,
  find_index, or_else, if◌then◌else◌,
}
use omnibase.Text.{Text, codes, text_eq, join}
use omnibase.Values.{Value, undefined, null, bool, num, str, arr, obj, values_run}
use omnibase.Collections.{Map, lookup, has, add}
use omnibase.Types.{QueryResult, Error, compose_error}
use omnibase.Exec.{Result, ok, err}
use omnibase.Exec.Pure.{◌>>=◌, ◌>>◌}
use omnibase.Template.{Token, unit, hole, holes, references, template_runs}

abbrev reference_key : Text × Text → Text
reference_key (step, column) = step ++ b'.' ∷ column

-- The references seen so far are kept by their key `step.column`.
unfoldable pub dedupe : List Text → List (Text × Text) → List (Text × Text)
dedupe seen [] = []
dedupe seen (r ∷ rs) =
    let skipped = dedupe seen rs in
    let kept = r ∷ dedupe (add (reference_key r) seen) rs in
    if has (reference_key r) seen then skipped else kept

unfoldable pub extract_compose_references : Text → List (Text × Text)
extract_compose_references sql = dedupe [] (holes (references sql))

-- `value.replace(/'/g, "''")`; 39 is the single quote
unfoldable pub escape : Text → Text
escape [] = []
escape (c ∷ s) = let rest = escape s in if c == 39 then 39 ∷ 39 ∷ rest else c ∷ rest

unfoldable pub sql_literal : Text → Text
sql_literal s = 39 ∷ (escape s ++ 39 ∷ [])

unfoldable pub inline_value : Text → Text → Value → Result Text
inline_value step column (num n) = ok n
inline_value step column (str s) = ok (sql_literal s)
inline_value step column _ = err (compose_error step column)

-- `row[i]`
abbrev pub cell : ℕ → List Value → Value
cell i row = or_else (get_elem? row i) undefined

unfoldable pub inline_rows : Text → Text → ℕ → List (List Value) → Result (List Text)
inline_rows step column i [] = ok []
inline_rows step column i (row ∷ rows) = do
  value ← inline_value step column (cell i row)
  values ← inline_rows step column i rows
  ok (value ∷ values)

abbrev nonempty_rows : Text → Text → ℕ → List (List Value) → Result Text
nonempty_rows step column i [] = err (compose_error step column)
nonempty_rows step column i (row ∷ rows) = do
  values ← inline_rows step column i (row ∷ rows)
  ok (join (codes ", ") values)

abbrev of_column : Text → Text → QueryResult → Option ℕ → Result Text
of_column step column result none = err (compose_error step column)
of_column step column result (some i) = nonempty_rows step column i result.rows

abbrev of_step : Text → Text → Option QueryResult → Result Text
of_step step column none = err (compose_error step column)
of_step step column (some result) =
    of_column step column result (find_index (text_eq column) result.columns)

-- What a reference is replaced by.
unfoldable pub expand_reference : Map QueryResult → Text → Text → Result Text
expand_reference context step column = of_step step column (lookup step context)

unfoldable pub expand_tokens : Map QueryResult → List (Token (Text × Text)) → Result Text
expand_tokens context [] = ok []
expand_tokens context (unit c ∷ ts) = do rest ← expand_tokens context ts; ok (c ∷ rest)
expand_tokens context (hole (step, column) ∷ ts) = do
  values ← expand_reference context step column
  rest ← expand_tokens context ts
  ok (values ++ rest)

unfoldable pub expand_compose_references : Text → Map QueryResult → Result Text
expand_compose_references sql context = expand_tokens context (references sql)

-- Opens what this file defines, to evaluate it on concrete inputs.
unfoldable pub expander_runs : Unit {0}
unfolding dedupe extract_compose_references escape sql_literal inline_value inline_rows
    expand_reference expand_tokens expand_compose_references template_runs values_run
expander_runs = tt
