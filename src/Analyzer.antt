-- ===== src/Analyzer.antt =====
-- src/query-analyzer.ts: classification of a statement and the test for several statements. The
-- parser (node-sql-parser) is the argument `astify`; `none` stands for its exception.
pub mod Laws
pub mod Scanner
use omnibase.Prelude.{
  ℕ, suc, ◌+◌, Bool, true, false, not, ◌&&◌, ◌||◌, Option, none, some, List, [], ◌∷◌, ◌==◌, ltb,
  any, length, or_else, if◌then◌else◌,
}
use omnibase.Text.{
  text_runs, Text, codes, text_eq, to_upper, to_lower, is_space, is_word, drop_spaces, trim,
  trim_end, strip_prefix, starts_with, ends_with, first_word,
}
use omnibase.Values.{
  values_run, Value, undefined, null, str, arr, obj, num, bool, Items, nil, item, items, Fields,
  get_field, truthy,
}
use omnibase.Collections.{has, collections_run}
use omnibase.Types.{QueryCategory, read, write, ddl}

abbrev pub ddl_types : List Text
ddl_types = codes "create" ∷ codes "alter" ∷ codes "drop" ∷ codes "truncate" ∷ []

abbrev pub write_types : List Text
write_types =
    codes "insert" ∷ codes "update" ∷ codes "delete" ∷ codes "replace" ∷ codes "merge" ∷ []

abbrev pub read_types : List Text
read_types = codes "select" ∷ codes "show" ∷ codes "desc" ∷ codes "describe" ∷ []

-- `/^\s*(explain)\s/i` on a trimmed text
unfoldable pub is_explain : Text → Bool
is_explain s = elim (strip_prefix (codes "EXPLAIN") (to_upper s)) [
  | none ↦ false
  | some [] ↦ false
  | some (c ∷ _) ↦ is_space c
]

-- A keyword that the next unit does not continue: `KEYWORD\b` for a keyword of word units.
unfoldable pub keyword_here : Text → Text → Bool
keyword_here s word = elim (strip_prefix word s) [
  | none ↦ false
  | some [] ↦ true
  | some (c ∷ _) ↦ not (is_word c)
]

-- `\(\s*(UPDATE|DELETE|INSERT)\b`
unfoldable pub write_in_parens : Text → Bool
write_in_parens [] = false
write_in_parens (c ∷ s) =
    c == b'('
    && any (keyword_here (drop_spaces s)) (codes "UPDATE" ∷ codes "DELETE" ∷ codes "INSERT" ∷ [])

-- `AS\s*\(\s*(UPDATE|DELETE|INSERT)\b` at this place
unfoldable pub as_write_here : Text → Bool
as_write_here s = elim (strip_prefix (codes "AS") s) [
  | none ↦ false
  | some rest ↦ write_in_parens (drop_spaces rest)
]

-- `\b` before it: the unit before (`false` at the start) is no word unit.
unfoldable pub write_in_cte : Bool → Text → Bool
write_in_cte after_word [] = false
write_in_cte after_word (c ∷ s) =
    not after_word && as_write_here (c ∷ s) || write_in_cte (is_word c) s

unfoldable pub has_writable_cte : Text → Bool
has_writable_cte sql =
    if starts_with (to_upper sql) (codes "WITH") then write_in_cte false (to_upper sql) else false

-- `/^\s*(--[^\n]*\n|\s)*/` removed. Inside a comment the first argument is the text from its
-- dashes on, which is what is left if the line does not end.
unfoldable pub strip_comments : Option Text → Text → Text
strip_comments none [] = []
strip_comments (some open_comment) [] = open_comment
strip_comments none (c ∷ s) =
    let after_space = strip_comments none s in
    let after_dashes = strip_comments (some (c ∷ s)) s in
    if is_space c
    then after_space
    else if starts_with (c ∷ s) (codes "--")
    then after_dashes
    else c ∷ s
strip_comments (some open_comment) (c ∷ s) =
    let next_line = strip_comments none s in
    let same_line = strip_comments (some open_comment) s in if c == 10 then next_line else same_line

-- The tests on the first word of a text whose comments are gone.
unfoldable pub classify_word : Text → Text → QueryCategory
classify_word word stripped =
    if text_eq word (codes "select") || text_eq word (codes "show")
    then read
    else if text_eq word (codes "with")
    then (if has_writable_cte stripped then write else read)
    else if has word ddl_types
    then ddl
    else if has word write_types
    then write
    else write

unfoldable pub classify_by_keyword : Text → QueryCategory
classify_by_keyword sql =
    let stripped = trim (strip_comments none sql) in
    classify_word (to_lower (first_word stripped)) stripped

-- `Array.isArray(ast) ? ast : [ast]`
abbrev pub statements : Value → List Value
statements (arr vs) = items vs
statements v = v ∷ []

-- The category of `stmts[0]` by its `type`.
unfoldable pub classify_type : Text → QueryCategory
classify_type type =
    let kind = to_lower type in
    if has kind ddl_types
    then ddl
    else if has kind write_types
    then write
    else if has kind read_types
    then read
    else write

-- `stmt.type`, where `stmt` is truthy and the type is a text
unfoldable pub statement_type : List Value → Option Text
statement_type (obj fs ∷ _) = elim (get_field (codes "type") fs) [ str t ↦ some t | _ ↦ none ]
statement_type _ = none

unfoldable pub classify_ast : Value → QueryCategory
classify_ast ast = elim (statement_type (statements ast)) [
  | none ↦ write
  | some t ↦ classify_type t
]

-- What the parser's answer decides; its exception leads to the keywords.
unfoldable pub classify_parsed : Option Value → Text → QueryCategory
classify_parsed none t = classify_by_keyword t
classify_parsed (some ast) t = classify_ast ast

unfoldable pub classify_query : (Text → Option Value) → Text → QueryCategory
classify_query astify sql =
    let trimmed = trim sql in
    if is_explain trimmed
    then read
    else if has_writable_cte trimmed
    then write
    else classify_parsed (astify trimmed) trimmed

-- The quoting state of the fallback scan.
pub record Scan : Type 0 where
  pub in_single : Bool
  pub in_double : Bool
  pub semicolons : ℕ

abbrev pub scan_start : Scan
scan_start = record { in_single = false; in_double = false; semicolons = 0 }

-- One round of the loop; `prev` is the unit before, 0 at the start; 39 is the
-- single quote and 92 the backslash.
unfoldable pub scan_unit : ℕ → ℕ → Scan → Scan
scan_unit prev c st =
    if c == 39 && not st.in_double && not (prev == 92)
    then record st { in_single = not st.in_single }
    else if c == b'"' && not st.in_single && not (prev == 92)
    then record st { in_double = not st.in_double }
    else if c == b';' && not st.in_single && not st.in_double
    then record st { semicolons = st.semicolons + 1 }
    else st

unfoldable pub scan : ℕ → Text → Scan → Scan
scan prev [] st = st
scan prev (c ∷ s) st = scan c s (scan_unit prev c st)

-- The fallback, used where the parser rejects the text.
unfoldable pub multi_by_semicolons : Text → Bool
multi_by_semicolons sql =
    let count = (scan 0 sql scan_start).semicolons in
    if ends_with (trim_end sql) (codes ";") && count == 1 then false else ltb 1 count

unfoldable pub is_multi_statement : (Text → Option Value) → Text → Bool
is_multi_statement astify sql = elim (astify sql) [
  | some ast ↦ ltb 1 (length (statements ast))
  | none ↦ multi_by_semicolons sql
]

-- Opens what this file defines, to evaluate it on concrete inputs.
unfoldable pub analyzer_runs : Unit {0}
unfolding is_explain keyword_here write_in_parens as_write_here write_in_cte has_writable_cte
    strip_comments classify_word classify_by_keyword classify_type statement_type classify_ast
    classify_parsed classify_query scan_unit scan multi_by_semicolons is_multi_statement text_runs
    collections_run values_run
analyzer_runs = tt
