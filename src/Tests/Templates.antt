-- ===== src/Tests/Templates.antt =====
-- Templates, literals and the rules on statements at concrete texts.
use omnibase.Prelude.{
  ℕ, ◌≡◌, refl, ◌≢◌, inl, true, false, none, some, List, [], ◌∷◌, ◌++◌, ltb, arith,
}
use omnibase.Text.{Text, codes, text_runs, is_word}
use omnibase.Values.{str}
use omnibase.Collections.{Map}
use omnibase.Types.{read, write, CustomToolParameter}
use omnibase.Exec.{ok}
use omnibase.Template.{Token, unit, hole, placeholders, template_runs}
use omnibase.Template.Laws.{placeholders-write}
use omnibase.Template.Laws
use omnibase.Expander.{escape, sql_literal, expander_runs}
use omnibase.Expander.Laws.{read_literal, read_literal-sql_literal}
use omnibase.Parameters.{parameters_run}
use omnibase.Parameters.Laws.{skeleton, Binds, substitute_parameters_sound}
use omnibase.Analyzer.{classify_query, multi_by_semicolons, analyzer_runs}
use omnibase.Analyzer.Laws.{explain_analyze_is_read}
use omnibase.Analyzer.Scanner.{Piece, plain, single, render, separators, multi_by_semicolons-render}
use omnibase.Security.{check_sql_security, security_runs}
use omnibase.Security.Laws.{
  dangerous_call_is_refused, sensitive_read_is_refused, user_dollar_needs_word,
}
use omnibase.Tests.Fixtures.{rejects, host, name_param}

abbrev tokens : List (Token Text)
tokens = unit b'a' ∷ hole (codes "n1") ∷ []

placeholders-write_example : placeholders (Laws.write tokens) ≡ tokens
unfolding template_runs
placeholders-write_example = placeholders-write tokens (ground arith, ((refl, (refl, tt)), tt))

read_literal-sql_literal_example :
    (sql_literal (codes "o'x") ++ codes ", 2" ≡ 39 ∷ (escape (codes "o'x") ++ 39 ∷ codes ", 2"))
    × (read_literal true (escape (codes "o'x") ++ 39 ∷ codes ", 2")
        ≡ some (codes "o'x", codes ", 2"))
read_literal-sql_literal_example =
    read_literal-sql_literal true (codes "o'x") (codes ", 2") (refl, (refl, (refl, tt)))
      (ground arith)

-- Where a backslash escapes, the literal of a backslash does not end.
backslash_test : read_literal true (escape (92 ∷ []) ++ 39 ∷ []) ≡ none
unfolding expander_runs read_literal
backslash_test = refl

abbrev template : Text
template = codes "x = {name}"

abbrev defs : Map CustomToolParameter
defs = (codes "name", name_param) ∷ []

substitute_parameters_sound_example :
    (codes "x = ?" ≡ skeleton defs (placeholders template))
    × Binds defs (placeholders template) (str (codes "7") ∷ [])
unfolding parameters_run
substitute_parameters_sound_example =
    substitute_parameters_sound host [] defs template (codes "x = ?") (str (codes "7") ∷ []) refl

-- A comment before WITH, and MATERIALIZED behind AS, hide a data-modifying CTE from the classifier,
-- where the parser rejects the text.
hidden_cte_test :
    (classify_query rejects
        (codes "-- x" ++ 10 ∷ codes "WITH a AS MATERIALIZED (DELETE FROM t) SELECT 1")
      ≡ read)
    × (classify_query rejects (codes "WITH a AS MATERIALIZED (DELETE FROM t) SELECT 1") ≡ read)
    × (classify_query rejects (codes "WITH a AS (DELETE FROM t) SELECT 1") ≡ write)
unfolding analyzer_runs
hidden_cte_test = (refl, refl, refl)

-- Two statements joined by one semicolon pass the fallback as one.
joined_test : multi_by_semicolons (codes "a;b") ≡ false
unfolding analyzer_runs
joined_test = refl

explain_analyze_is_read_example :
    classify_query rejects (codes "EXPLAIN ANALYZE " ++ (codes "delete from " ++ b't' ∷ [])) ≡ read
unfolding text_runs
explain_analyze_is_read_example = explain_analyze_is_read rejects (codes "delete from ") b't' refl

abbrev pieces : List Piece
pieces = plain (codes "a;") ∷ single (codes ";") ∷ plain (codes ";") ∷ []

multi_by_semicolons-render_example : multi_by_semicolons (render pieces) ≡ ltb 1 (separators pieces)
multi_by_semicolons-render_example = multi_by_semicolons-render pieces (ground arith)

dangerous_call_is_refused_example : check_sql_security (codes "select load_file('x')") true ≢ ok tt
unfolding security_runs
dangerous_call_is_refused_example =
    dangerous_call_is_refused (codes "select load_file('x')") (codes "SELECT ") (codes "'X')")
      (codes "LOAD_FILE") true refl (inl refl)

sensitive_read_is_refused_example :
    check_sql_security (codes "select * from  pg_shadow") true ≢ ok tt
unfolding security_runs
sensitive_read_is_refused_example =
    sensitive_read_is_refused (codes "select * from  pg_shadow") (codes "SELECT * ") (codes " ") []
      (codes "PG_SHADOW") b' ' true refl refl (refl, tt) refl (inl refl)

user_dollar_needs_word_example :
    (a : Text) × (c : ℕ) × (rest : Text) × (codes "SELECT * FROM SYS.USER$X"
      ≡ a ++ (codes "SYS.USER$" ++ c ∷ rest))
    × (is_word c ≡ true)
unfolding security_runs
user_dollar_needs_word_example = user_dollar_needs_word (codes "SELECT * FROM SYS.USER$X") refl
