-- ===== src/Tests/Explorers.antt =====
-- Relationships, samples, plans, hints and the validation of queries at concrete inputs.
use omnibase.Prelude.{
  ℕ, suc, ◌+◌, ◌≤◌, ◌≡◌, refl, true, false, not, ◌&&◌, none, some, [], ◌∷◌, any, map, length,
  get_elem?,
}
use omnibase.Text.{Text, codes, text_eq, same_name}
use omnibase.Values.{null, str, obj, end, field}
use omnibase.Collections.{has}
use omnibase.Types.{
  ConnectionConfig, ColumnInfo, TableInfo, SchemaInfo, QueryResult, read_only, read_write,
}
use omnibase.Exec.{Result, ok}
use omnibase.Analyzer.{classify_query, is_multi_statement}
use omnibase.Config.{get_connection}
use omnibase.Session.{Backend, Session}
use omnibase.Manager.{get_schema, execute}
use omnibase.Relationships.{Relationship, node_of, label, reverse_label, build_graph}
use omnibase.Relationships.Graph.{build_graph-exact}
use omnibase.Sampling.{
  pos, get_dialect, checked_limit, distinct_query, DistinctValues, handle_get_distinct_values,
  sampling_runs,
}
use omnibase.Sampling.Names.{handle_get_distinct_values-names}
use omnibase.Sampling.Stats.{quote_ident, safe_alias, stats_run}
use omnibase.Hints.{Sorting, build_hint, HintManager, update_hints, hints_run}
use omnibase.Hints.Length.{update_hints-bounded}
use omnibase.Validator.{Report, is_permitted, handle_validate_query, validator_runs}
use omnibase.Validator.Verdict.{handle_validate_query-verdict}
use omnibase.Validator.Count.{build_count_query, count_runs}
use omnibase.Tests.Fixtures.{
  rejects, host, counting, conn_of, fresh, config_with, users, schema_of_db,
}

abbrev keeps : Text → SchemaInfo → ℕ → ℕ
keeps name schema world = world

-- A table that refers to itself.
abbrev parent_of : Relationship
parent_of = record {
  from_table = codes "t";
  from_column = codes "parent";
  to_table = codes "t";
  to_column = codes "id";
}

build_graph-exact_example :
    (has (codes "parent -> t.id") (node_of (codes "t") (build_graph [] (parent_of ∷ []))).references
      ≡ any
          (λ r. text_eq r.from_table (codes "t") && text_eq (label r) (codes "parent -> t.id"))
          (parent_of ∷ []))
    × (has
          (codes "parent -> t.id")
          (node_of (codes "t") (build_graph [] (parent_of ∷ []))).referenced_by
        ≡ any
            (λ r.
              text_eq r.to_table (codes "t") && text_eq (reverse_label r) (codes "parent -> t.id"))
            (parent_of ∷ []))
build_graph-exact_example = build_graph-exact (parent_of ∷ []) (codes "t") (codes "parent -> t.id")

abbrev id_column : ColumnInfo
id_column = record {
  name = codes "Id";
  type = codes "int";
  nullable = false;
  default_value = none;
  is_primary_key = true;
  comment = none;
}

abbrev with_column : Backend ℕ
with_column = record counting {
  get_schema = λ name filter w.
      (ok (record { tables = record users { columns = id_column ∷ [] } ∷ [] }), suc w);
}

abbrev outcome : Result DistinctValues × Session ℕ
outcome =
    handle_get_distinct_values with_column keeps host (config_with read_only none) (codes "DB")
      (codes "USERS") (codes "ID") (some (pos 2)) fresh

abbrev answer_of : Result DistinctValues → DistinctValues
answer_of (ok answer) = answer
answer_of _ = record {
  table = [];
  column = [];
  column_type = [];
  values = [];
  total_shown = 0;
  has_more = false;
}

handle_get_distinct_values-names_example :
    (conn : ConnectionConfig) × (schema : SchemaInfo) × (found : TableInfo) × (picked : ColumnInfo)
    × (n : ℕ) × (result : QueryResult) × (t : Session ℕ) × (get_connection
          (config_with read_only none)
          (codes "DB")
        ≡ ok conn)
    × (get_schema with_column keeps conn false none fresh ≡ (ok schema, t))
    × (has found.name (map (λ u. u.name) schema.tables) ≡ true)
    × (same_name found.name (codes "USERS") ≡ true)
    × (has picked.name (map (λ c. c.name) found.columns) ≡ true)
    × (same_name picked.name (codes "ID") ≡ true)
    × (checked_limit 50 (some (pos 2)) ≡ ok n)
    × (execute with_column conn (distinct_query (get_dialect conn) n found picked) none none t
        ≡ (ok result, outcome.1))
    × ((answer_of outcome.0).total_shown ≡ length result.rows)
unfolding sampling_runs
handle_get_distinct_values-names_example =
    handle_get_distinct_values-names with_column keeps host (config_with read_only none)
      (codes "DB") (codes "USERS") (codes "ID") (some (pos 2)) fresh outcome.1 (answer_of outcome.0)
      refl

-- Two columns whose aliases are one.
alias_test :
    (quote_ident (codes "a\"b") ≡ codes "\"a\"\"b\"")
    × (safe_alias (codes "_min_") (codes "a-b") ≡ safe_alias (codes "_min_") (codes "a_b"))
unfolding stats_run
alias_test = (refl, refl)

abbrev as_given : Sorting
as_given = record { by_name = λ tables. tables; sort = λ names. names }

abbrev one_tool : HintManager ℕ
one_tool = record { tools = (7, codes "Runs SQL") ∷ []; schemas_by_connection = []; enabled = true }

hint_test :
    (update_hints as_given (codes "db") schema_of_db one_tool).1
    ≡ (7, codes "Runs SQL\n\nAvailable tables: Users ()") ∷ []
unfolding hints_run
hint_test = refl

update_hints-bounded_example :
    (length (build_hint as_given ((codes "db", schema_of_db) ∷ [])) ≤ 800)
    × (length (update_hints as_given (codes "db") schema_of_db one_tool).1 ≡ length one_tool.tools)
    × ((description : Text) × (get_elem?
            (update_hints as_given (codes "db") schema_of_db one_tool).1
            0
          ≡ some (7, description))
        × (length description ≤ length (codes "Runs SQL") + 802))
unfolding hints_run
update_hints-bounded_example =
    update_hints-bounded as_given (codes "db") schema_of_db one_tool 0 7 (codes "Runs SQL") refl
      refl

count_tests :
    (build_count_query (codes "update \"t u\" set a = 1 where b > 2") null
      ≡ some (codes "SELECT COUNT(*) FROM t u WHERE b > 2"))
    × (build_count_query (codes "DELETE FROM t ") null ≡ some (codes "SELECT COUNT(*) FROM t"))
    × (build_count_query
          (codes "insert into t select 1 from u")
          (obj (field (codes "type") (str (codes "insert")) end))
        ≡ some (codes "SELECT COUNT(*) FROM (SELECT  1 from u)"))
    × (build_count_query (codes "create table t(a)") null ≡ none)
unfolding count_runs
count_tests = (refl, refl, refl, refl)

abbrev removal : Text
removal = codes "delete from users"

abbrev validated : Result Report × Session ℕ
validated =
    handle_validate_query rejects host counting keeps (config_with read_write none) (codes "db")
      removal fresh

abbrev report_or : Result Report → Report
report_or (ok report) = report
report_or _ = record {
  syntax_valid = false;
  schema_valid = none;
  category = none;
  multi_statement = false;
  would_be_allowed = false;
  estimated_rows_affected = none;
  errors = [];
  warnings = [];
}

handle_validate_query-verdict_example : (report_or validated.0).would_be_allowed ≡ (
    (report_or validated.0).syntax_valid
    && (not (is_multi_statement rejects removal)
        && is_permitted read_write (classify_query rejects removal)))
unfolding validator_runs
handle_validate_query-verdict_example =
    handle_validate_query-verdict rejects host counting keeps (conn_of read_write)
      (config_with read_write none) (codes "db") removal fresh validated.1 (report_or validated.0)
      refl refl
