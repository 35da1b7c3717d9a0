-- ===== src/ExecuteSql/Checks.antt =====
-- What `handleExecuteSql` checks before it asks the database (src/tools/execute-sql.ts).
use omnibase.Prelude.{Bool, true, false, Option, none, some, [], ◌∷◌, find, or_else, if◌then◌else◌}
use omnibase.Text.{Text, to_upper, trim}
use omnibase.Values.{Value}
use omnibase.Types.{
  ConnectionConfig, QueryCategory, read, write, ddl, invalid_query, multi_statement,
  table_read_only,
}
use omnibase.Exec.{Result, ok, err}
use omnibase.Exec.Pure.{◌>>◌, reject_if}
use omnibase.Analyzer.{classify_query, is_multi_statement, analyzer_runs}
use omnibase.Permission.{enforce_permission}
use omnibase.Security.{check_sql_security, security_runs}
use omnibase.Security.Matching.{anywhere, write_to_table}

-- `!query || !query.trim()`
abbrev pub is_blank : Text → Bool
is_blank [] = true
is_blank (_ ∷ _) = false

abbrev pub changes_data : QueryCategory → Bool
changes_data read = false
changes_data write = true
changes_data ddl = true

abbrev pub refuse_table : Option Text → Result (Unit {0})
refuse_table none = ok tt
refuse_table (some table) = err (table_read_only table)

-- The first protected table that a writing statement names behind INTO, UPDATE and so on.
unfoldable pub protected_target : ConnectionConfig → QueryCategory → Text → Option Text
protected_target conn category query =
    let upper = to_upper (trim query) in
    let target =
      find (λ t. anywhere (write_to_table (to_upper t)) upper) (or_else conn.read_only_tables []) in
    if changes_data category then target else none

module _ (astify : Text → Option Value) where
  unfoldable pub check_category : ConnectionConfig → Text → QueryCategory → Result QueryCategory
  check_category conn query category = do
    enforce_permission conn.name conn.permission category
    refuse_table (protected_target conn category query)
    ok category

  -- Everything that is checked before the database is asked.
  unfoldable pub check_query : ConnectionConfig → Text → Result QueryCategory
  check_query conn query = do
    reject_if (is_blank (trim query)) invalid_query
    reject_if (is_multi_statement astify query) multi_statement
    check_sql_security query conn.allow_all_pragmas
    check_category conn query (classify_query astify query)

-- Opens what this file defines, to evaluate it on concrete inputs.
unfoldable pub checks_run : Unit {0}
unfolding protected_target check_category check_query enforce_permission analyzer_runs security_runs
checks_run = tt
