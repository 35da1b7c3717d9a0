-- ===== src/Tests/Queries.antt =====
-- Inputs for the classification, the scan and the security rules.
use omnibase.Prelude.{◌≡◌, refl, true, false, Option, none}
use omnibase.Text.{Text, codes}
use omnibase.Types.{read, write, ddl, forbidden_operation}
use omnibase.Exec.{ok, err}
use omnibase.Analyzer.{analyzer_runs, classify_query, multi_by_semicolons}
use omnibase.Security.{security_runs, check_sql_security}
use omnibase.Values.{Value}

abbrev rejects : Text → Option Value
rejects t = none

keyword_tests :
    (classify_query rejects (codes "  -- note\n show tables") ≡ read)
    × (classify_query rejects (codes "with x as ( delete from t) select 1") ≡ write)
    × (classify_query rejects (codes "Drop table t") ≡ ddl)
    × (classify_query rejects (codes "vacuum") ≡ write)
    × (classify_query rejects (codes "explain select 1") ≡ read)
unfolding analyzer_runs
keyword_tests = (refl, refl, refl, refl, refl)

semicolon_tests :
    (multi_by_semicolons (codes "select ';;' ; ") ≡ false)
    × (multi_by_semicolons (codes "a; b; c") ≡ true)
    × (multi_by_semicolons (codes "a; b") ≡ false)
unfolding analyzer_runs
semicolon_tests = (refl, refl, refl)

security_tests :
    (check_sql_security (codes "select * from a join pg_catalog.pg_shadow x") false
      ≡ err (forbidden_operation (codes "PG_SHADOW")))
    × (check_sql_security (codes "select * from sys.user$") false ≡ ok tt)
    × (check_sql_security (codes "select pg_read_file ('x')") true
        ≡ err (forbidden_operation (codes "PG_READ_FILE")))
    × (check_sql_security (codes "pragma table_info (t)") false ≡ ok tt)
    × (check_sql_security (codes "pragma journal_mode = wal") false
        ≡ err (forbidden_operation (codes "JOURNAL_MODE")))
    × (check_sql_security (codes "pragma journal_mode = wal") true ≡ ok tt)
    × (check_sql_security (codes "commit") true ≡ err (forbidden_operation (codes "COMMIT")))
unfolding security_runs
security_tests = (refl, refl, refl, refl, refl, refl, refl)
