-- ===== src/Security.antt =====
-- src/tools/execute-sql.ts: the lists of blocked words and `checkSqlSecurity`. The
-- regular expressions are matchers on the trimmed text in upper case.
pub mod Matching
pub mod Laws
use omnibase.Prelude.{
  Bool, true, false, not, ◌&&◌, ◌||◌, String, Option, none, some, List, [], ◌∷◌, ◌++◌, map, any,
  find, if◌then◌else◌,
}
use omnibase.Text.{
  text_runs, Text, codes, to_upper, trim, first_word, strip_prefix, drop_spaces, includes,
}
use omnibase.Collections.{has, collections_run}
use omnibase.Types.{forbidden_operation}
use omnibase.Exec.{Result, ok, err}
use omnibase.Exec.Pure.{◌>>=◌, ◌>>◌, reject_if}
use Matching.{anywhere, table_after_from, before_assignment, matching_runs}

unfoldable pub dangerous_functions : List Text
dangerous_functions = map codes (
    "PG_READ_FILE" ∷ "PG_READ_BINARY_FILE" ∷ "PG_LS_DIR" ∷ "LO_IMPORT" ∷ "LO_EXPORT"
    ∷ "PG_EXECUTE_SERVER_PROGRAM" ∷ "PG_TERMINATE_BACKEND" ∷ "PG_CANCEL_BACKEND" ∷ "PG_RELOAD_CONF"
    ∷ "SET_CONFIG" ∷ "LOAD_FILE" ∷ "XP_CMDSHELL" ∷ "XP_DIRTREE" ∷ "XP_FILEEXIST" ∷ "XP_SUBDIRS"
    ∷ "OPENROWSET" ∷ "OPENDATASOURCE" ∷ "OPENQUERY" ∷ "UTL_FILE.FOPEN" ∷ "UTL_FILE.GET_LINE"
    ∷ "UTL_FILE.PUT_LINE" ∷ "DBMS_SCHEDULER.CREATE_JOB" ∷ [])

unfoldable pub sensitive_tables : List Text
sensitive_tables = map codes (
    "PG_SHADOW" ∷ "PG_AUTHID" ∷ "MYSQL.USER" ∷ "SYS.SQL_LOGINS" ∷ "SYS.SYSLOGINS" ∷ "DBA_USERS"
    ∷ "SYS.USER$" ∷ [])

unfoldable pub blocked_statements : List Text
blocked_statements = map codes (
    "ATTACH" ∷ "DETACH" ∷ "BEGIN" ∷ "COMMIT" ∷ "ROLLBACK" ∷ "SAVEPOINT" ∷ "RELEASE" ∷ "GRANT"
    ∷ "REVOKE" ∷ "COPY" ∷ "LOAD" ∷ "BULK" ∷ [])

unfoldable pub safe_pragmas : List Text
safe_pragmas = map codes (
    "TABLE_INFO" ∷ "TABLE_LIST" ∷ "TABLE_XINFO" ∷ "INDEX_LIST" ∷ "INDEX_INFO" ∷ "INDEX_XINFO"
    ∷ "FOREIGN_KEY_LIST" ∷ "FOREIGN_KEY_CHECK" ∷ "INTEGRITY_CHECK" ∷ "QUICK_CHECK"
    ∷ "COMPILE_OPTIONS" ∷ "DATABASE_LIST" ∷ "COLLATION_LIST" ∷ "ENCODING" ∷ [])

-- `normalized.replace(/^PRAGMA\s+/i, "").split(/\s*[=(]/)[0]`, for a text whose first word is PRAGMA
unfoldable pub pragma_name : Text → Text
pragma_name normalized = elim (strip_prefix (codes "PRAGMA") normalized) [
  | none ↦ before_assignment normalized
  | some [] ↦ before_assignment normalized
  | some (c ∷ s) ↦ before_assignment (drop_spaces (c ∷ s))
]

-- `throw` at the first entry that a test finds
abbrev pub forbid : Option Text → Result (Unit {0})
forbid none = ok tt
forbid (some entry) = err (forbidden_operation entry)

unfoldable pub check_pragma : Text → Text → Bool → Result (Unit {0})
check_pragma normalized word allow_all =
    let name = pragma_name normalized in
    reject_if (has word (codes "PRAGMA" ∷ []) && not allow_all && not (has name safe_pragmas))
      (forbidden_operation name)

unfoldable pub calls : Text → Text → Bool
calls normalized fn =
    includes normalized (fn ++ codes "(") || includes normalized (fn ++ codes " (")

unfoldable pub reads_table : Text → Text → Bool
reads_table normalized table = anywhere (table_after_from table) normalized

unfoldable pub check_outfile : Text → Result (Unit {0})
check_outfile normalized =
    reject_if
      (includes normalized (codes "INTO OUTFILE") || includes normalized (codes "INTO DUMPFILE"))
      (forbidden_operation (codes "INTO OUTFILE/DUMPFILE"))

unfoldable pub check_normalized : Text → Text → Bool → Result (Unit {0})
check_normalized normalized word allow_all = do
  reject_if (has word blocked_statements) (forbidden_operation word)
  check_pragma normalized word allow_all
  forbid (find (calls normalized) dangerous_functions)
  forbid (find (reads_table normalized) sensitive_tables)
  check_outfile normalized

unfoldable pub check_sql_security : Text → Bool → Result (Unit {0})
check_sql_security sql allow_all_pragmas =
    let normalized = to_upper (trim sql) in
    check_normalized normalized (first_word normalized) allow_all_pragmas

-- Opens what this file defines, to evaluate it on concrete inputs.
unfoldable pub security_runs : Unit {0}
unfolding dangerous_functions sensitive_tables blocked_statements safe_pragmas pragma_name
    check_pragma calls reads_table check_outfile check_normalized check_sql_security matching_runs
    text_runs collections_run
security_runs = tt
