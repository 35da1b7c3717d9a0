-- ===== src/ExecuteSql.antt =====
-- src/tools/execute-sql.ts: `handleExecuteSql`. The parser is the argument `astify`
-- (see Analyzer), the database the argument `backend` (see Session).
pub mod Checks
pub mod Guards
pub mod Paging
use omnibase.Prelude.{
  ℕ, ◌+◌, Bool, true, false, Option, none, some, List, [], slice, length, ltb, or_else,
  if◌then◌else◌,
}
use omnibase.Text.{Text, codes}
use omnibase.Values.{Value}
use omnibase.Types.{
  ConnectionConfig, OmnibaseConfig, QueryCategory, QueryResult, FormattedQueryResult, Error,
}
use omnibase.Exec.{
  Result, ok, err, Exec, pure, throw, lift, modify, when, catch, continue, recover, ◌>>=◌, ◌>>◌,
}
use omnibase.Config.{get_connection, config_runs}
use omnibase.Formatter.{format_query_result, formatter_runs}
use omnibase.Session.{Backend, Session, AuditStatus, done, failed, AuditEntry, audit, on_manager}
use omnibase.Manager.{execute, invalidate_schema_cache, manager_runs}
use Checks.{changes_data, check_query, checks_run}

pub record Request : Type 0 where
  pub connection : Text
  pub query : Text
  pub params : Option (List Value)
  pub limit : Option ℕ
  pub offset : Option ℕ

abbrev pub limit_of : ConnectionConfig → Request → ℕ
limit_of conn req = or_else req.limit conn.max_rows

abbrev pub offset_of : Request → ℕ
offset_of req = or_else req.offset 0

abbrev pub entry : ConnectionConfig → Request → ℕ → AuditStatus → Option Error → AuditEntry
entry conn req rows status error = record {
  tool = codes "execute_sql";
  connection = conn.name;
  sql = req.query;
  params = or_else req.params [];
  rows = rows;
  status = status;
  error = error;
}

-- The rows behind the offset, at most `limit` of them.
unfoldable pub page : ℕ → ℕ → QueryResult → QueryResult
page offset limit result =
    let rows = slice offset (offset + limit) result.rows in
    if ltb 0 offset then record result { rows = rows; row_count = length rows } else result

unfoldable pub format_page : ConnectionConfig → Request → QueryResult → FormattedQueryResult
format_page conn req result =
    let limit = limit_of conn req in
    let offset = offset_of req in
    let formatted = format_query_result (page offset limit result) limit conn.max_value_length in
    record formatted { page_offset = if ltb 0 offset then some offset else none }

module _ {W : Type 0} (astify : Text → Option Value) (backend : Backend W) where
  abbrev pub invalidate_on_change : ConnectionConfig → QueryCategory → Exec (Session W) (Unit {0})
  invalidate_on_change conn category =
      when (changes_data category) (modify (on_manager (invalidate_schema_cache conn.name)))

  abbrev pub send : ConnectionConfig → Request → Exec (Session W) QueryResult
  send conn req =
      execute backend conn req.query req.params
        (some (record { max_rows = some (offset_of req + limit_of conn req); timeout_ms = none }))

  abbrev pub report :
      ConnectionConfig → Request → QueryResult → Exec (Session W) FormattedQueryResult
  report conn req result = do
    modify (audit (entry conn req result.row_count done none))
    pure (format_page conn req result)

  unfoldable pub run_query :
      ConnectionConfig → Request → QueryCategory → Exec (Session W) FormattedQueryResult
  run_query conn req category = do
    invalidate_on_change conn category
    result ← send conn req
    report conn req result

  unfoldable pub checked_query : ConnectionConfig → Request → Exec (Session W) FormattedQueryResult
  checked_query conn req = do
    category ← lift (check_query astify conn req.query)
    run_query conn req category

  -- `catch (err) { auditLogger.log(…); throw err }`
  abbrev pub log_failure :
      ConnectionConfig → Request → Error → Exec (Session W) FormattedQueryResult
  log_failure conn req e = do modify (audit (entry conn req 0 failed (some e))); throw e

  unfoldable pub on_connection : ConnectionConfig → Request → Exec (Session W) FormattedQueryResult
  on_connection conn req = catch (checked_query conn req) (log_failure conn req)

  unfoldable pub handle_execute_sql :
      OmnibaseConfig → Request → Exec (Session W) FormattedQueryResult
  handle_execute_sql config req = do
    conn ← lift (get_connection config req.connection)
    on_connection conn req

-- Opens what this file defines, to evaluate it on concrete inputs.
unfoldable pub execute_sql_runs : Unit {0}
unfolding page format_page run_query checked_query on_connection handle_execute_sql checks_run
    config_runs formatter_runs manager_runs
execute_sql_runs = tt
