-- ===== src/Tools/Steps/Locked.antt =====
-- src/custom-tools.ts: `executeStepsRaw` and `executeCustomToolSteps`, the tools whose steps run in
-- one transaction, behind `acquireTransactionLock` of src/connection-manager.ts. The session belongs to
-- one run, and nothing else releases a lock in it: a run that finds the lock of its connection held
-- waits for ever, so that it has no outcome. Runs that wait for each other are in Manager.Locks. A tool
-- with no step, which the validator refuses, ends in the `TypeError` that its caller throws on `null`.
use omnibase.Prelude.{ℕ, Option, none, some, List, [], ◌++◌, or_else, map, if◌then◌else◌}
use omnibase.Text.{Text, codes, join}
use omnibase.Values.{Value, Conversions}
use omnibase.Collections.{Map, has}
use omnibase.Types.{
  ConnectionConfig, OmnibaseConfig, CustomToolConfig, QueryResult, FormattedQueryResult, Error,
}
use omnibase.Exec.{ok, Exec, pure, throw, lift, modify, ◌>>◌}
use omnibase.Exec.Fueled.{Fueled, run, catch, ◌>>=◌}
use omnibase.Config.{get_connection}
use omnibase.Formatter.{format_query_result}
use omnibase.Session.{Backend, Session, AuditStatus, done, failed, AuditEntry, audit}
use omnibase.Tools.Prepare.{Prepared, check_steps_allowed}
use omnibase.Tools.Steps.{hold_lock, begun_steps, steps_run}

unfoldable pub acquire_transaction_lock : {W : Type 0} → Text → Fueled (Session W) (Unit {0})
acquire_transaction_lock name s = if has name s.locked then none else some (ok tt, hold_lock name s)

module _ {W : Type 0} (astify : Text → Option Value) (host : Conversions)
    (backend : Backend W) where
  abbrev pub locked_steps :
      ConnectionConfig → CustomToolConfig → List Prepared → Fueled (Session W) QueryResult
  locked_steps conn tool prepared = do
    held ← acquire_transaction_lock conn.name
    run (begun_steps astify backend conn tool prepared)

  unfoldable pub execute_steps_raw :
      OmnibaseConfig → CustomToolConfig → Map Value → Fueled (Session W) QueryResult
  execute_steps_raw config tool args = do
    conn ← run (lift (get_connection config tool.connection))
    prepared ← run (lift (check_steps_allowed astify host conn tool args))
    locked_steps conn tool prepared

  abbrev pub steps_entry :
      ConnectionConfig → Text → CustomToolConfig → ℕ → AuditStatus → Option Error → AuditEntry
  steps_entry conn name tool rows status error = record {
    tool = codes "custom_" ++ name;
    connection = conn.name;
    sql = join (codes "; ") (map (λ step. step.sql) (or_else tool.steps []));
    params = [];
    rows = rows;
    status = status;
    error = error;
  }

  abbrev pub log_steps :
      ConnectionConfig
      → Text
      → CustomToolConfig
      → QueryResult
      → Exec (Session W) FormattedQueryResult
  log_steps conn name tool result =
      modify (audit (steps_entry conn name tool result.row_count done none))
      >> pure
          (format_query_result result (or_else tool.max_rows conn.max_rows) conn.max_value_length)

  abbrev pub run_and_log :
      OmnibaseConfig
      → ConnectionConfig
      → Text
      → CustomToolConfig
      → Map Value
      → Fueled (Session W) FormattedQueryResult
  run_and_log config conn name tool args = do
    result ← execute_steps_raw config tool args
    run (log_steps conn name tool result)

  unfoldable pub execute_custom_tool_steps :
      OmnibaseConfig → Text → CustomToolConfig → Map Value → Fueled (Session W) FormattedQueryResult
  execute_custom_tool_steps config name tool args = do
    conn ← run (lift (get_connection config tool.connection))
    catch (run_and_log config conn name tool args)
        (λ e. modify (audit (steps_entry conn name tool 0 failed (some e))) >> throw e)

-- Opens what this file defines, to evaluate it on concrete inputs.
unfoldable pub locked_runs : Unit {0}
unfolding acquire_transaction_lock execute_steps_raw execute_custom_tool_steps steps_run
locked_runs = tt
