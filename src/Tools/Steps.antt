-- ===== src/Tools/Steps.antt =====
-- src/custom-tools.ts: the transaction of `executeStepsRaw`, in which the steps of a tool run, from BEGIN
-- on. What comes before it, with the lock of the connection, is in Locked.
pub mod Locked
pub mod Locks
use omnibase.Prelude.{
  ℕ, Bool, true, false, Option, none, some, List, [], ◌∷◌, ◌++◌, ltb, or_else, if◌then◌else◌, map,
}
use omnibase.Text.{Text, codes, join}
use omnibase.Values.{Value, Conversions}
use omnibase.Collections.{Map, add, remove}
use omnibase.Types.{
  ConnectionConfig, OmnibaseConfig, CustomToolStep, CustomToolConfig, QueryCategory, read, write,
  ddl, QueryResult, FormattedQueryResult, ExecuteOptions, Error, type_error,
}
use omnibase.Exec.{Result, ok, err, Exec, pure, throw, lift, modify, gets, when, catch, ◌>>=◌, ◌>>◌}
use omnibase.Analyzer.{classify_query}
use omnibase.Permission.{enforce_permission}
use omnibase.Permission.Laws.{category_rank}
use omnibase.Security.{check_sql_security}
use omnibase.Config.{get_connection, config_runs}
use omnibase.Parameters.{substitute_parameters, parameters_run}
use omnibase.Formatter.{format_query_result, formatter_runs}
use omnibase.Session.{Backend, Session, AuditStatus, done, failed, AuditEntry, audit, on_manager}
use omnibase.Manager.{execute, invalidate_schema_cache, manager_runs}
use omnibase.ExecuteSql.Checks.{changes_data, checks_run}
use omnibase.Tools.Prepare.{execution_options, Prepared, check_steps_allowed, prepare_runs}
use omnibase.Tools.TempTables.{temp_table, temp_tables_run}

-- The variables of the transaction, which an exception leaves as they are.
pub record Run (W : Type 0) : Type 0 where
  pub return_result : Option QueryResult
  pub last_result : Option QueryResult
  pub temp_tables_created : List Text
  pub session : Session W

abbrev pub first_result : Option QueryResult → Option QueryResult → Result QueryResult
first_result (some r) last = ok r
first_result none (some r) = ok r
first_result none none = err type_error

module _ {W : Type 0} where
  abbrev pub start : Session W → Run W
  start s = record {
    return_result = none;
    last_result = none;
    temp_tables_created = [];
    session = s;
  }

  abbrev pub in_session : {A : Type 0} → Exec (Session W) A → Exec (Run W) A
  in_session m run = let (r, s) = m run.session in (r, record run { session = s })

  abbrev pub remember : Prepared → QueryResult → Run W → Run W
  remember step result run = record run {
    last_result = some result;
    return_result = if step.is_return then some result else run.return_result;
  }

  abbrev pub track : Option Text → Run W → Run W
  track none run = run
  track (some table) run = record run {
    temp_tables_created = run.temp_tables_created ++ table ∷ [];
  }

  abbrev pub hold_lock : Text → Session W → Session W
  hold_lock name s = record s { locked = add name s.locked }

  abbrev pub release_lock : Text → Session W → Session W
  release_lock name s = record s { locked = remove name s.locked }

module _ {W : Type 0} (backend : Backend W) where
  abbrev pub command : ConnectionConfig → ExecuteOptions → Text → Exec (Session W) QueryResult
  command conn options sql = execute backend conn sql (some []) (some options)

  abbrev pub ignored : Exec (Session W) QueryResult → Exec (Session W) (Unit {0})
  ignored m s = (ok tt, (m s).1)

  unfoldable pub drop_temp_tables :
      ConnectionConfig → ExecuteOptions → List Text → Session W → Session W
  drop_temp_tables conn options [] s = s
  drop_temp_tables conn options (table ∷ tables) s =
      drop_temp_tables conn options tables
        (ignored (command conn options (codes "DROP TABLE IF EXISTS " ++ table)) s).1

module _ {W : Type 0} (astify : Text → Option Value) (backend : Backend W) where
  abbrev pub invalidate : ConnectionConfig → Text → Exec (Session W) (Unit {0})
  invalidate conn sql =
      when (changes_data (classify_query astify sql))
        (modify (on_manager (invalidate_schema_cache conn.name)))

  unfoldable pub run_steps :
      ConnectionConfig → ExecuteOptions → List Prepared → Exec (Run W) (Unit {0})
  run_steps conn options [] = pure tt
  run_steps conn options (step ∷ steps) = do
    result ← in_session (execute backend conn step.sql (some step.values) (some options))
    modify (remember step result)
    in_session (invalidate conn step.sql)
    modify (track (temp_table step.sql))
    run_steps conn options steps

  -- The `try` block and its `catch`.
  abbrev pub guarded_steps :
      ConnectionConfig → ExecuteOptions → List Prepared → Exec (Run W) (Unit {0})
  guarded_steps conn options steps =
      catch
        (run_steps conn options steps
          >> (in_session (command backend conn options (codes "COMMIT")) >>= λ _. pure tt))
        (λ e.
          in_session (ignored backend (command backend conn options (codes "ROLLBACK"))) >> throw e)

  abbrev conclude : Result (Unit {0}) → Run W → Result QueryResult
  conclude (ok x) run = first_result run.return_result run.last_result
  conclude (err e) run = err e

  -- `try`, `catch` and `finally`
  unfoldable pub transaction :
      ConnectionConfig → ExecuteOptions → List Prepared → Exec (Session W) QueryResult
  transaction conn options steps s =
      let (r, run) = guarded_steps conn options steps (start s) in
      (
        conclude r run,
        release_lock conn.name
            (drop_temp_tables backend conn options run.temp_tables_created run.session),
      )

  -- What a run does once it has the lock: the transaction only begins where BEGIN succeeds.
  abbrev pub begun_steps :
      ConnectionConfig → CustomToolConfig → List Prepared → Exec (Session W) QueryResult
  begun_steps conn tool prepared = do
    begun ← command backend conn (execution_options conn tool) (codes "BEGIN")
    transaction conn (execution_options conn tool) prepared

-- Opens what this file defines, to evaluate it on concrete inputs.
unfoldable pub steps_run : Unit {0}
unfolding run_steps drop_temp_tables transaction config_runs formatter_runs manager_runs
    prepare_runs temp_tables_run
steps_run = tt
