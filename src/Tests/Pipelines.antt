-- ===== src/Tests/Pipelines.antt =====
-- Pipelines, transaction locks and configuration files at concrete inputs.
use omnibase.Prelude.{ℕ, ◌≡◌, refl, ◌⊎◌, true, false, arith, ◌++◌, Option, none, some, [], ◌∷◌}
use omnibase.Text.{Text, codes}
use omnibase.Collections.{Map}
use omnibase.Types.{OmnibaseConfig, CustomToolConfig, QueryResult, FormattedQueryResult, read_only}
use omnibase.Values.{str}
use omnibase.Exec.{Result, ok, lift, ◌>>=◌}
use omnibase.Parameters.{parameters_run}
use omnibase.Expander.{expander_runs}
use omnibase.Tools.Prepare.{check_tool_sql}
use omnibase.Tools.SingleSql.{send_tool_sql}
use omnibase.Tools.PipelineStep.{run_sql_step}
use omnibase.Tools.PipelineStep.Inlined.{inlined_value_is_rewritten}
use omnibase.Session.{Session}
use omnibase.Tools.Cycles.{edges_of, enough}
use omnibase.Tools.Validation.{validation_runs}
use omnibase.Tools.Compose.{tools_of, execute_custom_tool}
use omnibase.Tools.Compose.Ends.{execute_custom_tool-ends}
use omnibase.Manager.Locks.{holding, Locks, no_locks, attempt, Reach, unlocked, later, asks}
use omnibase.Manager.Locks.Exclusion.{transaction_locks-exclude, transaction_locks-wake}
use omnibase.Config.Raw.{RawConnection, RawConfig}
use omnibase.Config.Parse.{parse_config, parse_runs}
use omnibase.Config.Parse.Laws.{IsLoaded, parse_config-IsLoaded}
use omnibase.Manager.{manager_runs}
use omnibase.Tests.Fixtures.{
  rejects, host, counting, fresh, config_with, conn_of, find_tool, calls, name_param,
}

abbrev chained : Map CustomToolConfig
chained =
    (codes "a", calls (codes "b")) ∷ (codes "b", calls (codes "c")) ∷ (codes "c", find_tool) ∷ []

abbrev piped : OmnibaseConfig
piped = config_with read_only (some chained)

execute_custom_tool-ends_example :
    (r : Result FormattedQueryResult × Session ℕ) × (execute_custom_tool rejects host counting piped
        (enough (edges_of (tools_of piped)))
        (codes "a")
        (calls (codes "b"))
        []
        fresh
      ≡ some r)
unfolding validation_runs
execute_custom_tool-ends_example =
    execute_custom_tool-ends rejects host counting piped refl (codes "a") (calls (codes "b")) []
      fresh refl refl

-- Two tasks ask for one connection, one after the other.
abbrev one_asked : Locks
one_asked = attempt 0 (codes "db") no_locks

abbrev both_asked : Locks
both_asked = attempt 1 (codes "db") one_asked

both_asked-Reach : Reach both_asked
unfolding manager_runs attempt
both_asked-Reach =
    later {s = one_asked} (later unlocked (asks 0 (codes "db") refl)) (asks 1 (codes "db") refl)

transaction_locks-exclude_example : ◌≡◌ {A = ℕ} 0 0
unfolding manager_runs attempt
transaction_locks-exclude_example =
    transaction_locks-exclude both_asked 0 0 (codes "db") 0 0 both_asked-Reach refl refl

transaction_locks-wake_example :
    (both_asked.fulfilled 0 ≡ true) ⊎ ((j : ℕ) × (both_asked.task j ≡ holding (codes "db") 0))
unfolding manager_runs attempt
transaction_locks-wake_example =
    transaction_locks-wake both_asked 1 (codes "db") 0 both_asked-Reach refl

abbrev stated : RawConnection
stated = record {
  dsn = some (codes "$DB");
  permission = none;
  timeout = none;
  max_rows = some 10;
  schema_filter = none;
  allow_all_pragmas = none;
  max_value_length = none;
  read_only_tables = none;
}

abbrev raw_config : RawConfig
raw_config = record {
  connections = (codes "db", stated) ∷ [];
  defaults = record { permission = some (codes "admin"); timeout = none; max_rows = none };
  tools = [];
  audit = none;
  schema_hints = none;
}

abbrev environment : Text → Option Text
environment name = some (codes "sqlite:x")

abbrev result_or : Result OmnibaseConfig → OmnibaseConfig
result_or (ok config) = config
result_or _ = piped

abbrev loaded : OmnibaseConfig
loaded = result_or (parse_config environment (codes "audit.log") raw_config)

parse_config-IsLoaded_example : IsLoaded environment raw_config loaded (codes "db")
unfolding parse_runs
parse_config-IsLoaded_example =
    parse_config-IsLoaded environment (codes "audit.log") raw_config loaded (codes "db") refl refl

-- A step whose earlier result reads like a placeholder.
abbrev earlier : Map QueryResult
earlier =
    (
      codes "s",
      record {
        columns = codes "c" ∷ [];
        rows = (str (codes "{name}") ∷ []) ∷ [];
        row_count = 1;
        has_more = false;
        affected_rows = none;
        last_insert_id = none;
      },
    )
    ∷ []

inlined_value_is_rewritten_example :
    run_sql_step rejects host counting
      (conn_of read_only)
      find_tool
      []
      earlier
      (some (codes "select {s.c}"))
      fresh
    ≡ (lift (
            check_tool_sql rejects host
              (conn_of read_only)
              find_tool
              (codes "select " ++ codes "'?'"))
          >>= send_tool_sql rejects host counting
              (conn_of read_only)
              find_tool
              (codes "select " ++ codes "'?'")
              (str (codes "7") ∷ []))
        fresh
unfolding parameters_run expander_runs
inlined_value_is_rewritten_example =
    inlined_value_is_rewritten rejects host counting (conn_of read_only) find_tool [] earlier
      (codes "select {s.c}") (codes "select ") (codes "name") name_param (str (codes "7")) fresh
      refl (ground arith) (refl, (refl, (refl, (refl, tt)))) refl refl
