-- ===== src/Tests/ToolRuns.antt =====
-- Custom tools at concrete configurations.
use omnibase.Prelude.{ℕ, ◌≡◌, refl, ◌⊎◌, false, none, some, List, [], ◌∷◌}
use omnibase.Text.{Text, codes}
use omnibase.Collections.{Map}
use omnibase.Types.{CustomToolConfig, read_only, database}
use omnibase.Exec.{ok, err}
use omnibase.Session.{Backend, Session}
use omnibase.Tools.Cycles.{Search, done, cycle, edges_of, detect_compose_circular_deps}
use omnibase.Tools.Cycles.Sound.{IsGrounded}
use omnibase.Tools.Cycles.Enough.{detect_compose_circular_deps-ends}
use omnibase.Tools.Validation.{validate_custom_tools, validation_runs}
use omnibase.Tools.Prepare.{Prepared}
use omnibase.Tools.Steps.Locked.{execute_steps_raw, locked_runs}
use omnibase.Tools.Steps.Locks.{EndsLocked, execute_steps_raw-lock}
use omnibase.Tools.TempTables.{temp_table, temp_tables_run}
use omnibase.Tests.Fixtures.{
  rejects, host, counting, conn_of, fresh, config_with, find_tool, steps_tool, calls,
}

abbrev chain : Map CustomToolConfig
chain =
    (codes "a", calls (codes "b")) ∷ (codes "b", calls (codes "c")) ∷ (codes "c", find_tool) ∷ []

abbrev ring : Map CustomToolConfig
ring = (codes "a", calls (codes "b")) ∷ (codes "b", calls (codes "a")) ∷ []

cycle_tests :
    (detect_compose_circular_deps ring ≡ cycle (codes "a" ∷ codes "b" ∷ codes "a" ∷ []))
    × (validate_custom_tools (config_with read_only (some chain)) ≡ some (ok tt))
unfolding validation_runs
cycle_tests = (refl, refl)

temp_table_tests :
    (temp_table (codes "create temp table if not exists t1(x int)") ≡ some (codes "t1"))
    × (temp_table (codes "x; CREATE TEMPORARY TABLE t2 as") ≡ some (codes "t2"))
    × (temp_table (codes "create table t3") ≡ none)
unfolding temp_tables_run
temp_table_tests = (refl, refl, refl)

detect_compose_circular_deps-ends_example :
    ((st : Search) × (detect_compose_circular_deps ring ≡ done st)
      × ((n : Text) → IsGrounded (edges_of ring) n))
    ⊎ ((path : List Text) × (detect_compose_circular_deps ring ≡ cycle path))
detect_compose_circular_deps-ends_example = detect_compose_circular_deps-ends ring

-- A database whose statements fail.
abbrev failing : Backend ℕ
failing = record counting {
  execute = λ name sql params options w. (err (database (codes "BUSY") []), w);
}

abbrev ready : List Prepared
ready = record { sql = codes "select 1"; values = []; is_return = false } ∷ []

-- BEGIN fails: the lock stays.
leak_test :
    (s' : Session ℕ) × (execute_steps_raw rejects host failing
        (config_with read_only none)
        steps_tool
        []
        fresh
      ≡ some (err (database (codes "BUSY") []), s'))
    × (s'.locked ≡ codes "db" ∷ [])
unfolding locked_runs
leak_test = (_, refl, refl)

execute_steps_raw-lock_example :
    EndsLocked rejects host failing
      (conn_of read_only)
      steps_tool
      fresh
      (execute_steps_raw rejects host failing (config_with read_only none) steps_tool [] fresh)
unfolding locked_runs
execute_steps_raw-lock_example =
    execute_steps_raw-lock rejects host failing (config_with read_only none) (conn_of read_only)
      steps_tool [] fresh refl refl
