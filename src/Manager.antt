-- ===== src/Manager.antt =====
-- src/connection-manager.ts: connections, their status, and the cache of schemas.
pub mod Status
pub mod Cache
pub mod Locks
pub mod Overlap
pub mod Audits
use omnibase.Prelude.{
  ℕ, Bool, true, false, not, ◌&&◌, Option, none, some, List, [], ◌∷◌, or_else, is_some,
  if◌then◌else◌,
}
use omnibase.Text.{Text}
use omnibase.Values.{Value}
use omnibase.Collections.{Map, lookup, insert, delete, has, add, remove, collections_run}
use omnibase.Types.{
  ConnectionConfig, ConnectionStatus, available, connected, error, SchemaFilter, SchemaInfo,
  QueryResult, ExecuteOptions,
}
use omnibase.Exec.{Result, ok, err, Exec, pure, throw, modify, gets, catch, continue, ◌>>=◌, ◌>>◌}
use omnibase.Session.{Backend, Validation, Manager, Session, perform, on_manager}

abbrev set_status : Text → ConnectionStatus → Manager → Manager
set_status name status m = record m { status_map = insert name status m.status_map }

abbrev add_connection : Text → Text → Manager → Manager
add_connection name driver m = record m {
  connected_ids = add name m.connected_ids;
  status_map = insert name connected m.status_map;
  driver_map = insert name driver m.driver_map;
}

abbrev drop_connection : Text → Manager → Manager
drop_connection name m = record m {
  connected_ids = remove name m.connected_ids;
  schema_cache = delete name m.schema_cache;
  driver_map = delete name m.driver_map;
  status_map = insert name available m.status_map;
}

abbrev pub get_status : Manager → Text → ConnectionStatus
get_status m name = or_else (lookup name m.status_map) available

unfoldable pub get_driver : Manager → Text → Text
get_driver m name = or_else (lookup name m.driver_map) []

all_available : Map ConnectionStatus → Map ConnectionStatus
all_available [] = []
all_available ((name, status) ∷ m) = (name, available) ∷ all_available m

-- The sidecar's crash handler.
unfoldable pub handle_sidecar_crash : Manager → Manager
unfolding all_available
handle_sidecar_crash m = record m { connected_ids = []; status_map = all_available m.status_map }

unfoldable pub invalidate_schema_cache : Text → Manager → Manager
invalidate_schema_cache name m = record m { schema_cache = delete name m.schema_cache }

-- The filter that `getSchema` sends.
unfoldable pub filter_of : ConnectionConfig → Option Bool → Option SchemaFilter
filter_of config exact = elim config.schema_filter [
  | some (schemas, tables) ↦
      some (record { schemas = schemas; tables = tables; exact_counts = exact })
  | none ↦ elim exact [
    | none ↦ none
    | some b ↦ some (record { schemas = none; tables = none; exact_counts = some b })
  ]
]

-- The cached schema, where the cache may answer.
abbrev pub cached : Bool → Option Bool → Option SchemaInfo → Option SchemaInfo
cached false none found = found
cached _ _ _ = none

-- `options?.maxRows` and `options?.timeoutMs`
abbrev max_rows_of : Option ExecuteOptions → Option ℕ
max_rows_of none = none
max_rows_of (some o) = o.max_rows

abbrev timeout_of : Option ExecuteOptions → Option ℕ
timeout_of none = none
timeout_of (some o) = o.timeout_ms

abbrev pub limits : ConnectionConfig → Option ExecuteOptions → ExecuteOptions
limits config options = record {
  max_rows = some (or_else (max_rows_of options) config.max_rows);
  timeout_ms = some (or_else (timeout_of options) config.timeout);
}

module _ {W : Type 0} (backend : Backend W) where
  -- What the answer of the sidecar does to the state.
  abbrev pub record_connection : Text → Result Text → Exec (Session W) (Unit {0})
  record_connection name (ok driver) s = (ok tt, on_manager (add_connection name driver) s)
  record_connection name (err e) s = (err e, on_manager (set_status name error) s)

  unfoldable pub ensure_connected : ConnectionConfig → Exec (Session W) (Unit {0})
  ensure_connected config s =
      let (r, s') = perform (backend.connect config.name config.dsn) s in
      let attempt = record_connection config.name r s' in
      if has config.name s.manager.connected_ids then (ok tt, s) else attempt

  unfoldable pub execute :
      ConnectionConfig
      → Text
      → Option (List Value)
      → Option ExecuteOptions
      → Exec (Session W) QueryResult
  execute config query params options = do
    ensure_connected config
    perform (backend.execute config.name query params (limits config options))

  unfoldable pub explain_query :
      ConnectionConfig → Text → Option Bool → Exec (Session W) QueryResult
  explain_query config query analyze = do
    ensure_connected config
    perform (backend.explain_query config.name query analyze)

  unfoldable pub validate_query : ConnectionConfig → Text → Exec (Session W) Validation
  validate_query config query = do
    ensure_connected config
    perform (backend.validate_query config.name query)

  unfoldable pub ping : ConnectionConfig → Exec (Session W) (Unit {0})
  ping config = do ensure_connected config; perform (backend.ping config.name)

  unfoldable pub disconnect : ConnectionConfig → Exec (Session W) (Unit {0})
  disconnect config = do
    perform (backend.disconnect config.name)
    modify (on_manager (drop_connection config.name))

  -- Best effort: a failure to disconnect is swallowed.
  unfoldable pub disconnect_all : List ConnectionConfig → Exec (Session W) (Unit {0})
  disconnect_all [] s = (ok tt, s)
  disconnect_all (config ∷ configs) s =
      let attempt = catch (disconnect config) (λ _. pure tt) s in
      let s' = if has config.name s.manager.connected_ids then attempt.1 else s in
      disconnect_all configs s'

  -- The callback set by `setOnSchemaFetched` acts on the world; the identity where none is set.
  module _ (on_schema_fetched : Text → SchemaInfo → W → W) where
    abbrev store_schema : Text → SchemaInfo → Session W → Session W
    store_schema name schema s = record s {
      manager = record s.manager { schema_cache = insert name schema s.manager.schema_cache };
      world = on_schema_fetched name schema s.world;
    }

    unfoldable pub fetch_schema : ConnectionConfig → Option Bool → Exec (Session W) SchemaInfo
    fetch_schema config exact = do
      schema ← perform (backend.get_schema config.name (filter_of config exact))
      modify (store_schema config.name schema)
      pure schema

    abbrev answer : ConnectionConfig → Option Bool → Option SchemaInfo → Exec (Session W) SchemaInfo
    answer config exact none = fetch_schema config exact
    answer config exact (some schema) = pure schema

    from_cache : ConnectionConfig → Bool → Option Bool → Exec (Session W) SchemaInfo
    from_cache config force_refresh exact s =
        answer config exact (cached force_refresh exact (lookup config.name s.manager.schema_cache))
          s

    unfoldable pub get_schema : ConnectionConfig → Bool → Option Bool → Exec (Session W) SchemaInfo
    unfolding from_cache
    get_schema config force_refresh exact = do
      ensure_connected config
      from_cache config force_refresh exact

-- Opens what this file defines, to evaluate it on concrete inputs.
unfoldable pub manager_runs : Unit {0}
unfolding get_driver handle_sidecar_crash invalidate_schema_cache filter_of ensure_connected execute
    explain_query validate_query ping disconnect disconnect_all fetch_schema get_schema
    collections_run
manager_runs = tt
