-- ===== src/Session.antt =====
-- What the tool handlers run on: the connection manager's state, the database behind the sidecar,
-- and the entries handed to the audit logger. The database is a parameter: `DatabaseBackend` of
-- src/types.ts as a record of actions on a world of its own.
use omnibase.Prelude.{ℕ, Bool, Option, List, [], ◌∷◌, ◌++◌}
use omnibase.Text.{Text}
use omnibase.Values.{Value}
use omnibase.Collections.{Map}
use omnibase.Types.{ConnectionStatus, SchemaFilter, SchemaInfo, QueryResult, ExecuteOptions, Error}
use omnibase.Exec.{Exec}

-- The answer of `validateQuery`.
pub record Validation : Type 0 where
  pub valid : Bool
  pub error : Option Text

pub record Backend (W : Type 0) : Type 0 where
  pub connect : Text → Text → Exec W Text
  pub execute : Text → Text → Option (List Value) → ExecuteOptions → Exec W QueryResult
  pub get_schema : Text → Option SchemaFilter → Exec W SchemaInfo
  pub explain_query : Text → Text → Option Bool → Exec W QueryResult
  pub validate_query : Text → Text → Exec W Validation
  pub ping : Text → Exec W (Unit {0})
  pub disconnect : Text → Exec W (Unit {0})

-- The fields of `ConnectionManager`, but for the transaction locks, which are `locked` below.
pub record Manager : Type 0 where
  pub connected_ids : List Text
  pub schema_cache : Map SchemaInfo
  pub status_map : Map ConnectionStatus
  pub driver_map : Map Text

pub data AuditStatus : Type 0 where
  done failed : AuditStatus

-- An entry as a handler hands it to the logger; the measured duration is left out.
pub record AuditEntry : Type 0 where
  pub tool : Text
  pub connection : Text
  pub sql : Text
  pub params : List Value
  pub rows : ℕ
  pub status : AuditStatus
  pub error : Option Error

pub record Session (W : Type 0) : Type 0 where
  pub manager : Manager
  pub world : W
  pub audited : List AuditEntry
  -- the connections whose transaction lock is held
  pub locked : List Text

abbrev pub new_manager : Manager
new_manager = record { connected_ids = []; schema_cache = []; status_map = []; driver_map = [] }

module _ {W : Type 0} where
  -- An action of the database within a session.
  abbrev pub perform : {A : Type 0} → Exec W A → Exec (Session W) A
  perform m s = let (r, w) = m s.world in (r, record s { world = w })

  abbrev pub on_manager : (Manager → Manager) → Session W → Session W
  on_manager f s = record s { manager = f s.manager }

  -- `auditLogger.log(entry)`
  abbrev pub audit : AuditEntry → Session W → Session W
  audit entry s = record s { audited = s.audited ++ entry ∷ [] }

  abbrev pub new_session : W → Session W
  new_session world = record { manager = new_manager; world = world; audited = []; locked = [] }
