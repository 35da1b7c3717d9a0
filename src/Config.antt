-- ===== src/Config.antt =====
-- src/config.ts: the lookup of a connection. A name that
-- `Object.prototype` defines counts as missing here.
pub mod Raw
pub mod Parse
pub mod Path
use omnibase.Prelude.{Option, none, some, List, [], ◌∷◌, find}
use omnibase.Text.{Text, same_name, text_runs}
use omnibase.Collections.{Map, lookup, collections_run}
use omnibase.Types.{ConnectionConfig, OmnibaseConfig, unknown_connection}
use omnibase.Exec.{Result, ok, err}

-- `Object.values(o)`
abbrev pub values_of {ℓ} : {V : Type ℓ} → Map V → List V
values_of [] = []
values_of ((k, v) ∷ m) = v ∷ values_of m

-- `a ?? b`, and the exception where both are missing
abbrev pub first_found :
    Text → Option ConnectionConfig → Option ConnectionConfig → Result ConnectionConfig
first_found name (some conn) other = ok conn
first_found name none (some conn) = ok conn
first_found name none none = err (unknown_connection name)

unfoldable pub get_connection : OmnibaseConfig → Text → Result ConnectionConfig
get_connection config name =
    first_found name (lookup name config.connections)
      (find (λ c. same_name c.name name) (values_of config.connections))

-- Opens what this file defines, to evaluate it on concrete inputs.
unfoldable pub config_runs : Unit {0}
unfolding get_connection text_runs collections_run
config_runs = tt
