-- ===== src/Config/Path.antt =====
-- src/config.ts: `resolveConfigPath`. The environment, `existsSync`, and the functions `resolve` and
-- `join` of the host's paths are arguments.
use omnibase.Prelude.{Bool, Option, none, some, List, [], ◌∷◌, ◌++◌, if◌then◌else◌}
use omnibase.Text.{Text, codes}

pub record Host : Type 0 where
  pub env : Text → Option Text
  pub exists : Text → Bool
  pub resolve : Text → Text
  pub join : List Text → Text

-- `a || b` on variables, which are set to a text that is not empty
abbrev pub or_set : Option Text → Text → Text
or_set none other = other
or_set (some []) other = other
or_set (some (c ∷ s)) other = c ∷ s

-- The first of the places where there is a file.
abbrev pub first_path : (Text → Bool) → List (Text × Text) → Option Text
first_path exists [] = none
first_path exists ((path, result) ∷ places) =
    let rest = first_path exists places in if exists path then some result else rest

-- The place that the variable names, where it is set.
abbrev pub from_env : Host → Option Text → List (Text × Text)
from_env host none = []
from_env host (some []) = []
from_env host (some (c ∷ s)) = (c ∷ s, host.resolve (c ∷ s)) ∷ []

abbrev pub local_path : Host → Text → Text
local_path host cwd = host.join (cwd ∷ codes "omnibase.config.yaml" ∷ [])

abbrev pub global_path : Host → Text
global_path host =
    let home = or_set (host.env (codes "HOME")) (or_set (host.env (codes "USERPROFILE")) []) in
    host.join (home ∷ codes ".config" ∷ codes "omnibase" ∷ codes "config.yaml" ∷ [])

unfoldable pub resolve_config_path : Host → Text → Option Text
resolve_config_path host cwd = first_path host.exists (
    from_env host (host.env (codes "OMNIBASE_CONFIG"))
    ++ (local_path host cwd, local_path host cwd) ∷ (global_path host, global_path host) ∷ [])
