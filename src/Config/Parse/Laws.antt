-- ===== src/Config/Parse/Laws.antt =====
-- What a configuration file that loads makes of its connections.
use omnibase.Prelude.{
  ◌≡◌, refl, ap, sym, ◌∙◌, inl, inr, ◌⊎◌, ◌≢◌, ◌==◌, ==_iff, true, false, Option, none, some, List,
  [], ◌∷◌, arith, Bool-cases,
}
use omnibase.Text.{Text, codes, text_eq}
use omnibase.Text.Laws.{text_eq_iff}
use omnibase.Collections.{Map, lookup, has, keys}
use omnibase.Collections.Laws.{lookup_here, lookup_there}
use omnibase.Types.{
  PermissionLevel, read_only, read_write, admin, ConnectionConfig, Defaults, OmnibaseConfig,
}
use omnibase.Exec.{ok}
use omnibase.Exec.Laws.{ok-injective}
use omnibase.Exec.Pure.Laws.{>>=-eq-ok}
use omnibase.Config.{get_connection}
use omnibase.Config.Raw.{RawConnection, RawDefaults, RawConfig}
use omnibase.Config.Parse.{
  validate_permission, permission_or, env_value, resolve_dsn, checked_dsn, parse_defaults,
  parse_connection, parse_connections, parse_tools, parse_config,
}

-- The text of a level in a configuration file.
abbrev pub level_name : PermissionLevel → Text
level_name read_only = codes "read-only"
level_name read_write = codes "read-write"
level_name admin = codes "admin"

-- What is stated, or else what is stated elsewhere.
abbrev pub stated_or : Text → Option Text → Text
stated_or other none = other
stated_or other (some []) = other
stated_or other (some (c ∷ s)) = c ∷ s

validate_permission-names :
    (value : Text) (level : PermissionLevel)
    → validate_permission value ≡ ok level
    → level_name level ≡ value
unfolding validate_permission
validate_permission-names value level h = ground (
  arith,
  text_eq_iff value (codes "read-only"),
  text_eq_iff value (codes "read-write"),
  text_eq_iff value (codes "admin"),
)

permission_or-names :
    (other level : PermissionLevel) (stated : Option Text)
    → permission_or other stated ≡ ok level
    → level_name level ≡ stated_or (level_name other) stated
permission_or-names other level none h = ap level_name (sym (ok-injective h))
permission_or-names other level (some []) h = ap level_name (sym (ok-injective h))
permission_or-names other level (some (c ∷ s)) h = validate_permission-names (c ∷ s) level h

-- The data source of a connection: a text behind a dollar sign names a variable, whose value is not
-- empty, and any other text that is not empty stands for itself.
abbrev pub IsSource : (Text → Option Text) → Option Text → Text → Type 0
IsSource env none dsn = ⊥
IsSource env (some []) dsn = ⊥
IsSource env (some (c ∷ s)) dsn =
    ((c ≡ b'$') × (env s ≡ some dsn) × (dsn ≢ [])) ⊎ ((c ≢ b'$') × (dsn ≡ c ∷ s))

env_value-filled :
    (name : Text) (found : Option Text) (dsn : Text)
    → env_value name found ≡ ok dsn
    → (found ≡ some dsn) × (dsn ≢ [])
env_value-filled name none dsn h = cc
env_value-filled name (some []) dsn h = cc
env_value-filled name (some (c ∷ s)) dsn h =
    let same = ok-injective h in (ap some same, λ none_left. cc)

checked_dsn-IsSource :
    (env : Text → Option Text) (name : Text) (stated : Option Text) (dsn : Text)
    → checked_dsn env name stated ≡ ok dsn
    → IsSource env stated dsn
unfolding resolve_dsn
checked_dsn-IsSource env name none dsn h = cc
checked_dsn-IsSource env name (some []) dsn h = cc
checked_dsn-IsSource env name (some (c ∷ s)) dsn h = elim (Bool-cases (c == b'$')) [
  | inl dollar ↦
      let variable : env_value s (env s) ≡ ok dsn = rw dollar at h in
      let (set, filled) = env_value-filled s (env s) dsn variable in
      inl ((==_iff c b'$').0 dollar, set, filled)
  | inr other ↦
      let itself : ok (c ∷ s) ≡ ok dsn = rw other at h in
      inr ((λ e. cc ((==_iff c b'$').1 e)), sym (ok-injective itself))
]

-- What a connection of the file became.
pub record IsLoaded (env : Text → Option Text) (raw : RawConfig) (config : OmnibaseConfig)
    (name : Text) : Type 0 where
  pub stated : RawConnection
  pub conn : ConnectionConfig
  pub listed : lookup name raw.connections ≡ some stated
  pub found : get_connection config name ≡ ok conn
  pub named : conn.name ≡ name
  pub source : IsSource env stated.dsn conn.dsn
  pub level :
      level_name conn.permission
      ≡ stated_or (stated_or (codes "read-only") raw.defaults.permission) stated.permission

module _ (env : Text → Option Text) (defaults : Defaults) where
  record IsEntry (name : Text) (raw : Map RawConnection) (conns : Map ConnectionConfig)
      : Type 0 where
    stated : RawConnection
    conn : ConnectionConfig
    listed : lookup name raw ≡ some stated
    found : lookup name conns ≡ some conn
    parsed : parse_connection env defaults name stated ≡ ok conn

  here-IsEntry :
      (k name : Text) (r : RawConnection) (rest : Map RawConnection) (conn : ConnectionConfig)
      (later : Map ConnectionConfig)
      → parse_connection env defaults k r ≡ ok conn
      → text_eq k name ≡ true
      → IsEntry name ((k, r) ∷ rest) ((k, conn) ∷ later)
  here-IsEntry k name r rest conn later one same = record {
    stated = r;
    conn = conn;
    listed = lookup_here k name r rest same;
    found = lookup_here k name conn later same;
    parsed = rw (← (text_eq_iff k name).0 same) one;
  }

  there-IsEntry :
      (k name : Text) (r : RawConnection) (rest : Map RawConnection) (conn : ConnectionConfig)
      (later : Map ConnectionConfig)
      → text_eq k name ≡ false
      → IsEntry name rest later
      → IsEntry name ((k, r) ∷ rest) ((k, conn) ∷ later)
  there-IsEntry k name r rest conn later other entry = record {
    stated = entry.stated;
    conn = entry.conn;
    listed = lookup_there k name r rest other ∙ entry.listed;
    found = lookup_there k name conn later other ∙ entry.found;
    parsed = entry.parsed;
  }

  has_rest :
      (k name : Text) (names : List Text)
      → has name (k ∷ names) ≡ true
      → text_eq k name ≡ false
      → has name names ≡ true
  unfolding has
  has_rest k name names there other = rw other at there

  parse_connections-IsEntry :
      (name : Text) (raw : Map RawConnection) (conns : Map ConnectionConfig)
      → parse_connections env defaults raw ≡ ok conns
      → has name (keys raw) ≡ true
      → IsEntry name raw conns
  unfolding parse_connections
  parse_connections-IsEntry name [] conns h there =
      let bad : false ≡ true = (unfold has in there) in cc
  parse_connections-IsEntry name ((k, r) ∷ rest) conns h there =
      let (conn, one, more) = >>=-eq-ok (parse_connection env defaults k r) _ conns h in
      let (later, others, built) = >>=-eq-ok (parse_connections env defaults rest) _ conns more in
      rw (← ok-injective built) (elim (Bool-cases (text_eq k name)) [
        | inl same ↦ here-IsEntry k name r rest conn later one same
        | inr other ↦ there-IsEntry k name r rest conn later other (
            parse_connections-IsEntry name rest later others
              (has_rest k name (keys rest) there other))
      ])

parse_connection-parts :
    (env : Text → Option Text) (defaults : Defaults) (name : Text) (raw : RawConnection)
    (conn : ConnectionConfig)
    → parse_connection env defaults name raw ≡ ok conn
    → (conn.name ≡ name)
      × (checked_dsn env name raw.dsn ≡ ok conn.dsn)
      × (level_name conn.permission ≡ stated_or (level_name defaults.permission) raw.permission)
unfolding parse_connection
parse_connection-parts env defaults name raw conn h =
    let (dsn, d, more) = >>=-eq-ok (checked_dsn env name raw.dsn) _ conn h in
    let (level, l, built) =
      >>=-eq-ok (permission_or defaults.permission raw.permission) _ conn more in
    let same = ok-injective built in
    (
      ap (λ (c : ConnectionConfig). c.name) (sym same),
      d ∙ ap (λ (c : ConnectionConfig). ok c.dsn) same,
      ap (λ (c : ConnectionConfig). level_name c.permission) (sym same)
          ∙ permission_or-names defaults.permission level raw.permission l,
    )

parse_defaults-level :
    (raw : RawDefaults) (defaults : Defaults)
    → parse_defaults raw ≡ ok defaults
    → level_name defaults.permission ≡ stated_or (codes "read-only") raw.permission
unfolding parse_defaults
parse_defaults-level raw defaults h =
    let (level, l, built) = >>=-eq-ok (permission_or read_only raw.permission) _ defaults h in
    ap (λ (d : Defaults). level_name d.permission) (sym (ok-injective built))
    ∙ permission_or-names read_only level raw.permission l

found_in :
    (name : Text) (config : OmnibaseConfig) (conn : ConnectionConfig)
    → lookup name config.connections ≡ some conn
    → get_connection config name ≡ ok conn
unfolding get_connection
found_in name config conn h = rw h refl

-- A configuration file that loads has every connection that it lists: looked up by its name, it has
-- this name, and as its data source the text that the file states, which is not empty, or, where that
-- is `$NAME`, the value of the variable NAME, which is set and not empty; and it has exactly the level
-- that it states, or else the default level of the file, or else read-only.
pub parse_config-IsLoaded :
    (env : Text → Option Text) (audit_path : Text) (raw : RawConfig) (config : OmnibaseConfig)
    (name : Text)
    → parse_config env audit_path raw ≡ ok config
    → has name (keys raw.connections) ≡ true
    → IsLoaded env raw config name
unfolding parse_config
parse_config-IsLoaded env audit_path raw config name h there =
    let (defaults, d, m1) = >>=-eq-ok (parse_defaults raw.defaults) _ config h in
    let (conns, c, m2) = >>=-eq-ok (parse_connections env defaults raw.connections) _ config m1 in
    let (tools, t, built) = >>=-eq-ok (parse_tools raw.tools) _ config m2 in
    let same = ap (λ (g : OmnibaseConfig). g.connections) (ok-injective built) in
    let entry = parse_connections-IsEntry env defaults name raw.connections conns c there in
    let parts = parse_connection-parts env defaults name entry.stated entry.conn entry.parsed in
    record {
      stated = entry.stated;
      conn = entry.conn;
      listed = entry.listed;
      found = found_in name config entry.conn (ap (lookup name) (sym same) ∙ entry.found);
      named = parts.0;
      source = checked_dsn-IsSource env name entry.stated.dsn entry.conn.dsn parts.1;
      level =
          parts.2
          ∙ ap (λ other. stated_or other entry.stated.permission)
              (parse_defaults-level raw.defaults defaults d);
    }
