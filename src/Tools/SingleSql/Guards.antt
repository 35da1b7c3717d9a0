-- ===== src/Tools/SingleSql/Guards.antt =====
-- Which templates reach the database.
use omnibase.Prelude.{◌≡◌, false, Option, List, [], or_else}
use omnibase.Text.{Text}
use omnibase.Values.{Value, Conversions}
use omnibase.Collections.{Map}
use omnibase.Types.{ConnectionConfig, CustomToolConfig}
use omnibase.Exec.{ok}
use omnibase.Analyzer.{classify_query, is_multi_statement}
use omnibase.Permission.{enforce_permission}
use omnibase.Security.{check_sql_security}
use omnibase.Session.{Session}
use omnibase.Parameters.{substitute_parameters}
use omnibase.Tools.Prepare.{effective_permission}

module _ (astify : Text → Option Value) (host : Conversions) where
  -- What has been established of the statement that a template became.
  pub record IsCleared (conn : ConnectionConfig) (tool : CustomToolConfig) (args : Map Value)
      (sql : Text) (values : List Value) : Type 0 where
    pub substituted :
        substitute_parameters host (or_else tool.sql []) args (or_else tool.parameters [])
        ≡ ok (sql, values)
    pub single : is_multi_statement astify sql ≡ false
    pub cleared : check_sql_security sql conn.allow_all_pragmas ≡ ok tt
    pub permitted :
        enforce_permission conn.name (effective_permission conn tool) (classify_query astify sql)
        ≡ ok tt
