-- ===== src/ExecuteSql/Guards.antt =====
-- Which statements reach the database, and what a refusal leaves behind.
use Prim.Native.Nat.{◌<◌}
use omnibase.Prelude.{◌≡◌, refl, ap, ◌⊎◌, inl, inr, false, Option, none, some, arith}
use omnibase.Text.{Text, trim}
use omnibase.Values.{Value}
use omnibase.Types.{ConnectionConfig, OmnibaseConfig, QueryCategory, Error}
use omnibase.Exec.{ok, err}
use omnibase.Exec.Laws.{Result-cases}
use omnibase.Analyzer.{classify_query, is_multi_statement}
use omnibase.Permission.{enforce_permission}
use omnibase.Permission.Laws.{category_rank, level_rank, enforce_permission_iff}
use omnibase.Security.{check_sql_security}
use omnibase.Config.{get_connection}
use omnibase.Session.{Backend, Session, failed, audit}
use omnibase.ExecuteSql.Checks.{
  is_blank, refuse_table, protected_target, check_category, check_query,
}
use omnibase.ExecuteSql.{Request, entry, checked_query, on_connection, handle_execute_sql}

module _ (astify : Text → Option Value) where
  -- What has been established of a statement that passed every check.
  pub record IsAuthorized (conn : ConnectionConfig) (query : Text) (category : QueryCategory)
      : Type 0 where
    pub visible : is_blank (trim query) ≡ false
    pub single : is_multi_statement astify query ≡ false
    pub cleared : check_sql_security query conn.allow_all_pragmas ≡ ok tt
    pub classified : classify_query astify query ≡ category
    pub permitted : enforce_permission conn.name conn.permission category ≡ ok tt
    pub unprotected : protected_target conn category query ≡ none

  refuse_table-none : (o : Option Text) → refuse_table o ≡ ok tt → o ≡ none
  refuse_table-none none h = refl
  refuse_table-none (some t) h = cc

  pub check_query-IsAuthorized :
      (conn : ConnectionConfig) (query : Text) (category : QueryCategory)
      → check_query astify conn query ≡ ok category
      → IsAuthorized conn query category
  unfolding check_query check_category
  check_query-IsAuthorized conn query category h = record {
    visible = ground arith;
    single = ground arith;
    cleared = ground arith;
    classified = ground arith;
    permitted = ground arith;
    unprotected =
        ground
          (arith, refuse_table-none (protected_target conn (classify_query astify query) query));
  }

module _ {W : Type 0} (astify : Text → Option Value) (backend : Backend W) where
  on_connection-refused :
      (conn : ConnectionConfig) (req : Request) (e : Error) (s : Session W)
      → check_query astify conn req.query ≡ err e
      → on_connection astify backend conn req s
        ≡ (err e, audit (entry conn req 0 failed (some e)) s)
  unfolding on_connection checked_query
  on_connection-refused conn req e s h = rw h refl

  -- A statement that fails a check is answered by that error; the database, the connections and the
  -- cache of schemas are left as they were, and the refusal is audited by one entry.
  pub refused_runs_nothing :
      (config : OmnibaseConfig) (conn : ConnectionConfig) (req : Request) (e : Error)
      (s : Session W)
      → get_connection config req.connection ≡ ok conn
      → check_query astify conn req.query ≡ err e
      → handle_execute_sql astify backend config req s
        ≡ (err e, audit (entry conn req 0 failed (some e)) s)
  unfolding handle_execute_sql
  refused_runs_nothing config conn req e s found h = rw found (on_connection-refused conn req e s h)

  -- Whatever the request, and whether the call returns or throws: the connection is known and the
  -- statement passed every check, or the database and the manager are as they were before.
  pub database_is_guarded :
      (config : OmnibaseConfig) (req : Request) (s : Session W)
      → ((conn : ConnectionConfig) × (category : QueryCategory) × (get_connection config
              req.connection
            ≡ ok conn)
          × IsAuthorized astify conn req.query category)
        ⊎ (((handle_execute_sql astify backend config req s).1.world ≡ s.world)
            × ((handle_execute_sql astify backend config req s).1.manager ≡ s.manager))
  unfolding handle_execute_sql
  database_is_guarded config req s = elim (Result-cases (get_connection config req.connection)) [
    | inr (e, unknown) ↦ inr (rw unknown refl, rw unknown refl)
    | inl (conn, found) ↦ elim (Result-cases (check_query astify conn req.query)) [
      | inl (category, passed) ↦
          inl
            (conn, category, found, check_query-IsAuthorized astify conn req.query category passed)
      | inr (e, refused) ↦
          let gone = refused_runs_nothing config conn req e s found refused in
          inr (ap (λ run. run.1.world) gone, ap (λ run. run.1.manager) gone)
    ]
  ]

  -- A statement whose category ranks above the connection's level, such as a write on a read-only
  -- connection, is answered by an error and leaves the database and the manager as they were.
  pub level_protects_database :
      (config : OmnibaseConfig) (conn : ConnectionConfig) (req : Request) (s : Session W)
      → get_connection config req.connection ≡ ok conn
      → level_rank conn.permission < category_rank (classify_query astify req.query)
      → (e : Error) × (handle_execute_sql astify backend config req s
          ≡ (err e, audit (entry conn req 0 failed (some e)) s))
  level_protects_database config conn req s found high =
      elim (Result-cases (check_query astify conn req.query)) [
        | inr (e, refused) ↦ (e, refused_runs_nothing config conn req e s found refused)
        | inl (category, passed) ↦
            let a = check_query-IsAuthorized astify conn req.query category passed in
            let low = (enforce_permission_iff conn.name conn.permission category).0.0 a.permitted in
            absurd (omega (arith, ap category_rank a.classified))
      ]
