-- ===== src/Server/Audited.antt =====
-- Every call of a tool that reads data is audited once.
use omnibase.Prelude.{ℕ, ◌≡◌, refl, ap, inl, inr, false, Option, none, List, [], ◌∷◌, ◌++◌}
use omnibase.Text.{Text, codes}
use omnibase.Values.{Conversions}
use omnibase.Types.{
  ConnectionConfig, SchemaInfo, TableInfo, ColumnInfo, OmnibaseConfig, QueryResult,
  FormattedQueryResult, Error,
}
use omnibase.Exec.{Result, ok, Exec, pure, lift, catch, ◌>>=◌}
use omnibase.Exec.Laws.{Result-cases}
use omnibase.Exec.Keeps.{Keeps, Keeps-pure, Keeps-lift, Keeps-bind, Keeps-catch}
use omnibase.Formatter.{format_query_result}
use omnibase.Config.{get_connection}
use omnibase.Session.{Backend, Session, AuditEntry, AuditStatus, done, failed, audit}
use omnibase.Manager.{execute, get_schema}
use omnibase.Manager.Audits.{Audits, Keeps-execute, Keeps-get_schema}
use omnibase.Sampling.{
  ℤ, DistinctValues, get_dialect, select_with_limit, find_table, find_column, checked_limit,
  distinct_query, distinct_values, handle_get_sample, handle_get_distinct_values,
}
use omnibase.Sampling.Stats.{
  Arithmetic, TableStats, checked_size, stats_query, table_stats, handle_get_table_stats,
}
use omnibase.Server.{
  Response, answered, error_response, audited_call, call_get_sample, call_get_table_stats,
  call_get_distinct_values,
}

abbrev pub status_of : {A : Type 0} → Response A → AuditStatus
status_of (answered a) = done
status_of (error_response e) = failed

-- The call answered, with one entry more for the tool and the connection, which says whether the
-- answer is an error.
pub record IsAudited {W A : Type 0} (tool connection : Text) (s : Session W)
    (run : Result (Response A) × Session W) : Type 0 where
  pub response : Response A
  pub after : Session W
  pub entry : AuditEntry
  pub returned : run ≡ (ok response, after)
  pub appended : after.audited ≡ s.audited ++ entry ∷ []
  pub of_tool : entry.tool ≡ tool
  pub of_connection : entry.connection ≡ connection
  pub outcome : entry.status ≡ status_of response

-- The entry that a callback writes is for its tool and connection.
abbrev IsFor : Text → Text → AuditStatus → AuditEntry → Type 0
IsFor tool connection status e = (e.tool ≡ tool) × (e.connection ≡ connection) × (e.status ≡ status)

module _ {W : Type 0} (backend : Backend W) (on_schema_fetched : Text → SchemaInfo → W → W) where
  audited_call-IsAudited :
      {A : Type 0} (tool connection : Text) (on_result : A → AuditEntry)
      (on_error : Error → AuditEntry) (handler : Exec (Session W) A) (s : Session W)
      → ((a : A) → IsFor tool connection done (on_result a))
      → ((e : Error) → IsFor tool connection failed (on_error e))
      → Keeps (Audits backend on_schema_fetched s.audited) handler
      → IsAudited tool connection s (audited_call on_result on_error handler s)
  unfolding audited_call
  audited_call-IsAudited tool connection on_result on_error handler s results errors keeps =
      elim (Result-cases (handler s).0) [
        | inl (a, e) ↦ record {
          response = answered a;
          after = audit (on_result a) (handler s).1;
          entry = on_result a;
          returned = rw e refl;
          appended = ap (λ before. before ++ on_result a ∷ []) (keeps.at s refl);
          of_tool = (results a).0;
          of_connection = (results a).1;
          outcome = (results a).2;
        }
        | inr (e, threw) ↦ record {
          response = error_response e;
          after = audit (on_error e) (handler s).1;
          entry = on_error e;
          returned = rw threw refl;
          appended = ap (λ before. before ++ on_error e ∷ []) (keeps.at s refl);
          of_tool = (errors e).0;
          of_connection = (errors e).1;
          outcome = (errors e).2;
        }
      ]

  module _ (entries : List AuditEntry) where
    abbrev Silent : Session W → Type 0
    Silent = Audits backend on_schema_fetched entries

    -- What the three handlers do before they send their statement, and what they send, audits
    -- nothing.
    Keeps-table :
        {A : Type 0} (config : OmnibaseConfig) (connection : Text)
        (next : ConnectionConfig → SchemaInfo → Exec (Session W) A)
        → ((conn : ConnectionConfig) (schema : SchemaInfo) → Keeps Silent (next conn schema))
        → Keeps Silent (
            lift (get_connection config connection) >>= λ conn.
            get_schema backend on_schema_fetched conn false none >>= next conn)
    Keeps-table config connection next keeps = Keeps-bind _ _ (Keeps-lift _) (λ conn.
        Keeps-bind _ _ (Keeps-get_schema backend on_schema_fetched entries conn false none)
          (λ schema. keeps conn schema))

    Keeps-sent :
        {A : Type 0} (conn : ConnectionConfig) (sql : Text) (shown : QueryResult → A)
        → Keeps Silent (execute backend conn sql none none >>= λ result. pure (shown result))
    Keeps-sent conn sql shown =
        Keeps-bind _ _ (Keeps-execute backend on_schema_fetched entries conn sql none none)
          (λ result. Keeps-pure (shown result))

    Keeps-checked :
        {A B : Type 0} (r : Result A) (next : A → Exec (Session W) B)
        → ((a : A) → Keeps Silent (next a))
        → Keeps Silent (lift r >>= next)
    Keeps-checked r next keeps = Keeps-bind (lift r) next (Keeps-lift r) keeps

    get_sample-Silent :
        (config : OmnibaseConfig) (connection table : Text) (limit : Option ℤ)
        (condition order_by : Option Text)
        → Keeps Silent (
            handle_get_sample backend on_schema_fetched config connection table limit condition
              order_by)
    unfolding handle_get_sample
    get_sample-Silent config connection table limit condition order_by =
        let send : ConnectionConfig → TableInfo → ℕ → Exec (Session W) FormattedQueryResult =
          λ conn found n.
            execute backend conn
              (select_with_limit (codes "*") found.name n (get_dialect conn) condition order_by)
              none none
            >>= λ result. pure (format_query_result result n conn.max_value_length) in
        let sized : ConnectionConfig → TableInfo → Exec (Session W) FormattedQueryResult =
          λ conn found. lift (checked_limit 10 limit) >>= send conn found in
        Keeps-table config connection (λ conn schema. lift (find_table table schema) >>= sized conn)
          (λ conn schema. Keeps-checked (find_table table schema) (sized conn) (λ found.
            Keeps-checked (checked_limit 10 limit) (send conn found) (λ n.
              Keeps-sent conn _ (λ result. format_query_result result n conn.max_value_length))))

    get_distinct_values-Silent :
        (host : Conversions) (config : OmnibaseConfig) (connection table column : Text)
        (limit : Option ℤ)
        → Keeps Silent (
            handle_get_distinct_values backend on_schema_fetched host config connection table column
              limit)
    unfolding handle_get_distinct_values
    get_distinct_values-Silent host config connection table column limit =
        let send : ConnectionConfig → TableInfo → ColumnInfo → ℕ → Exec (Session W) DistinctValues =
          λ conn found picked n.
            execute backend conn (distinct_query (get_dialect conn) n found picked) none none
            >>= λ result. pure (distinct_values host n found picked result) in
        let sized : ConnectionConfig → TableInfo → ColumnInfo → Exec (Session W) DistinctValues =
          λ conn found picked. lift (checked_limit 50 limit) >>= send conn found picked in
        let pick : ConnectionConfig → TableInfo → Exec (Session W) DistinctValues =
          λ conn found. lift (find_column column table found) >>= sized conn found in
        Keeps-table config connection (λ conn schema. lift (find_table table schema) >>= pick conn)
          (λ conn schema. Keeps-checked (find_table table schema) (pick conn) (λ found.
            Keeps-checked (find_column column table found) (sized conn found) (λ picked.
              Keeps-checked (checked_limit 50 limit) (send conn found picked)
                (λ n. Keeps-sent conn _ (distinct_values host n found picked)))))

    get_table_stats-Silent :
        (host : Conversions) (arithmetic : Arithmetic) (config : OmnibaseConfig)
        (connection table : Text) (size : Option ℤ)
        → Keeps Silent (
            handle_get_table_stats host arithmetic backend on_schema_fetched config connection table
              size)
    unfolding handle_get_table_stats
    get_table_stats-Silent host arithmetic config connection table size =
        let query : ConnectionConfig → TableInfo → ℕ → Text =
          λ conn found n. stats_query (get_dialect conn) n found in
        let ask : ConnectionConfig → Text → Exec (Session W) QueryResult =
          λ conn sql. execute backend conn sql none none in
        let tried : ConnectionConfig → Text → Exec (Session W) QueryResult =
          λ conn sql. catch (ask conn (sql ++ codes " AS _sample")) (λ _. ask conn sql) in
        let send : ConnectionConfig → TableInfo → ℕ → Exec (Session W) TableStats = λ conn found n.
          tried conn (query conn found n) >>= λ result.
          pure (table_stats host arithmetic n found result) in
        let sized : ConnectionConfig → TableInfo → Exec (Session W) TableStats =
          λ conn found. lift (checked_size size) >>= send conn found in
        let silent : (conn : ConnectionConfig) (sql : Text) → Keeps Silent (ask conn sql) =
          λ conn sql. Keeps-execute backend on_schema_fetched entries conn sql none none in
        Keeps-table config connection (λ conn schema. lift (find_table table schema) >>= sized conn)
          (λ conn schema. Keeps-checked (find_table table schema) (sized conn) (λ found.
            Keeps-checked (checked_size size) (send conn found) (λ n.
              Keeps-bind (tried conn (query conn found n)) _
                (Keeps-catch _ _ (silent conn _) (λ e. silent conn _))
                (λ result. Keeps-pure (table_stats host arithmetic n found result)))))

  -- Whatever a client asks of the tools for samples, statistics and distinct values: the call
  -- answers, it appends exactly one entry to the audit, for the tool and the connection it was
  -- asked for, and the entry is marked failed exactly where the answer is an error.
  pub data_tools-IsAudited :
      (host : Conversions) (arithmetic : Arithmetic) (config : OmnibaseConfig)
      (connection table column : Text) (limit : Option ℤ) (condition order_by : Option Text)
      (s : Session W)
      → IsAudited (codes "get_sample") connection s (
          call_get_sample backend on_schema_fetched config connection table limit condition order_by
            s)
        × IsAudited (codes "get_table_stats") connection s (
            call_get_table_stats backend on_schema_fetched host arithmetic config connection table
              limit s)
        × IsAudited (codes "get_distinct_values") connection s (
            call_get_distinct_values backend on_schema_fetched host config connection table column
              limit s)
  unfolding call_get_sample call_get_table_stats call_get_distinct_values
  data_tools-IsAudited host arithmetic config connection table column limit condition order_by s = (
    audited_call-IsAudited (codes "get_sample") connection _ _ _ s (λ a. (refl, refl, refl))
        (λ e. (refl, refl, refl))
        (get_sample-Silent s.audited config connection table limit condition order_by),
    audited_call-IsAudited (codes "get_table_stats") connection _ _ _ s (λ a. (refl, refl, refl))
        (λ e. (refl, refl, refl))
        (get_table_stats-Silent s.audited host arithmetic config connection table limit),
    audited_call-IsAudited (codes "get_distinct_values") connection _ _ _ s
        (λ a. (refl, refl, refl)) (λ e. (refl, refl, refl))
        (get_distinct_values-Silent s.audited host config connection table column limit),
  )
