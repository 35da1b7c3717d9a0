-- ===== src/ExecuteSql/Paging.antt =====
-- What a query that returned sent to the database, and the size of its answer.
use Prim.Native.Nat.{◌≤◌}
use omnibase.Prelude.{
  ℕ, ◌+◌, ◌-◌, ◌≡◌, sym, ◌∙◌, ap, inl, inr, Option, none, some, length, arith, drop, length-take,
  length-map,
}
use omnibase.Text.{Text}
use omnibase.Values.{Value}
use omnibase.Types.{
  ConnectionConfig, OmnibaseConfig, QueryCategory, read, write, ddl, QueryResult,
  FormattedQueryResult, Error,
}
use omnibase.Exec.{ok, lift, modify, when, ◌>>=◌}
use omnibase.Exec.Laws.{>>=-eq-ok, catch-eq-ok, ok-injective}
use omnibase.Config.{get_connection}
use omnibase.Formatter.{format_query_result}
use omnibase.Session.{Backend, Session, done, audit, on_manager}
use omnibase.Manager.{execute, invalidate_schema_cache}
use omnibase.Analyzer.{classify_query}
use omnibase.ExecuteSql.Checks.{changes_data, check_query}
use omnibase.ExecuteSql.Guards.{check_query-IsAuthorized}
use omnibase.ExecuteSql.{
  Request, entry, limit_of, offset_of, page, format_page, invalidate_on_change, send, report,
  run_query, checked_query, log_failure, on_connection, handle_execute_sql,
}

-- The state in which the statement is sent: a read finds it as it was, and anything else forgets the
-- cached schema of the connection first.
abbrev pub IsPrepared : {W : Type 0} → Text → QueryCategory → Session W → Session W → Type 0
IsPrepared name read s before = before ≡ s
IsPrepared name write s before = before ≡ on_manager (invalidate_schema_cache name) s
IsPrepared name ddl s before = before ≡ on_manager (invalidate_schema_cache name) s

IsPrepared-when :
    {W : Type 0} (name : Text) (category : QueryCategory) (s before : Session W)
    → when (changes_data category) (modify (on_manager (invalidate_schema_cache name))) s
      ≡ (ok tt, before)
    → IsPrepared name category s before
IsPrepared-when name read s before h = sym (ap (λ run. run.1) h)
IsPrepared-when name write s before h = sym (ap (λ run. run.1) h)
IsPrepared-when name ddl s before h = sym (ap (λ run. run.1) h)

-- What one successful call did.
pub record IsRun {W : Type 0} (astify : Text → Option Value) (backend : Backend W)
    (config : OmnibaseConfig) (req : Request) (s s' : Session W) (r : FormattedQueryResult)
    : Type 0 where
  pub conn : ConnectionConfig
  pub category : QueryCategory
  pub result : QueryResult
  pub before : Session W
  pub after : Session W
  pub found : get_connection config req.connection ≡ ok conn
  pub classified : classify_query astify req.query ≡ category
  pub prepared : IsPrepared conn.name category s before
  pub sent :
      execute backend conn req.query req.params
        (some (record { max_rows = some (offset_of req + limit_of conn req); timeout_ms = none }))
        before
      ≡ (ok result, after)
  pub answered : r ≡ format_page conn req result
  pub audited : s' ≡ audit (entry conn req result.row_count done none) after

module _ {W : Type 0} (astify : Text → Option Value) (backend : Backend W) where
  run_query-IsRun :
      (config : OmnibaseConfig) (conn : ConnectionConfig) (req : Request) (category : QueryCategory)
      (s s' : Session W) (r : FormattedQueryResult)
      → get_connection config req.connection ≡ ok conn
      → classify_query astify req.query ≡ category
      → run_query astify backend conn req category s ≡ (ok r, s')
      → IsRun astify backend config req s s' r
  unfolding run_query
  run_query-IsRun config conn req category s s' r found classified h =
      let (_, before, prepared, rest) =
        >>=-eq-ok (invalidate_on_change astify backend conn category)
          (λ _. send astify backend conn req >>= report astify backend conn req) s s' r h in
      let (result, after, sent, ending) =
        >>=-eq-ok (send astify backend conn req) (report astify backend conn req) before s' r
          rest in
      record {
        conn = conn;
        category = category;
        result = result;
        before = before;
        after = after;
        found = found;
        classified = classified;
        prepared = IsPrepared-when conn.name category s before prepared;
        sent = sent;
        answered = ground arith;
        audited = ground arith;
      }

  log_failure_throws :
      (conn : ConnectionConfig) (req : Request) (e : Error) (s s' : Session W)
      (r : FormattedQueryResult)
      → log_failure astify backend conn req e s ≡ (ok r, s')
      → ⊥
  log_failure_throws conn req e s s' r h = cc

  on_connection-IsRun :
      (config : OmnibaseConfig) (conn : ConnectionConfig) (req : Request) (s s' : Session W)
      (r : FormattedQueryResult)
      → get_connection config req.connection ≡ ok conn
      → on_connection astify backend conn req s ≡ (ok r, s')
      → IsRun astify backend config req s s' r
  unfolding on_connection checked_query
  on_connection-IsRun config conn req s s' r found h =
      elim (catch-eq-ok (checked_query astify backend conn req)
        (log_failure astify backend conn req) s s' r h) [
          | inr (e, _, thrown) ↦ absurd (log_failure_throws conn req e _ s' r thrown)
          | inl returned ↦
              let (category, t, checked, rest) =
                >>=-eq-ok (lift (check_query astify conn req.query))
                  (run_query astify backend conn req) s s' r returned in
              let same : s ≡ t = ap (λ run. run.1) checked in
              run_query-IsRun config conn req category s s' r found
                (check_query-IsAuthorized astify conn req.query category
                  (ap (λ run. run.0) checked)).classified
                (rw same rest)
        ]

  -- A call that returned found its connection, forgot the cached schema of the connection exactly
  -- where the classifier calls the statement a write or ddl, and nothing else, then sent exactly the text and the parameters of the request with `offset + limit` as the
  -- number of rows, formatted the requested page of the answer, and appended one audit entry.
  pub handle_execute_sql-IsRun :
      (config : OmnibaseConfig) (req : Request) (s s' : Session W) (r : FormattedQueryResult)
      → handle_execute_sql astify backend config req s ≡ (ok r, s')
      → IsRun astify backend config req s s' r
  unfolding handle_execute_sql
  handle_execute_sql-IsRun config req s s' r h =
      let (conn, t, found, rest) =
        >>=-eq-ok (lift (get_connection config req.connection))
          (λ conn. on_connection astify backend conn req) s s' r h in
      let same : s ≡ t = ap (λ run. run.1) found in
      on_connection-IsRun config conn req s s' r (ap (λ run. run.0) found) (rw same rest)

-- The rows of a page behind an offset, whatever the database returned.
page-within :
    (offset limit : ℕ) (result : QueryResult)
    → 1 ≤ offset
    → (length (page offset limit result).rows ≤ limit)
      × ((page offset limit result).row_count ≡ length (page offset limit result).rows)
unfolding page
page-within offset limit result behind =
    ground (arith, length-take (offset + limit - offset) (drop offset result.rows))

-- An answer to a request with an offset of at least 1 never holds more rows than the limit of the
-- request, or of the connection where the request gives none, however many rows the database
-- returns, and its count of rows is the number of rows that it holds.
pub answer_within_limit :
    {W : Type 0} (backend : Backend W) (astify : Text → Option Value) (config : OmnibaseConfig)
    (req : Request) (s s' : Session W) (r : FormattedQueryResult) (conn : ConnectionConfig)
    → get_connection config req.connection ≡ ok conn
    → 1 ≤ offset_of req
    → handle_execute_sql astify backend config req s ≡ (ok r, s')
    → (length r.rows ≤ limit_of conn req) × (r.row_count ≡ length r.rows)
unfolding format_page format_query_result
answer_within_limit backend astify config req s s' r conn found behind h =
    let run = handle_execute_sql-IsRun astify backend config req s s' r h in
    let same : run.conn ≡ conn = ok-injective (sym run.found ∙ found) in
    let (few, counted) = page-within (offset_of req) (limit_of run.conn req) run.result behind in
    rw run.answered (rw (← same) (rw length-map (few, counted)))
