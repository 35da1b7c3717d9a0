-- ===== src/Server.antt =====
-- src/index.ts: the callbacks of the tools for samples, statistics and distinct values, which audit
-- what their handlers do, and `errorResponse`. A response is the handler's result or the error, whose
-- text is not modelled. The measured duration of an entry is left out.
pub mod Audited
pub mod History
pub mod Plain
use omnibase.Prelude.{ℕ, suc, Option, none, some, List, [], ◌∷◌, ◌++◌, length, or_else}
use omnibase.Text.{Text, codes, print_ℕ}
use omnibase.Values.{Conversions}
use omnibase.Types.{SchemaInfo, OmnibaseConfig, FormattedQueryResult, Error}
use omnibase.Exec.{Result, ok, err, Exec, pure, modify, catch, ◌>>=◌, ◌>>◌}
use omnibase.Session.{Backend, Session, AuditEntry, AuditStatus, done, failed, audit}
use omnibase.Sampling.{
  ℤ, pos, negsuc, DistinctValues, handle_get_sample, handle_get_distinct_values, sampling_runs,
}
use omnibase.Sampling.Stats.{Arithmetic, TableStats, handle_get_table_stats, stats_run}

pub data Response (A : Type 0) : Type 0 where
  answered : A → Response A
  error_response : Error → Response A

abbrev pub print_ℤ : ℤ → Text
print_ℤ (pos n) = print_ℕ n
print_ℤ (negsuc n) = codes "-" ++ print_ℕ (suc n)

-- The entry for what a tool did.
abbrev pub entry_of : Text → Text → Text → ℕ → AuditStatus → Option Error → AuditEntry
entry_of tool connection sql rows status error = record {
  tool = tool;
  connection = connection;
  sql = sql;
  params = [];
  rows = rows;
  status = status;
  error = error;
}

abbrev clause : Text → Option Text → Text
clause keyword none = []
clause keyword (some []) = []
clause keyword (some (c ∷ s)) = keyword ++ (c ∷ s)

abbrev pub sample_sql : Text → Text → Option ℤ → Text
sample_sql table clauses limit =
    codes "SELECT * FROM "
    ++ (table ++ (clauses ++ (codes " LIMIT " ++ print_ℤ (or_else limit (pos 10)))))

abbrev pub stats_sql : Text → Option ℤ → Text
stats_sql table size =
    codes "[stats query on "
    ++ (table ++ (codes ", sample=" ++ (print_ℤ (or_else size (pos 10000)) ++ codes "]")))

abbrev pub distinct_sql : Text → Text → Text
distinct_sql table column =
    codes "SELECT "
    ++ (column ++ (codes ", COUNT(*) FROM " ++ (table ++ (codes " GROUP BY " ++ column))))

module _ {W : Type 0} where
  -- The shape of a callback: the handler, an entry for its outcome, and the response.
  unfoldable pub audited_call :
      {A : Type 0}
      → (A → AuditEntry)
      → (Error → AuditEntry)
      → Exec (Session W) A
      → Exec (Session W) (Response A)
  audited_call on_result on_error handler =
      catch (do result ← handler; modify (audit (on_result result)); pure (answered result))
        (λ e. modify (audit (on_error e)) >> pure (error_response e))

  module _ (backend : Backend W) (on_schema_fetched : Text → SchemaInfo → W → W) where
    unfoldable pub call_get_sample :
        OmnibaseConfig
        → Text
        → Text
        → Option ℤ
        → Option Text
        → Option Text
        → Exec (Session W) (Response FormattedQueryResult)
    call_get_sample config connection table limit condition order_by =
        let tool = codes "get_sample" in
        let clauses = clause (codes " WHERE ") condition ++ clause (codes " ORDER BY ") order_by in
        audited_call
          (λ r. entry_of tool connection (sample_sql table clauses limit) r.row_count done none)
          (λ e. entry_of tool connection (sample_sql table [] limit) 0 failed (some e))
          (handle_get_sample backend on_schema_fetched config connection table limit condition
            order_by)

    unfoldable pub call_get_table_stats :
        Conversions
        → Arithmetic
        → OmnibaseConfig
        → Text
        → Text
        → Option ℤ
        → Exec (Session W) (Response TableStats)
    call_get_table_stats host arithmetic config connection table size =
        let tool = codes "get_table_stats" in
        audited_call
          (λ r. entry_of tool connection (stats_sql table size) (length r.columns) done none)
          (λ e.
            entry_of tool connection (codes "[stats query on " ++ (table ++ codes "]")) 0 failed
              (some e))
          (handle_get_table_stats host arithmetic backend on_schema_fetched config connection table
            size)

    unfoldable pub call_get_distinct_values :
        Conversions
        → OmnibaseConfig
        → Text
        → Text
        → Text
        → Option ℤ
        → Exec (Session W) (Response DistinctValues)
    call_get_distinct_values host config connection table column limit =
        let tool = codes "get_distinct_values" in
        audited_call
          (λ r. entry_of tool connection (distinct_sql table column) r.total_shown done none)
          (λ e. entry_of tool connection (distinct_sql table column) 0 failed (some e))
          (handle_get_distinct_values backend on_schema_fetched host config connection table column
            limit)

-- Opens what this file defines, to evaluate it on concrete inputs.
unfoldable pub server_runs : Unit {0}
unfolding audited_call call_get_sample call_get_table_stats call_get_distinct_values sampling_runs
    stats_run
server_runs = tt
