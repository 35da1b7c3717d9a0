-- ===== src/Sampling.antt =====
-- src/sql-dialect.ts, src/tools/get-sample.ts and src/tools/get-distinct-values.ts: statements that
-- the program writes itself from names of the schema. The numbers of a request are integers.
pub mod Stats
pub mod Names
pub mod Lookups
use omnibase.Prelude.{
  ℕ, zero, suc, Bool, true, false, ◌||◌, Option, none, some, List, [], ◌∷◌, ◌++◌, map, find, leb,
  length, get_elem?, or_else, if◌then◌else◌,
}
use omnibase.Text.{Text, codes, to_lower, same_name, starts_with, print_ℕ, text_runs}
use omnibase.Values.{Value, undefined, num, Conversions}
use omnibase.Types.{
  ConnectionConfig, ColumnInfo, TableInfo, SchemaInfo, OmnibaseConfig, QueryResult,
  FormattedQueryResult, Error, table_not_found, column_not_found, invalid_params,
}
use omnibase.Exec.{Result, ok, err, Exec, pure, lift, ◌>>=◌, ◌>>◌}
use omnibase.Config.{get_connection, config_runs}
use omnibase.Formatter.{format_query_result, formatter_runs}
use omnibase.Session.{Backend, Session}
use omnibase.Manager.{get_schema, execute, manager_runs}

-- `pos n` is n, and `negsuc n` is -(n + 1).
pub data ℤ : Type 0 where
  pos negsuc : ℕ → ℤ

pub data Dialect : Type 0 where
  mssql standard : Dialect

unfoldable pub get_dialect : ConnectionConfig → Dialect
get_dialect config =
    let dsn = to_lower config.dsn in
    if starts_with dsn (codes "mssql:")
      || starts_with dsn (codes "sqlserver:")
      || starts_with dsn (codes "ms:")
      || starts_with dsn (codes "azuresql:")
    then mssql
    else standard

-- A clause of the statement where its text is given and not empty.
abbrev clause : Text → Option Text → Text
clause keyword none = []
clause keyword (some []) = []
clause keyword (some (c ∷ s)) = keyword ++ (c ∷ s)

unfoldable pub select_with_limit : Text → Text → ℕ → Dialect → Option Text → Option Text → Text
select_with_limit columns table limit dialect condition order_by =
    let tail = clause (codes " WHERE ") condition ++ clause (codes " ORDER BY ") order_by in
    elim dialect [
      | mssql ↦
          codes "SELECT TOP "
          ++ (print_ℕ limit ++ (codes " " ++ (columns ++ (codes " FROM " ++ (table ++ tail)))))
      | standard ↦
          codes "SELECT "
          ++ (columns
              ++ (codes " FROM " ++ (table ++ (tail ++ (codes " LIMIT " ++ print_ℕ limit)))))
    ]

unfoldable pub subquery_with_limit : Text → ℕ → Dialect → Text
subquery_with_limit table limit mssql =
    codes "(SELECT TOP " ++ (print_ℕ limit ++ (codes " * FROM " ++ (table ++ codes ")")))
subquery_with_limit table limit standard =
    codes "(SELECT * FROM " ++ (table ++ (codes " LIMIT " ++ (print_ℕ limit ++ codes ")")))

-- What was found, or the exception where nothing was.
abbrev pub found_or : {A : Type 0} → Error → Option A → Result A
found_or e none = err e
found_or e (some a) = ok a

-- The table of that name, in whatever case.
unfoldable pub find_table : Text → SchemaInfo → Result TableInfo
find_table name schema =
    found_or (table_not_found name) (find (λ t. same_name t.name name) schema.tables)

-- The table is named in the error as the request spelled it.
unfoldable pub find_column : Text → Text → TableInfo → Result ColumnInfo
find_column name requested table =
    found_or (column_not_found requested name) (find (λ c. same_name c.name name) table.columns)

-- A limit that must not be negative, and what stands for a missing one.
abbrev pub checked_limit : ℕ → Option ℤ → Result ℕ
checked_limit default none = ok default
checked_limit default (some (pos n)) = ok n
checked_limit default (some (negsuc n)) = err invalid_params

unfoldable pub distinct_query : Dialect → ℕ → TableInfo → ColumnInfo → Text
distinct_query dialect limit table column =
    let picked =
      column.name
      ++ (codes " AS value, COUNT(*) AS count FROM "
          ++ (table.name
              ++ (codes " GROUP BY " ++ (column.name ++ codes " ORDER BY count DESC")))) in
    elim dialect [
      | mssql ↦ codes "SELECT TOP " ++ (print_ℕ limit ++ (codes " " ++ picked))
      | standard ↦ codes "SELECT " ++ (picked ++ (codes " LIMIT " ++ print_ℕ limit))
    ]

abbrev pub cell : List Value → ℕ → Value
cell row i = or_else (get_elem? row i) undefined

pub record DistinctValues : Type 0 where
  pub table : Text
  pub column : Text
  pub column_type : Text
  pub values : List (Value × Value)
  pub total_shown : ℕ
  pub has_more : Bool

unfoldable pub distinct_values :
    Conversions → ℕ → TableInfo → ColumnInfo → QueryResult → DistinctValues
distinct_values host limit table column result =
    let values = map (λ row. (cell row 0, num (host.to_number (cell row 1)))) result.rows in
    record {
      table = table.name;
      column = column.name;
      column_type = column.type;
      values = values;
      total_shown = length values;
      has_more = result.has_more || leb limit (length values);
    }

module _ {W : Type 0} (backend : Backend W) (on_schema_fetched : Text → SchemaInfo → W → W) where
  unfoldable pub handle_get_sample :
      OmnibaseConfig
      → Text
      → Text
      → Option ℤ
      → Option Text
      → Option Text
      → Exec (Session W) FormattedQueryResult
  handle_get_sample config connection table limit condition order_by = do
    conn ← lift (get_connection config connection)
    schema ← get_schema backend on_schema_fetched conn false none
    valid_table ← lift (find_table table schema)
    n ← lift (checked_limit 10 limit)
    result ←
        execute backend conn
          (select_with_limit (codes "*") valid_table.name n (get_dialect conn) condition order_by)
          none none
    pure (format_query_result result n conn.max_value_length)

  unfoldable pub handle_get_distinct_values :
      Conversions → OmnibaseConfig → Text → Text → Text → Option ℤ → Exec (Session W) DistinctValues
  handle_get_distinct_values host config connection table column limit = do
    conn ← lift (get_connection config connection)
    schema ← get_schema backend on_schema_fetched conn false none
    found ← lift (find_table table schema)
    picked ← lift (find_column column table found)
    n ← lift (checked_limit 50 limit)
    result ← execute backend conn (distinct_query (get_dialect conn) n found picked) none none
    pure (distinct_values host n found picked result)

-- Opens what this file defines, to evaluate it on concrete inputs.
unfoldable pub sampling_runs : Unit {0}
unfolding get_dialect select_with_limit subquery_with_limit find_table find_column distinct_query
    distinct_values handle_get_sample handle_get_distinct_values config_runs formatter_runs
    manager_runs
sampling_runs = tt
