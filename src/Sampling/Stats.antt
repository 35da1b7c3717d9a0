-- ===== src/Sampling/Stats.antt =====
-- src/tools/get-table-stats.ts: one statement that counts over all columns of a table, and what is
-- read from its row. The arithmetic of the host on numbers, spelled as `String` spells them, is a
-- parameter. The request's sample size is an integer.
use omnibase.Prelude.{
  ℕ, zero, suc, Bool, false, Option, none, some, List, [], ◌∷◌, ◌++◌, map, flat_map, ◌==◌,
  if◌then◌else◌,
}
use omnibase.Text.{Text, codes, is_word, join, print_ℕ, text_runs}
use omnibase.Values.{Value, null, num, truthy, Conversions}
use omnibase.Collections.{Map, lookup, insert, unique, collections_run}
use omnibase.Types.{ColumnInfo, TableInfo, SchemaInfo, OmnibaseConfig, QueryResult, invalid_params}
use omnibase.Exec.{Result, ok, err, Exec, pure, lift, catch, ◌>>=◌}
use omnibase.Config.{get_connection}
use omnibase.Session.{Backend, Session}
use omnibase.Manager.{get_schema, execute}
use omnibase.Sampling.{ℤ, pos, negsuc, Dialect, get_dialect, subquery_with_limit, find_table, cell}

-- `>`, `>=`, `Math.min`, `/`, `*` and `Math.round`
pub record Arithmetic : Type 0 where
  pub gt : Text → Text → Bool
  pub ge : Text → Text → Bool
  pub min : Text → Text → Text
  pub divide : Text → Text → Text
  pub multiply : Text → Text → Text
  pub round : Text → Text

-- `name.replace(/"/g, '""')`
unfoldable pub double_quotes : Text → Text
double_quotes [] = []
double_quotes (c ∷ s) =
    let rest = double_quotes s in if c == b'"' then b'"' ∷ b'"' ∷ rest else c ∷ rest

unfoldable pub quote_ident : Text → Text
quote_ident name = b'"' ∷ double_quotes name ++ b'"' ∷ []

unfoldable pub safe_alias : Text → Text → Text
safe_alias prefix name = prefix ++ map (λ c. if is_word c then c else b'_') name

abbrev aggregate : Text → Text → Text → Text → Text
aggregate before quoted after alias = before ++ (quoted ++ (after ++ (codes " AS " ++ alias)))

unfoldable pub stat_exprs : ColumnInfo → List Text
stat_exprs col =
    let q = quote_ident col.name in
    codes "COUNT(*) AS _total"
    ∷ aggregate (codes "SUM(CASE WHEN ") q (codes " IS NULL THEN 1 ELSE 0 END)")
        (safe_alias (codes "_null_") col.name)
    ∷ aggregate (codes "COUNT(DISTINCT ") q (codes ")") (safe_alias (codes "_distinct_") col.name)
    ∷ aggregate (codes "MIN(") q (codes ")") (safe_alias (codes "_min_") col.name)
    ∷ aggregate (codes "MAX(") q (codes ")") (safe_alias (codes "_max_") col.name)
    ∷ []

-- The statement without the alias of its subquery.
unfoldable pub stats_query : Dialect → ℕ → TableInfo → Text
stats_query dialect size table =
    codes "SELECT "
    ++ (join (codes ", ") (unique (flat_map stat_exprs table.columns))
        ++ (codes " FROM " ++ subquery_with_limit table.name size dialect))

-- A missing size is 10000, and a size must be at least 1.
abbrev pub checked_size : Option ℤ → Result ℕ
checked_size none = ok 10000
checked_size (some (pos zero)) = err invalid_params
checked_size (some (pos (suc n))) = ok (suc n)
checked_size (some (negsuc n)) = err invalid_params

unfoldable pub column_map : List Text → ℕ → Map ℕ → Map ℕ
column_map [] i m = m
column_map (name ∷ names) i m = column_map names (suc i) (insert name i m)

abbrev pub cell_at : List Value → Option ℕ → Value
cell_at row none = null
cell_at row (some i) = cell row i

-- `getValue`
unfoldable pub get_value : Map ℕ → List Value → Text → Value
get_value places row key = cell_at row (lookup key places)

pub record ColumnStats : Type 0 where
  pub name : Text
  pub type : Text
  pub total_rows : Text
  pub null_count : Text
  pub null_percentage : Text
  pub distinct_count : Text
  pub min : Value
  pub max : Value

pub record TableStats : Type 0 where
  pub table : Text
  pub sample_size : Text
  -- missing where no row came back
  pub sampled : Option Bool
  pub columns : List ColumnStats

module _ (host : Conversions) (arithmetic : Arithmetic) where
  -- `Number(v) || 0`
  unfoldable pub number_or_zero : Value → Text
  number_or_zero v = let n = host.to_number v in if truthy (num n) then n else codes "0"

  unfoldable pub column_stats : Text → Map ℕ → List Value → ColumnInfo → ColumnStats
  column_stats total places row col =
      let nulls = number_or_zero (get_value places row (safe_alias (codes "_null_") col.name)) in
      record {
        name = col.name;
        type = col.type;
        total_rows = total;
        null_count = nulls;
        null_percentage =
            if arithmetic.gt total (codes "0")
            then arithmetic.divide
                (arithmetic.round
                  (arithmetic.multiply (arithmetic.divide nulls total) (codes "10000")))
                (codes "100")
            else codes "0";
        distinct_count =
            number_or_zero (get_value places row (safe_alias (codes "_distinct_") col.name));
        min = get_value places row (safe_alias (codes "_min_") col.name);
        max = get_value places row (safe_alias (codes "_max_") col.name);
      }

  unfoldable pub table_stats : ℕ → TableInfo → QueryResult → TableStats
  table_stats size table result = elim result.rows [
    | [] ↦ record { table = table.name; sample_size = print_ℕ size; sampled = none; columns = [] }
    | row ∷ rows ↦
        let places = column_map result.columns 0 [] in
        let total = number_or_zero (get_value places row (codes "_total")) in
        record {
          table = table.name;
          sample_size = arithmetic.min (print_ℕ size) total;
          sampled = some (arithmetic.ge total (print_ℕ size));
          columns = map (column_stats total places row) table.columns;
        }
  ]

  module _ {W : Type 0} (backend : Backend W) (on_schema_fetched : Text → SchemaInfo → W → W) where
    unfoldable pub handle_get_table_stats :
        OmnibaseConfig → Text → Text → Option ℤ → Exec (Session W) TableStats
    handle_get_table_stats config connection table sample_size = do
      conn ← lift (get_connection config connection)
      schema ← get_schema backend on_schema_fetched conn false none
      found ← lift (find_table table schema)
      size ← lift (checked_size sample_size)
      result ←
          catch
            (execute backend conn (stats_query (get_dialect conn) size found ++ codes " AS _sample")
              none none)
            (λ _. execute backend conn (stats_query (get_dialect conn) size found) none none)
      pure (table_stats size found result)

-- Opens what this file defines, to evaluate it on concrete inputs.
unfoldable pub stats_run : Unit {0}
unfolding double_quotes quote_ident safe_alias stat_exprs stats_query column_map get_value
    number_or_zero column_stats table_stats handle_get_table_stats collections_run text_runs
stats_run = tt
