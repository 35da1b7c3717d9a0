-- ===== src/Formatter.antt =====
-- src/output-formatter.ts: results as the agent sees them.
pub mod Cells
pub mod Search
pub mod Matches
use omnibase.Prelude.{
  ℕ, Bool, true, false, ◌||◌, Option, none, some, List, [], ◌∷◌, ◌++◌, map, take, length, ltb, leb,
  or_else, if◌then◌else◌,
}
use omnibase.Text.{Text, codes, text_eq, to_lower, starts_with, includes, text_runs}
use omnibase.Values.{Value, undefined, null, bool, num, str, arr, obj}
use omnibase.Types.{QueryResult, FormattedQueryResult, TableInfo, ColumnInfo}

abbrev pub default_max_value_length : ℕ
default_max_value_length = 500

abbrev pub max_search_results : ℕ
max_search_results = 20

abbrev pub mark : Text
mark = codes "...[truncated]"

unfoldable pub truncate_value : ℕ → Value → Value
truncate_value limit undefined = null
truncate_value limit null = null
truncate_value limit (str s) = if ltb limit (length s) then str (take limit s ++ mark) else str s
truncate_value limit (bool b) = bool b
truncate_value limit (num n) = num n
truncate_value limit (arr vs) = arr vs
truncate_value limit (obj fs) = obj fs

-- The parameter `maxRows` of the source is not read by it.
unfoldable pub format_query_result : QueryResult → ℕ → Option ℕ → FormattedQueryResult
format_query_result result max_rows max_value_length =
    let limit = or_else max_value_length default_max_value_length in
    record {
      columns = result.columns;
      rows = map (λ row. map (truncate_value limit) row) result.rows;
      row_count = result.row_count;
      truncated = result.has_more;
      affected_rows = result.affected_rows;
      last_insert_id = result.last_insert_id;
      page_offset = none;
    }

pub data MatchType : Type 0 where
  table_exact table_prefix table_contains column_exact column_prefix column_contains : MatchType

pub record SearchResult : Type 0 where
  pub table_name : Text
  pub column : Option (Text × Text)
  pub match_type : MatchType

abbrev hit : TableInfo → Option (Text × Text) → MatchType → List SearchResult
hit table column kind = record { table_name = table.name; column = column; match_type = kind } ∷ []

unfoldable pub match_table : Text → TableInfo → List SearchResult
match_table q table =
    let name = to_lower table.name in
    if text_eq name q
    then hit table none table_exact
    else if starts_with name q
    then hit table none table_prefix
    else if includes name q
    then hit table none table_contains
    else []

unfoldable pub match_column : Text → TableInfo → ColumnInfo → List SearchResult
match_column q table col =
    let name = to_lower col.name in
    let comment = to_lower (or_else col.comment []) in
    let place = some (col.name, col.type) in
    if text_eq name q
    then hit table place column_exact
    else if starts_with name q
    then hit table place column_prefix
    else if includes name q || includes comment q
    then hit table place column_contains
    else []

unfoldable pub match_columns : Text → TableInfo → List ColumnInfo → List SearchResult
match_columns q table [] = []
match_columns q table (col ∷ cols) = match_column q table col ++ match_columns q table cols

unfoldable pub match_tables : Text → List TableInfo → List SearchResult
match_tables q [] = []
match_tables q (table ∷ tables) =
    match_table q table ++ (match_columns q table table.columns ++ match_tables q tables)

abbrev pub priority : MatchType → ℕ
priority table_exact = 0
priority column_exact = 1
priority table_prefix = 2
priority column_prefix = 3
priority table_contains = 4
priority column_contains = 5

-- The stable `Array.prototype.sort` by ascending priority.
unfoldable pub insert_result : SearchResult → List SearchResult → List SearchResult
insert_result r [] = r ∷ []
insert_result r (x ∷ xs) =
    let later = insert_result r xs in
    if leb (priority r.match_type) (priority x.match_type) then r ∷ x ∷ xs else x ∷ later

unfoldable pub sort_results : List SearchResult → List SearchResult
sort_results [] = []
sort_results (r ∷ rs) = insert_result r (sort_results rs)

unfoldable pub format_search_results : List TableInfo → Text → List SearchResult
format_search_results tables query =
    take max_search_results (sort_results (match_tables (to_lower query) tables))

-- Opens what this file defines, to evaluate it on concrete inputs.
unfoldable pub formatter_runs : Unit {0}
unfolding truncate_value format_query_result match_table match_column match_columns match_tables
    insert_result sort_results format_search_results text_runs
formatter_runs = tt
