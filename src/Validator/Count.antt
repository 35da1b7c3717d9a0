-- ===== src/Validator/Count.antt =====
-- src/tools/validate-query.ts: the query that counts the rows which a writing statement affects.
use omnibase.Prelude.{true, false, Option, none, some, List, [], ◌∷◌, ◌++◌, flat_map, if◌then◌else◌}
use omnibase.Text.{Text, codes, text_eq, to_lower, is_space}
use omnibase.Values.{Value, values_run}
use omnibase.Validator.Tree.{member, text_of, statements, first_statement}
use omnibase.Validator.Pattern.{
  Pattern, word, star, plus, lazy_plus, ending, ◌then◌, table_name, first_filled, bounded_word,
  pattern_runs,
}

abbrev spaces : Pattern
spaces = plus is_space

-- `^\s*UPDATE\s+` and `^\s*DELETE\s+FROM\s+`
abbrev update_head : Pattern
update_head = star is_space then word (codes "UPDATE") then spaces

abbrev delete_head : Pattern
delete_head =
    star is_space then word (codes "DELETE") then spaces then word (codes "FROM") then spaces

-- `\s+SET\s+`
abbrev set_part : Pattern
set_part = spaces then word (codes "SET") then spaces

-- `\s+WHERE\s+`
abbrev where_part : Pattern
where_part = spaces then word (codes "WHERE") then spaces

-- The first table behind the head for which the tail leaves a rest, with that rest.
abbrev with_table : Text → List Text → Option (Text × Text) → Option (Text × Text)
with_table table [] other = other
with_table table (rest ∷ rests) other = some (table, rest)

unfoldable pub first_table : Pattern → List (Text × Text) → Option (Text × Text)
first_table tail [] = none
first_table tail ((table, rest) ∷ found) =
    let other = first_table tail found in with_table table (tail rest) other

unfoldable pub match_table : Pattern → Pattern → Text → Option (Text × Text)
match_table head tail sql = first_table tail (flat_map table_name (head sql))

-- `(.+)$`: the rest itself, if it is not empty.
unfoldable pub filled_rest : Pattern
filled_rest [] = []
filled_rest (c ∷ s) = (c ∷ s) ∷ []

abbrev count_from : Text
count_from = codes "SELECT COUNT(*) FROM "

abbrev count_where : Text × Text → Text
count_where (table, condition) = count_from ++ (table ++ (codes " WHERE " ++ condition))

abbrev count_all : Text × Text → Text
count_all (table, rest) = count_from ++ table

-- The count over what one expression matched, or else what the next ones give.
abbrev counted : (Text × Text → Text) → Option (Text × Text) → Option Text → Option Text
counted build none next = next
counted build (some found) next = some (build found)

-- `updateMatch`, `updateNoWhereMatch`, `deleteMatch` and `deleteNoWhereMatch`
unfoldable pub update_match : Text → Option (Text × Text)
update_match = match_table update_head (set_part then lazy_plus then where_part then filled_rest)

unfoldable pub update_no_where_match : Text → Option (Text × Text)
update_no_where_match = match_table update_head set_part

unfoldable pub delete_match : Text → Option (Text × Text)
delete_match = match_table delete_head (where_part then filled_rest)

unfoldable pub delete_no_where_match : Text → Option (Text × Text)
delete_no_where_match = match_table delete_head (star is_space then ending)

-- What the expressions of `DELETE` give.
unfoldable pub count_deleted : Text → Option Text
count_deleted sql =
    counted count_where (delete_match sql) (counted count_all (delete_no_where_match sql) none)

unfoldable pub build_count_query_from_regex : Text → Option Text
build_count_query_from_regex sql =
    counted count_where (update_match sql)
      (counted count_all (update_no_where_match sql) (count_deleted sql))

-- `/\bINSERT\b.*?\bSELECT\b(.+)/is`, behind a word character
abbrev select_rest : Text → Option Text
select_rest sql =
    first_filled ((bounded_word (codes "INSERT") false then bounded_word (codes "SELECT") true) sql)

abbrev count_selected : Option Text → Option Text
count_selected none = none
count_selected (some rest) = some (count_from ++ (codes "(SELECT " ++ (rest ++ codes ")")))

abbrev by_type : Text → Text → Option Text
by_type type sql =
    let kind = to_lower type in
    if text_eq kind (codes "update")
    then build_count_query_from_regex sql
    else if text_eq kind (codes "delete")
    then build_count_query_from_regex sql
    else if text_eq kind (codes "insert")
    then count_selected (select_rest sql)
    else none

abbrev by_statement : Option Text → Text → Option Text
by_statement none sql = build_count_query_from_regex sql
by_statement (some type) sql = by_type type sql

-- `null` stands for no tree.
unfoldable pub build_count_query : Text → Value → Option Text
build_count_query sql ast =
    by_statement (text_of (member (codes "type") (first_statement (statements ast)))) sql

-- Opens what this file defines, to evaluate it on concrete inputs.
unfoldable pub count_runs : Unit {0}
unfolding first_table match_table filled_rest update_match update_no_where_match delete_match
    delete_no_where_match count_deleted build_count_query_from_regex build_count_query pattern_runs
    values_run
count_runs = tt
