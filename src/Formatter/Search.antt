-- ===== src/Formatter/Search.antt =====
-- The ranking of search results.
use Prim.Native.Nat.{◌≤◌}
use mathlib.Core.List.{Perm}
use mathlib.Core.List.Perm
use omnibase.Prelude.{◌*◌, ◌+◌, ℕ, List, [], ◌∷◌, All}
use omnibase.Text.{Text}
use omnibase.Formatter.{
  MatchType, table_exact, table_prefix, table_contains, column_exact, column_prefix,
  column_contains, SearchResult,
}

-- How close a match is, and what it is a match of.
abbrev pub closeness : MatchType → ℕ
closeness table_exact = 0
closeness column_exact = 0
closeness table_prefix = 1
closeness column_prefix = 1
closeness table_contains = 2
closeness column_contains = 2

abbrev pub of_column : MatchType → ℕ
of_column table_exact = 0
of_column table_prefix = 0
of_column table_contains = 0
of_column column_exact = 1
of_column column_prefix = 1
of_column column_contains = 1

-- The closest match comes first, and of two that are as close a table before a column.
abbrev pub rank : SearchResult → ℕ
rank r = closeness r.match_type * 2 + of_column r.match_type

abbrev pub IsRanked : List SearchResult → Type 0
IsRanked [] = Unit
IsRanked (r ∷ rs) = All (λ x. rank r ≤ rank x) rs × IsRanked rs
