-- ===== src/Sampling/Lookups.antt =====
-- Each statistic is read from the cell of its own column of the result.
use omnibase.Prelude.{
  ◌≡◌, refl, ap, ◌∙◌, ℕ, zero, suc, ◌+◌, false, some, List, [], ◌∷◌, get_elem?, arith,
}
use omnibase.Text.{Text}
use omnibase.Text.Laws.{text_eq_refl}
use omnibase.Values.{Value}
use omnibase.Collections.{Map, lookup, insert, has}
use omnibase.Collections.Laws.{lookup-insert}
use omnibase.Sampling.{cell}
use omnibase.Sampling.Stats.{column_map, cell_at, get_value}

-- No name stands in the list twice.
abbrev pub AllDistinct : List Text → Type 0
AllDistinct [] = Unit
AllDistinct (name ∷ names) = (has name names ≡ false) × AllDistinct names

lookup-column_map_other :
    (names : List Text) (i : ℕ) (m : Map ℕ) (key : Text)
    → has key names ≡ false
    → lookup key (column_map names i m) ≡ lookup key m
unfolding column_map has
lookup-column_map_other [] i m key h = refl
lookup-column_map_other (name ∷ names) i m key h =
    ground (
      arith,
      lookup-column_map_other names (suc i) (insert name i m) key,
      lookup-insert name key i m,
    )

lookup-column_map :
    (names : List Text) (i j : ℕ) (m : Map ℕ) (key : Text)
    → AllDistinct names
    → get_elem? names j ≡ some key
    → lookup key (column_map names i m) ≡ some (i + j)
unfolding column_map
lookup-column_map [] i j m key distinct h = cc
lookup-column_map (name ∷ names) i zero m key (once, distinct) h =
    let same : name ≡ key = cc in
    rw (← same) (
      lookup-column_map_other names (suc i) (insert name i m) name once
      ∙ lookup-insert name name i m
      ∙ rw (text_eq_refl name) (ap some (omega arith)))
lookup-column_map (name ∷ names) i (suc j) m key (once, distinct) h =
    lookup-column_map names (suc i) j (insert name i m) key distinct h ∙ ap some (omega arith)

-- Where the database names the columns of its answer all differently, the value that the statistics
-- read under the name of a column is the cell of the row at that column's place.
pub get_value-column_map :
    (columns : List Text) (row : List Value) (key : Text) (j : ℕ)
    → AllDistinct columns
    → get_elem? columns j ≡ some key
    → get_value (column_map columns 0 []) row key ≡ cell row j
unfolding get_value lookup
get_value-column_map columns row key j distinct h =
    ap (cell_at row) (lookup-column_map columns 0 j [] key distinct h) ∙ ap (cell row) (omega arith)
