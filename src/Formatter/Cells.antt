-- ===== src/Formatter/Cells.antt =====
-- The size of the cells that an agent is shown.
use Prim.Native.Nat.{◌≤◌, ◌<◌}
use omnibase.Prelude.{
  ℕ, ◌+◌, ◌≡◌, refl, Option, List, [], ◌∷◌, ◌++◌, map, take, length, ltb, arith, length-append,
  length-take, or_else, Bool-cases, inl, inr,
}
use omnibase.Values.{Value, undefined, null, bool, num, str, arr, obj}
use omnibase.Types.{QueryResult}
use omnibase.Formatter.{mark, default_max_value_length, truncate_value, format_query_result}

-- A text of at most `limit` units, or of `limit` units and the mark; anything but a text but never
-- `undefined`.
abbrev pub FitsCell : ℕ → Value → Type 0
FitsCell limit undefined = ⊥
FitsCell limit (str s) = length s ≤ limit + 14
FitsCell limit _ = Unit

-- A cell is what the database returned, but for `undefined` and for a text that is cut.
abbrev pub ShowsCell : ℕ → Value → Value → Type 0
ShowsCell limit (str s) shown =
    (length s ≤ limit → shown ≡ str s) × (limit < length s → shown ≡ str (take limit s ++ mark))
ShowsCell limit undefined shown = shown ≡ null
ShowsCell limit v shown = shown ≡ v

truncate_value-FitsCell : (limit : ℕ) (v : Value) → FitsCell limit (truncate_value limit v)
unfolding truncate_value
truncate_value-FitsCell limit (str s) = elim (Bool-cases (ltb limit (length s))) [
  | inl long ↦
      rw long (omega (arith, length-append {0} (take limit s) mark, length-take {0} limit s))
  | inr short ↦ rw short (ground arith)
]
truncate_value-FitsCell limit undefined = tt
truncate_value-FitsCell limit null = tt
truncate_value-FitsCell limit (bool b) = tt
truncate_value-FitsCell limit (num n) = tt
truncate_value-FitsCell limit (arr vs) = tt
truncate_value-FitsCell limit (obj fs) = tt

truncate_value-ShowsCell : (limit : ℕ) (v : Value) → ShowsCell limit v (truncate_value limit v)
unfolding truncate_value
truncate_value-ShowsCell limit (str s) = (λ h. ground arith, λ h. ground arith)
truncate_value-ShowsCell limit undefined = refl
truncate_value-ShowsCell limit null = refl
truncate_value-ShowsCell limit (bool b) = refl
truncate_value-ShowsCell limit (num n) = refl
truncate_value-ShowsCell limit (arr vs) = refl
truncate_value-ShowsCell limit (obj fs) = refl

-- Every cell stands for the cell at its place in the result, and fits.
abbrev pub ShowsRow : ℕ → List Value → List Value → Type 0
ShowsRow limit [] [] = Unit
ShowsRow limit (v ∷ vs) (w ∷ ws) = ShowsCell limit v w × FitsCell limit w × ShowsRow limit vs ws
ShowsRow limit _ _ = ⊥

abbrev pub ShowsRows : ℕ → List (List Value) → List (List Value) → Type 0
ShowsRows limit [] [] = Unit
ShowsRows limit (r ∷ rs) (q ∷ qs) = ShowsRow limit r q × ShowsRows limit rs qs
ShowsRows limit _ _ = ⊥

row-ShowsRow : (limit : ℕ) (row : List Value) → ShowsRow limit row (map (truncate_value limit) row)
row-ShowsRow limit [] = tt
row-ShowsRow limit (v ∷ row) =
    (truncate_value-ShowsCell limit v, truncate_value-FitsCell limit v, row-ShowsRow limit row)

rows-ShowsRows :
    (limit : ℕ) (rows : List (List Value))
    → ShowsRows limit rows (map (λ row. map (truncate_value limit) row) rows)
rows-ShowsRows limit [] = tt
rows-ShowsRows limit (row ∷ rows) = (row-ShowsRow limit row, rows-ShowsRows limit rows)

-- Formatting keeps the number and the order of rows and cells. A text longer than the limit (that of
-- the connection, or 500) is cut to it and marked, so that no text exceeds the limit by more than
-- the 14 units of the mark; `undefined` becomes null; all other cells are as the database gave them.
pub format_query_result-ShowsRows :
    (result : QueryResult) (max_rows : ℕ) (limit : Option ℕ)
    → ShowsRows
        (or_else limit default_max_value_length)
        result.rows
        (format_query_result result max_rows limit).rows
unfolding format_query_result
format_query_result-ShowsRows result max_rows limit =
    rows-ShowsRows (or_else limit default_max_value_length) result.rows
