-- ===== src/Explain/Summary.antt =====
-- What the summary of a bytecode plan reports.
use omnibase.Prelude.{
  ◌≡◌, refl, ◌∙◌, ℕ, true, false, Bool-cases, ◌||◌, ◌⊎◌, inl, inr, List, [], ◌∷◌, ◌++◌, map, any,
  arith,
}
use omnibase.Text.{Text, codes, text_eq, to_lower, includes}
use omnibase.Text.Laws.{text_eq_iff, text_eq_refl}
use omnibase.Values.{Value, Conversions}
use omnibase.Collections.{has}
use omnibase.Collections.Laws.{has-add, has-append}
use omnibase.Explain.{
  Findings, add_filled, or_simple, index_lines, line_if, note_row, note_rows, scan_line,
  summary_lines, summarize_bytecode_format, text_at, place, cell, first_filled,
}

-- The two opcodes that open a table.
abbrev pub IsOpening : Text → Type 0
IsOpening opcode = (text_eq opcode (codes "openread") || text_eq opcode (codes "openwrite")) ≡ true

add_filled-keeps :
    (name table : Text) (names : List Text)
    → has table names ≡ true
    → has table (add_filled name names) ≡ true
add_filled-keeps [] table names h = h
add_filled-keeps (c ∷ s) table names h = ground (arith, has-add (c ∷ s) table names)

-- A table once found stays found.
note_row-keeps :
    (opcode name table : Text) (found : Findings)
    → has table found.tables ≡ true
    → has table (note_row opcode name found).tables ≡ true
unfolding note_row
note_row-keeps opcode name table found h =
    elim (Bool-cases (text_eq opcode (codes "openread") || text_eq opcode (codes "openwrite"))) [
      | inl opens ↦ rw opens (add_filled-keeps name table found.tables h)
      | inr other ↦ rw other h
    ]

note_row-adds :
    (opcode : Text) (c : ℕ) (s : Text) (found : Findings)
    → IsOpening opcode
    → has (c ∷ s) (note_row opcode (c ∷ s) found).tables ≡ true
unfolding note_row
note_row-adds opcode c s found opens =
    rw opens (has-add (c ∷ s) (c ∷ s) found.tables ∙ rw (text_eq_refl (c ∷ s)) refl)

module _ (host : Conversions) (columns : List Text) (opcode_at : ℕ) where
  note_rows-keeps :
      (rows : List (List Value)) (table : Text) (found : Findings)
      → has table found.tables ≡ true
      → has table (note_rows host columns opcode_at rows found).tables ≡ true
  unfolding note_rows
  note_rows-keeps [] table found h = h
  note_rows-keeps (row ∷ rows) table found h =
      note_rows-keeps rows table _ (note_row-keeps _ _ table found h)

  -- What a row says of its table: `p4 || comment`.
  abbrev pub named_by : List Value → Text
  named_by row =
      first_filled (text_at host (place (codes "p4") columns) row)
        (text_at host (place (codes "comment") columns) row)

  note_rows-adds :
      (before after : List (List Value)) (row : List Value) (c : ℕ) (s : Text) (found : Findings)
      → IsOpening (to_lower (host.to_string (cell row opcode_at)))
      → named_by row ≡ c ∷ s
      → has (c ∷ s) (note_rows host columns opcode_at (before ++ row ∷ after) found).tables ≡ true
  unfolding note_rows
  note_rows-adds [] after row c s found opens named =
      note_rows-keeps after (c ∷ s) _ (rw named (note_row-adds _ c s found opens))
  note_rows-adds (other ∷ before) after row c s found opens named =
      note_rows-adds before after row c s _ opens named

has-scan_line :
    (indexes : List Text) (table : Text) (tables : List Text)
    → has table tables ≡ true
    → has (scan_line indexes table) (map (scan_line indexes) tables) ≡ true
unfolding has
has-scan_line indexes table [] h = h
has-scan_line indexes table (t ∷ tables) h = elim (Bool-cases (text_eq t table)) [
  | inl same ↦ rw ((text_eq_iff t table).0 same) (rw (text_eq_refl (scan_line indexes table)) refl)
  | inr other ↦ ground (arith, has-scan_line indexes table tables)
]

has-or_simple :
    (line : Text) (lines : List Text) → has line lines ≡ true → has line (or_simple lines) ≡ true
unfolding has
has-or_simple line [] h = cc
has-or_simple line (l ∷ lines) h = h

scan_line-cases :
    (indexes : List Text) (t : Text)
    → (scan_line indexes t ≡ codes "INDEX LOOKUP " ++ t)
      ⊎ (scan_line indexes t ≡ codes "SCAN " ++ t)
unfolding scan_line
scan_line-cases indexes t =
    elim (Bool-cases (any (λ idx. includes idx (to_lower t) || includes idx t) indexes)) [
      | inl used ↦ inl (rw used refl)
      | inr unused ↦ inr (rw unused refl)
    ]

-- In the summary of a bytecode plan, every table that a row of the plan opens for reading or
-- writing has its line, as a scan or as an index lookup, wherever the row stands.
pub summarize_bytecode_format-reports :
    (host : Conversions) (columns : List Text) (opcode_at : ℕ) (before after : List (List Value))
    (row : List Value) (c : ℕ) (s : Text)
    → IsOpening (to_lower (host.to_string (cell row opcode_at)))
    → named_by host columns opcode_at row ≡ c ∷ s
    → let summary = summarize_bytecode_format host columns (before ++ row ∷ after) opcode_at in
      (has (codes "INDEX LOOKUP " ++ c ∷ s) summary ≡ true)
      ⊎ (has (codes "SCAN " ++ c ∷ s) summary ≡ true)
unfolding summarize_bytecode_format summary_lines
summarize_bytecode_format-reports host columns opcode_at before after row c s opens named =
    let found =
      note_rows host columns opcode_at (before ++ row ∷ after)
        (record { tables = []; indexes = []; has_sort = false; has_agg = false }) in
    let scans = map (scan_line found.indexes) found.tables in
    let others =
      index_lines found.indexes
      ++ (line_if found.has_sort (codes "SORT") ++ line_if found.has_agg (codes "AGGREGATE")) in
    let scanned : has (scan_line found.indexes (c ∷ s)) scans ≡ true =
      has-scan_line found.indexes (c ∷ s) found.tables
        (note_rows-adds host columns opcode_at before after row c s _ opens named) in
    let reported : has (scan_line found.indexes (c ∷ s)) (or_simple (scans ++ others)) ≡ true =
      has-or_simple _ (scans ++ others)
        (has-append (scan_line found.indexes (c ∷ s)) scans others ∙ rw scanned refl) in
    elim (scan_line-cases found.indexes (c ∷ s)) [
      | inl looked_up ↦ inl (rw (← looked_up) reported)
      | inr scan ↦ inr (rw (← scan) reported)
    ]
