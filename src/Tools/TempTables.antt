-- ===== src/Tools/TempTables.antt =====
-- src/custom-tools.ts: the temporary table that a statement creates, as the regular
-- expression of `executeStepsRaw` finds it.
use omnibase.Prelude.{not, ◌||◌, Option, none, some, [], ◌∷◌, ◌==◌, or_else, if◌then◌else◌}
use omnibase.Text.{Text, codes, upper_unit, is_space, drop_spaces, span, text_runs}

-- A literal, in whatever case, and what follows it.
unfoldable pub strip_word : Text → Text → Option Text
strip_word [] s = some s
strip_word (_ ∷ _) [] = none
strip_word (w ∷ ws) (c ∷ s) = let rest = strip_word ws s in if upper_unit c == w then rest else none

-- `\s+`, and what follows
abbrev after_spaces : Text → Option Text
after_spaces [] = none
after_spaces (c ∷ s) = if is_space c then some (drop_spaces s) else none

abbrev next : (Text → Option Text) → Option Text → Option Text
next f none = none
next f (some s) = f s

abbrev some_name : Text × Text → Option Text
some_name ([], rest) = none
some_name (c ∷ name, rest) = some (c ∷ name)

-- `([^\s(;]+)`
abbrev table_name : Text → Option Text
table_name s = some_name (span (λ c. not (is_space c || (c == b'(' || c == b';'))) s)

abbrev first_some : Option Text → Option Text → Option Text
first_some (some t) other = some t
first_some none other = other

-- The name behind `(?:IF\s+NOT\s+EXISTS\s+)?`, which is given back where no name follows it.
abbrev name_behind : Text → Option Text
name_behind s =
    first_some
      (next table_name (
        next after_spaces (
          next (strip_word (codes "EXISTS")) (
            next after_spaces
              (next (strip_word (codes "NOT")) (next after_spaces (strip_word (codes "IF") s)))))))
      (table_name s)

abbrev optional : Text → Text → Text
optional word s = or_else (strip_word word s) s

abbrev behind_temp : Text → Option Text
behind_temp s = next name_behind (
    next after_spaces
      (next (strip_word (codes "TABLE")) (after_spaces (optional (codes "ORARY") s))))

abbrev temp_table_here : Text → Option Text
temp_table_here s =
    next behind_temp
      (next (strip_word (codes "TEMP")) (next after_spaces (strip_word (codes "CREATE") s)))

-- `sql.match(…)` and its first group
unfoldable pub temp_table : Text → Option Text
temp_table [] = none
temp_table (c ∷ s) = first_some (temp_table_here (c ∷ s)) (temp_table s)

-- Opens what this file defines, to evaluate it on concrete inputs.
unfoldable pub temp_tables_run : Unit {0}
unfolding strip_word temp_table text_runs
temp_tables_run = tt
