-- ===== src/Security/Matching.antt =====
-- The regular expressions of src/tools/execute-sql.ts as matchers on texts in upper case.
use omnibase.Prelude.{
  Bool, false, not, ◌&&◌, ◌||◌, Option, none, some, [], ◌∷◌, ◌==◌, if◌then◌else◌,
}
use omnibase.Text.{
  text_runs, Text, codes, is_space, is_word, drop_spaces, strip_prefix, includes, span,
}

-- `pattern.test(s)` of a pattern with no anchor
unfoldable pub anywhere : (Text → Bool) → Text → Bool
anywhere here [] = here []
anywhere here (c ∷ s) = here (c ∷ s) || anywhere here s

-- `\s+` and then the rest, at whatever number of spaces
unfoldable pub spaces_then : (Text → Bool) → Text → Bool
spaces_then next [] = false
spaces_then next (c ∷ s) = is_space c && (next s || spaces_then next s)

abbrev pub then_if : (Text → Bool) → Option Text → Bool
then_if next none = false
then_if next (some rest) = next rest

-- a literal and then the rest
unfoldable pub word_then : Text → (Text → Bool) → Text → Bool
word_then word next s = then_if next (strip_prefix word s)

abbrev pub starts_word : Text → Bool
starts_word [] = false
starts_word (c ∷ s) = is_word c

abbrev pub last_is_word : Text → Bool
last_is_word [] = false
last_is_word (c ∷ []) = is_word c
last_is_word (c ∷ d ∷ s) = last_is_word (d ∷ s)

-- `\b` behind a literal: exactly one of the units beside the place is a word unit.
unfoldable pub boundary : Text → Text → Bool
boundary literal rest = if last_is_word literal then not (starts_word rest) else starts_word rest

-- `TABLE\b`
unfoldable pub table_here : Text → Text → Bool
table_here table = word_then table (boundary table)

abbrev pub behind_dot : Text → Text × Text → Bool
behind_dot table ([], rest) = false
behind_dot table (_ ∷ _, []) = false
behind_dot table (_ ∷ _, c ∷ rest) = c == b'.' && table_here table rest

-- `(?:\w+\.)?TABLE\b`, where the prefix is allowed for a table whose name has no dot
unfoldable pub qualified_here : Text → Text → Bool
qualified_here table s =
    table_here table s || not (includes table (codes ".")) && behind_dot table (span is_word s)

-- `(?:FROM|JOIN)\s+(?:\w+\.)?TABLE\b` at this place
unfoldable pub table_after_from : Text → Text → Bool
table_after_from table s =
    word_then (codes "FROM") (spaces_then (qualified_here table)) s
    || word_then (codes "JOIN") (spaces_then (qualified_here table)) s

-- `first\s+second\s+` and then the rest
abbrev pub two_words : Text → Text → (Text → Bool) → Text → Bool
two_words first second next = word_then first (spaces_then (word_then second (spaces_then next)))

-- `(?:INTO|UPDATE|DELETE\s+FROM|DROP\s+TABLE|ALTER\s+TABLE|TRUNCATE\s+TABLE)\s+TABLE\b` at this place
unfoldable pub write_to_table : Text → Text → Bool
write_to_table table s =
    word_then (codes "INTO") (spaces_then (table_here table)) s
    || word_then (codes "UPDATE") (spaces_then (table_here table)) s
    || two_words (codes "DELETE") (codes "FROM") (table_here table) s
    || two_words (codes "DROP") (codes "TABLE") (table_here table) s
    || two_words (codes "ALTER") (codes "TABLE") (table_here table) s
    || two_words (codes "TRUNCATE") (codes "TABLE") (table_here table) s

-- `[=(]` next
abbrev pub assignment_here : Text → Bool
assignment_here [] = false
assignment_here (c ∷ s) = c == b'=' || c == b'('

-- `s.split(/\s*[=(]/)[0]`
unfoldable pub before_assignment : Text → Text
before_assignment [] = []
before_assignment (c ∷ s) =
    let rest = before_assignment s in if assignment_here (drop_spaces (c ∷ s)) then [] else c ∷ rest

-- Opens what this file defines, to evaluate it on concrete inputs.
unfoldable pub matching_runs : Unit {0}
unfolding anywhere spaces_then word_then boundary table_here qualified_here table_after_from
    write_to_table before_assignment text_runs
matching_runs = tt
