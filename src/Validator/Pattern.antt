-- ===== src/Validator/Pattern.antt =====
-- The regular expressions of src/tools/validate-query.ts, with the flags `is`, by backtracking: a
-- pattern gives every rest of the text that it can leave behind it, in the order in which the host
-- tries them. The host takes the first way through the whole expression.
use omnibase.Prelude.{
  ℕ, Bool, Option, none, some, List, [], ◌∷◌, ◌++◌, flat_map, map, ◌==◌, if◌then◌else◌,
}
use omnibase.Text.{Text, is_word, lower_unit, text_runs}

abbrev pub Pattern : Type 0
Pattern = Text → List Text

-- A word in whatever case.
unfoldable pub word : Text → Pattern
word [] s = s ∷ []
word (_ ∷ _) [] = []
word (c ∷ cs) (d ∷ s) = let rests = word cs s in if lower_unit c == lower_unit d then rests else []

-- `p*`, `p` a test of one unit, longest first
unfoldable pub star : (ℕ → Bool) → Pattern
star p [] = [] ∷ []
star p (c ∷ s) = let rests = star p s in if p c then rests ++ (c ∷ s) ∷ [] else (c ∷ s) ∷ []

-- `p+`, longest first
unfoldable pub plus : (ℕ → Bool) → Pattern
plus p [] = []
plus p (c ∷ s) = if p c then star p s else []

-- `.*?`, shortest first
unfoldable pub lazy_star : Pattern
lazy_star [] = [] ∷ []
lazy_star (c ∷ s) = (c ∷ s) ∷ lazy_star s

-- `.+?`, shortest first
unfoldable pub lazy_plus : Pattern
lazy_plus [] = []
lazy_plus (c ∷ s) = lazy_star s

-- `$`, without the flag `m`
unfoldable pub ending : Pattern
ending [] = [] ∷ []
ending (_ ∷ _) = []

infixr 30 ◌then◌
abbrev pub ◌then◌ : Pattern → Pattern → Pattern
(p then q) s = flat_map q (p s)

-- A capture: what was captured, with the rest.
abbrev pub Capture : Type 0
Capture = Text → List (Text × Text)

-- The units before a double quote, with what follows the quote.
unfoldable pub quoted : Capture
quoted [] = []
quoted (c ∷ s) =
    let more = map (λ found. (c ∷ found.0, found.1)) (quoted s) in
    if c == b'"' then ([], s) ∷ [] else more

-- The prefixes of word characters, longest first.
unfoldable pub words : Capture
words [] = ([], []) ∷ []
words (c ∷ s) =
    let longer = map (λ found. (c ∷ found.0, found.1)) (words s) in
    if is_word c then longer ++ ([], c ∷ s) ∷ [] else ([], c ∷ s) ∷ []

-- Captures that are not empty.
unfoldable pub some_units : List (Text × Text) → List (Text × Text)
some_units [] = []
some_units (([], rest) ∷ found) = some_units found
some_units ((c ∷ s, rest) ∷ found) = (c ∷ s, rest) ∷ some_units found

-- `(?:"([^"]+)"|(\w+))`
unfoldable pub table_name : Capture
table_name [] = []
table_name (c ∷ s) = if c == b'"' then some_units (quoted s) else some_units (words (c ∷ s))

-- The first rest that is not empty, which is what `(.+)$` captures.
unfoldable pub first_filled : List Text → Option Text
first_filled [] = none
first_filled ([] ∷ rests) = first_filled rests
first_filled ((c ∷ s) ∷ rests) = some (c ∷ s)

-- The rests that begin at a word boundary behind a word character.
abbrev at_boundary : List Text → List Text
at_boundary [] = []
at_boundary ([] ∷ rests) = [] ∷ at_boundary rests
at_boundary ((d ∷ t) ∷ rests) =
    let kept = at_boundary rests in if is_word d then kept else (d ∷ t) ∷ kept

-- The rests behind each place where a word stands between word boundaries, first place first. The
-- test says whether the unit before is a word character.
unfoldable pub bounded_word : Text → Bool → Pattern
bounded_word w before [] = []
bounded_word w before (c ∷ s) =
    let later = bounded_word w (is_word c) s in
    let here = at_boundary (word w (c ∷ s)) in if before then later else here ++ later

-- Opens what this file defines, to evaluate it on concrete inputs.
unfoldable pub pattern_runs : Unit {0}
unfolding word star plus lazy_star lazy_plus ending quoted words some_units table_name first_filled
    bounded_word text_runs
pattern_runs = tt
