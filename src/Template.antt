-- ===== src/Template.antt =====
-- The placeholders `{name}` and `{step.column}` of SQL templates: the global regular expressions of
-- src/custom-tools.ts and src/compose-expander.ts as readings of a text into
-- tokens. A match is jumped over by counting its units down, so that the reading is structural.
pub mod Laws
use omnibase.Prelude.{
  ℕ, zero, suc, ◌+◌, Bool, true, false, ◌||◌, Option, none, some, List, [], ◌∷◌, ◌++◌, ◌==◌, length,
  if◌then◌else◌,
}
use omnibase.Text.{Text, codes, is_letter, is_word, span, text_runs}
use omnibase.Collections.{unique, collections_run}

-- `[a-zA-Z_]`
unfoldable pub starts_name : ℕ → Bool
starts_name c = is_letter c || c == b'_'

-- `([a-zA-Z_][a-zA-Z0-9_]*)` at this place, and what follows
unfoldable pub name_at : Text → Option (Text × Text)
name_at [] = none
name_at (c ∷ s) = if starts_name c then some (span is_word (c ∷ s)) else none

-- A unit, and what follows it.
abbrev pub after_unit : ℕ → Text → Option Text
after_unit u [] = none
after_unit u (c ∷ s) = if c == u then some s else none

abbrev closed : Option (Text × Text) → Option Text
closed none = none
closed (some (name, rest)) = elim (after_unit b'}' rest) [ none ↦ none | some _ ↦ some name ]

-- `\{(name)\}` at this place
unfoldable pub placeholder_at : Text → Option Text
placeholder_at [] = none
placeholder_at (c ∷ s) = if c == b'{' then closed (name_at s) else none

abbrev column_of : Text → Option Text → Option (Text × Text)
column_of step none = none
column_of step (some rest) = elim (closed (name_at rest)) [
  | none ↦ none
  | some column ↦ some (step, column)
]

abbrev step_of : Option (Text × Text) → Option (Text × Text)
step_of none = none
step_of (some (step, rest)) = column_of step (after_unit b'.' rest)

-- `\{(name)\.(name)\}` at this place
unfoldable pub reference_at : Text → Option (Text × Text)
reference_at [] = none
reference_at (c ∷ s) = if c == b'{' then step_of (name_at s) else none

pub data Token (A : Type 0) : Type 0 where
  unit : ℕ → Token A
  hole : A → Token A

abbrev pub token_of : {A : Type 0} → ℕ → Option A → Token A
token_of c none = unit c
token_of c (some a) = hole a

abbrev pub units_left : {A : Type 0} → (A → ℕ) → Option A → ℕ
units_left width none = zero
units_left width (some a) = width a

module _ {A : Type 0} (match : Text → Option A) (width : A → ℕ) where
  -- The first argument counts the units of a match that are still to be jumped over.
  unfoldable pub tokens_from : ℕ → Text → List (Token A)
  tokens_from n [] = []
  tokens_from (suc n) (c ∷ s) = tokens_from n s
  tokens_from zero (c ∷ s) =
      let found = match (c ∷ s) in token_of c found ∷ tokens_from (units_left width found) s

unfoldable pub placeholders : Text → List (Token Text)
placeholders sql = tokens_from placeholder_at (λ name. length name + 1) zero sql

unfoldable pub references : Text → List (Token (Text × Text))
references sql =
    tokens_from reference_at (λ (step, column). length step + length column + 2) zero sql

abbrev pub holes : {A : Type 0} → List (Token A) → List A
holes [] = []
holes (unit c ∷ ts) = holes ts
holes (hole a ∷ ts) = a ∷ holes ts

-- src/custom-tools.ts: `extractPlaceholders`
unfoldable pub extract_placeholders : Text → List Text
extract_placeholders sql = unique (holes (placeholders sql))

-- Opens what this file defines, to evaluate it on concrete inputs.
unfoldable pub template_runs : Unit {0}
unfolding starts_name name_at placeholder_at reference_at tokens_from placeholders references
    extract_placeholders text_runs collections_run
template_runs = tt
