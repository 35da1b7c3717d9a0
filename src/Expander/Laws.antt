-- ===== src/Expander/Laws.antt =====
-- How inlined text values are read, by standard SQL and where a backslash escapes.
use omnibase.Prelude.{
  ℕ, ◌≡◌, refl, ap, ◌≢◌, Option, none, some, [], ◌∷◌, ◌++◌, ◌==◌, arith, Bool-cases, inl, inr, Bool,
  true, false, ◌&&◌, All, ==_iff, if◌then◌else◌,
}
use mathlib.Core.List.{append_assoc}
use omnibase.Text.{Text}
use omnibase.Expander.{escape, sql_literal}

-- How a literal is read behind its opening quote: a doubled quote is a quote, and a single one ends
-- the literal. Where `escapes` is true, as in MySQL by default, a backslash takes the next unit with
-- it; in standard SQL it is a unit like any other. The result is the value and what follows.
abbrev pub cons_read : ℕ → Option (Text × Text) → Option (Text × Text)
cons_read c none = none
cons_read c (some (s, rest)) = some (c ∷ s, rest)

unfoldable pub read_literal : Bool → Text → Option (Text × Text)
read_literal escapes [] = none
read_literal escapes (c ∷ []) = if c == 39 then some ([], []) else none
read_literal escapes (c ∷ d ∷ s) =
    let ending = some ([], d ∷ s) in
    let escaped = cons_read d (read_literal escapes s) in
    let doubled = cons_read 39 (read_literal escapes s) in
    let plain = cons_read c (read_literal escapes (d ∷ s)) in
    if escapes && c == 92
    then escaped
    else if c == 39
    then (if d == 39 then doubled else ending)
    else plain

abbrev pub NoQuote : Text → Type 0
NoQuote [] = Unit
NoQuote (c ∷ s) = c ≢ 39

-- Nothing in the text escapes.
abbrev pub NoEscape : Bool → Text → Type 0
NoEscape escapes s = All (λ c. (escapes && c == 92) ≡ false) s

read_end :
    (escapes : Bool) (rest : Text)
    → NoQuote rest
    → read_literal escapes (39 ∷ rest) ≡ some ([], rest)
unfolding read_literal
read_end escapes [] h = refl
read_end true (c ∷ rest) h = ground arith
read_end false (c ∷ rest) h = ground arith

read_doubled :
    (escapes : Bool) (s : Text)
    → read_literal escapes (39 ∷ 39 ∷ s) ≡ cons_read 39 (read_literal escapes s)
unfolding read_literal
read_doubled true s = refl
read_doubled false s = refl

read_plain :
    (escapes : Bool) (c : ℕ) (a b : Text)
    → (escapes && c == 92) ≡ false
    → c ≢ 39
    → read_literal escapes (c ∷ (a ++ 39 ∷ b)) ≡ cons_read c (read_literal escapes (a ++ 39 ∷ b))
unfolding read_literal
read_plain escapes c [] b free h = rw free (ground arith)
read_plain escapes c (d ∷ a) b free h = rw free (ground arith)

read_escape :
    (escapes : Bool) (s rest : Text)
    → NoEscape escapes s
    → NoQuote rest
    → read_literal escapes (escape s ++ 39 ∷ rest) ≡ some (s, rest)
unfolding escape
read_escape escapes [] rest free h = read_end escapes rest h
read_escape escapes (c ∷ s) rest (one, free) h = elim (Bool-cases (c == 39)) [
  | inl quote ↦
      let same : c ≡ 39 = (==_iff c 39).0 quote in
      rw quote (
        rw (read_doubled escapes (escape s ++ 39 ∷ rest))
          (rw (read_escape escapes s rest free h) (ground arith)))
  | inr other ↦ rw other (
      rw (read_plain escapes c (escape s) rest one (λ e. cc ((==_iff c 39).1 e)))
        (rw (read_escape escapes s rest free h) refl))
]

-- The literal that a text value is inlined as opens with a quote. A reader of standard SQL, to which
-- a backslash is a unit like any other, reads behind that quote exactly the value, whatever quotes it
-- holds, with what follows the literal left over, if that is no quote. A reader to which a backslash
-- escapes the next unit does so too, if the value has no backslash.
pub read_literal-sql_literal :
    (escapes : Bool) (s rest : Text)
    → NoEscape escapes s
    → NoQuote rest
    → (sql_literal s ++ rest ≡ 39 ∷ (escape s ++ 39 ∷ rest))
      × (read_literal escapes (escape s ++ 39 ∷ rest) ≡ some (s, rest))
unfolding sql_literal
read_literal-sql_literal escapes s rest free h =
    (ap (λ t. 39 ∷ t) (append_assoc (escape s) (39 ∷ []) rest), read_escape escapes s rest free h)
