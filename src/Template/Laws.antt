-- ===== src/Template/Laws.antt =====
-- Reading a template gives back the tokens that it was written from.
use omnibase.Prelude.{
  ℕ, ◌+◌, ◌≡◌, refl, ap, ◌≢◌, true, Option, none, some, List, [], ◌∷◌, ◌++◌, length, arith,
  length-append, All,
}
use mathlib.Core.List.{append_assoc}
use omnibase.Text.{Text, is_letter, is_digit, is_word, span}
use omnibase.Template.{
  starts_name, name_at, placeholder_at, Token, unit, hole, tokens_from, placeholders,
}

abbrev IsWordUnit : ℕ → Type 0
IsWordUnit c = is_word c ≡ true

-- `[a-zA-Z_][a-zA-Z0-9_]*`
abbrev pub IsName : Text → Type 0
IsName [] = ⊥
IsName (c ∷ s) = (starts_name c ≡ true) × All IsWordUnit s

abbrev pub write : List (Token Text) → Text
write [] = []
write (unit c ∷ ts) = c ∷ write ts
write (hole name ∷ ts) = b'{' ∷ (name ++ b'}' ∷ write ts)

-- A unit of the text between placeholders opens none; a hole holds a name.
abbrev pub IsToken : Token Text → Type 0
IsToken (unit c) = c ≢ b'{'
IsToken (hole name) = IsName name

pub is_word_of_starts_name : (c : ℕ) → starts_name c ≡ true → is_word c ≡ true
unfolding starts_name is_word
is_word_of_starts_name c h = ground arith

span_word :
    (name rest : Text)
    → All IsWordUnit name
    → span is_word (name ++ b'}' ∷ rest) ≡ (name, b'}' ∷ rest)
unfolding span
span_word [] rest h = unfold is_word is_letter is_digit in refl
span_word (c ∷ name) rest (hc, h) = rw hc (rw (span_word name rest h) refl)

name_at_word :
    (name rest : Text) → IsName name → name_at (name ++ b'}' ∷ rest) ≡ some (name, b'}' ∷ rest)
unfolding name_at
name_at_word [] rest h = absurd h
name_at_word (c ∷ name) rest (hc, h) =
    rw hc (ap some (span_word (c ∷ name) rest (is_word_of_starts_name c hc, h)))

placeholder_at_name :
    (name rest : Text) → IsName name → placeholder_at (b'{' ∷ (name ++ b'}' ∷ rest)) ≡ some name
unfolding placeholder_at
placeholder_at_name name rest h = rw (name_at_word name rest h) refl

placeholder_at_unit : (c : ℕ) (s : Text) → c ≢ b'{' → placeholder_at (c ∷ s) ≡ none
unfolding placeholder_at
placeholder_at_unit c s h = ground arith

module _ {A : Type 0} (match : Text → Option A) (width : A → ℕ) where
  tokens_from-append :
      (a s : Text) → tokens_from match width (length a) (a ++ s) ≡ tokens_from match width 0 s
  unfolding tokens_from
  tokens_from-append [] s = refl
  tokens_from-append (c ∷ a) s = tokens_from-append a s

abbrev placeholder_tokens : ℕ → Text → List (Token Text)
placeholder_tokens = tokens_from placeholder_at (λ name. length name + 1)

tokens-unit :
    (c : ℕ) (s : Text) → c ≢ b'{' → placeholder_tokens 0 (c ∷ s) ≡ unit c ∷ placeholder_tokens 0 s
unfolding tokens_from
tokens-unit c s h = rw (placeholder_at_unit c s h) refl

tokens-hole :
    (name s : Text)
    → IsName name
    → placeholder_tokens 0 (b'{' ∷ (name ++ b'}' ∷ s)) ≡ hole name ∷ placeholder_tokens 0 s
unfolding tokens_from
tokens-hole name s h = rw (placeholder_at_name name s h) (
    ap (λ l. hole name ∷ l)
      (rw (← append_assoc name (b'}' ∷ []) s) (
        rw (← length-append name (b'}' ∷ []))
          (tokens_from-append placeholder_at (λ n. length n + 1) (name ++ b'}' ∷ []) s))))

-- A template written from tokens, units other than an opening brace and holes with names, is read
-- as these tokens.
pub placeholders-write : (ts : List (Token Text)) → All IsToken ts → placeholders (write ts) ≡ ts
unfolding placeholders
placeholders-write [] h = unfold tokens_from in refl
placeholders-write (unit c ∷ ts) (hc, h) =
    rw (tokens-unit c (write ts) hc) (ap (λ l. unit c ∷ l) (placeholders-write ts h))
placeholders-write (hole name ∷ ts) (hn, h) =
    rw (tokens-hole name (write ts) hn) (ap (λ l. hole name ∷ l) (placeholders-write ts h))
