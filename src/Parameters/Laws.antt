-- ===== src/Parameters/Laws.antt =====
-- Substitution binds arguments as values: they never become part of the SQL text.
use omnibase.Prelude.{
  ℕ, ◌≡◌, refl, ap, sym, ◌∙◌, Bool, true, false, Option, none, some, List, [], ◌∷◌, ◌++◌, arith,
  All, ◌≢◌, Bool-cases, ==_iff, ◌==◌, inl, inr,
}
use mathlib.Core.List.{append_assoc}
use omnibase.Text.{Text, is_word, is_letter, is_digit}
use omnibase.Values.{Value, undefined, bool, num, str, is_nan, Conversions}
use omnibase.Collections.{Map, lookup, has}
use omnibase.Types.{CustomToolParameter, ParameterType, string, number, boolean, enum, unlisted}
use omnibase.Exec.{ok}
use omnibase.Exec.Pure.Laws.{>>=-eq-ok}
use omnibase.Exec.Laws.{ok-injective}
use omnibase.Template.{Token, unit, hole, placeholders}
use omnibase.Template.Laws.{IsName, IsToken, write, placeholders-write, is_word_of_starts_name}
use omnibase.Expander.{escape, sql_literal}
use omnibase.Parameters.{
  argument, with_default, replacement, braces, coerce_enum, coerce_type, coerce_parameter, replace,
  substitute_parameters,
}

-- What a parameter's declared type promises of the value that is bound: a text, a number that is not
-- NaN, a Boolean, one of the values that the enumeration lists, or nothing, for an unknown type.
abbrev pub HasType : ParameterType → Option (List Text) → Value → Type 0
HasType string values v = (s : Text) × (v ≡ str s)
HasType number values v = (n : Text) × (v ≡ num n) × (is_nan n ≡ false)
HasType boolean values v = (b : Bool) × (v ≡ bool b)
HasType enum values v =
    (s : Text) × (allowed : List Text) × (v ≡ str s)
    × (values ≡ some allowed)
    × (has s allowed ≡ true)
HasType unlisted values v = Unit

abbrev after_name : Text → Option CustomToolParameter → Text → Text
after_name name none rest = braces name ++ rest
after_name name (some def) rest = b'?' ∷ rest

-- The template with every defined placeholder as `?`.
abbrev pub skeleton : Map CustomToolParameter → List (Token Text) → Text
skeleton defs [] = []
skeleton defs (unit c ∷ ts) = c ∷ skeleton defs ts
skeleton defs (hole name ∷ ts) = after_name name (lookup name defs) (skeleton defs ts)

-- The bound values, one for each defined placeholder, in order and of the declared type.
pub data Binds (defs : Map CustomToolParameter) : List (Token Text) → List Value → Type 0 where
  done : Binds defs [] []
  text :
      {c : ℕ} {ts : List (Token Text)} {vs : List Value}
      → Binds defs ts vs
      → Binds defs (unit c ∷ ts) vs
  left :
      {name : Text} {ts : List (Token Text)} {vs : List Value}
      → lookup name defs ≡ none
      → Binds defs ts vs
      → Binds defs (hole name ∷ ts) vs
  bound :
      {name : Text} {ts : List (Token Text)} {v : Value} {vs : List Value}
      {def : CustomToolParameter}
      → lookup name defs ≡ some def
      → HasType def.type def.values v
      → Binds defs ts vs
      → Binds defs (hole name ∷ ts) (v ∷ vs)

module _ (host : Conversions) where
  coerce_enum-HasType :
      (name t : Text) (values : Option (List Text)) (w : Value)
      → coerce_enum host name values t ≡ ok w
      → HasType enum values w
  coerce_enum-HasType name t none w h = cc
  coerce_enum-HasType name t (some allowed) w h = (t, allowed, ground arith, refl, ground arith)

  coerce_type-HasType :
      (name : Text) (def : CustomToolParameter) (type : ParameterType) (v w : Value)
      → coerce_type host name def type v ≡ ok w
      → HasType type def.values w
  unfolding coerce_type
  coerce_type-HasType name def string v w h = (host.to_string v, cc)
  coerce_type-HasType name def number v w h = (host.to_number v, ground arith, ground arith)
  coerce_type-HasType name def boolean (str s) w h = (_, sym (ok-injective h))
  coerce_type-HasType name def boolean undefined w h = (_, sym (ok-injective h))
  coerce_type-HasType name def boolean _ w h = (_, sym (ok-injective h))
  coerce_type-HasType name def enum v w h =
      coerce_enum-HasType name (host.to_string v) def.values w h
  coerce_type-HasType name def unlisted v w h = tt

  coerce_parameter-HasType :
      (name : Text) (v w : Value) (def : CustomToolParameter)
      → coerce_parameter host name v def ≡ ok w
      → HasType def.type def.values w
  unfolding coerce_parameter
  coerce_parameter-HasType name v w def h = coerce_type-HasType name def def.type v w h

  module _ (args : Map Value) (defs : Map CustomToolParameter) where
    -- What one placeholder contributes, by the definition that was looked up.
    replacement_sound :
        (name : Text) (found : Option CustomToolParameter) (sql here : Text)
        (ts : List (Token Text)) (bound_here values : List Value)
        → lookup name defs ≡ found
        → replacement host args name found ≡ ok (here, bound_here)
        → Binds defs ts values
        → (here ++ sql ≡ after_name name found sql)
          × Binds defs (hole name ∷ ts) (bound_here ++ values)
    unfolding replacement
    replacement_sound name none sql here ts bound_here values e h later =
        let same = ok-injective h in
        (ap (λ p. p.0 ++ sql) (sym same), rw (← ap (λ p. p.1) same) (left e later))
    replacement_sound name (some def) sql here ts bound_here values e h later =
        let value = with_default def (argument args name) in
        let (w, coerced, rest) =
          >>=-eq-ok (coerce_parameter host name value def) _ (here, bound_here) h in
        let same = ok-injective rest in
        (
          ap (λ p. p.0 ++ sql) (sym same),
          rw (← ap (λ p. p.1) same)
              (bound e (coerce_parameter-HasType name value w def coerced) later),
        )

    replace_sound :
        (ts : List (Token Text)) (sql : Text) (values : List Value)
        → replace host args defs ts ≡ ok (sql, values)
        → (sql ≡ skeleton defs ts) × Binds defs ts values
    unfolding replace
    replace_sound [] sql values h =
        let same = ok-injective h in (ap (λ p. p.0) (sym same), rw (← ap (λ p. p.1) same) done)
    replace_sound (unit c ∷ ts) sql values h =
        let ((sql', values'), later, rest) =
          >>=-eq-ok (replace host args defs ts) _ (sql, values) h in
        let same = ok-injective rest in
        let (text_same, binds) = replace_sound ts sql' values' later in
        (
          ap (λ p. p.0) (sym same) ∙ ap (λ t. c ∷ t) text_same,
          rw (← ap (λ p. p.1) same) (text binds),
        )
    replace_sound (hole name ∷ ts) sql values h =
        let ((here, bound_here), now, next) =
          >>=-eq-ok (replacement host args name (lookup name defs)) _ (sql, values) h in
        let ((sql', values'), later, rest) =
          >>=-eq-ok (replace host args defs ts) _ (sql, values) next in
        let same = ok-injective rest in
        let (text_same, binds) = replace_sound ts sql' values' later in
        let (here_same, all_bound) =
          replacement_sound name (lookup name defs) sql' here ts bound_here values' refl now
            binds in
        (
          ap (λ p. p.0) (sym same)
              ∙ here_same
              ∙ ap (λ t. after_name name (lookup name defs) t) text_same,
          rw (← ap (λ p. p.1) same) all_bound,
        )

    -- A substitution that succeeds yields the template with its defined placeholders as `?`, a text
    -- that does not depend on the arguments, and binds one value of the declared type for each of
    -- them, in order.
    pub substitute_parameters_sound :
        (template sql : Text) (values : List Value)
        → substitute_parameters host template args defs ≡ ok (sql, values)
        → (sql ≡ skeleton defs (placeholders template)) × Binds defs (placeholders template) values
    unfolding substitute_parameters
    substitute_parameters_sound template sql values h =
        replace_sound (placeholders template) sql values h

escape_word :
    (s : Text)
    → All (λ c. is_word c ≡ true) s
    → (rest : Text) → escape (s ++ rest) ≡ s ++ escape rest
unfolding escape
escape_word [] h rest = refl
escape_word (c ∷ s) (hc, h) rest = rw (escape_word s h rest) (elim (Bool-cases (c == 39)) [
  | inl quote ↦ let same : c ≡ 39 = (==_iff c 39).0 quote in absurd (not_word (rw same at hc))
  | inr other ↦ rw other refl
])
  where
    not_word : is_word 39 ≡ true → ⊥
    not_word h = unfold is_word is_letter is_digit in let bad : false ≡ true = h in cc

name_word : (name : Text) → IsName name → All (λ c. is_word c ≡ true) name
name_word [] h = absurd h
name_word (c ∷ name) (hc, h) = (is_word_of_starts_name c hc, h)

-- The tokens of a text without an opening brace, and of a value that reads `{name}` behind it.
plain_units : Text → List (Token Text) → List (Token Text)
plain_units [] ts = ts
plain_units (c ∷ s) ts = unit c ∷ plain_units s ts

quoted : Text → List (Token Text)
quoted name = unit 39 ∷ hole name ∷ unit 39 ∷ []

write-plain_units : (s : Text) (ts : List (Token Text)) → write (plain_units s ts) ≡ s ++ write ts
unfolding plain_units
write-plain_units [] ts = refl
write-plain_units (c ∷ s) ts = ap (λ t. c ∷ t) (write-plain_units s ts)

plain_units-IsToken :
    (s : Text) (ts : List (Token Text))
    → All (λ c. c ≢ b'{') s
    → All IsToken ts
    → All IsToken (plain_units s ts)
unfolding plain_units
plain_units-IsToken [] ts h later = later
plain_units-IsToken (c ∷ s) ts (hc, h) later = (hc, plain_units-IsToken s ts h later)

replace-plain_units :
    (host : Conversions) (args : Map Value) (defs : Map CustomToolParameter) (s here : Text)
    (values : List Value) (ts : List (Token Text))
    → replace host args defs ts ≡ ok (here, values)
    → replace host args defs (plain_units s ts) ≡ ok (s ++ here, values)
unfolding replace plain_units
replace-plain_units host args defs [] here values ts h = h
replace-plain_units host args defs (c ∷ s) here values ts h =
    rw (replace-plain_units host args defs s here values ts h) refl

write-quoted : (name : Text) → IsName name → write (quoted name) ≡ sql_literal (braces name)
unfolding sql_literal escape quoted
write-quoted name hn = sym (
    rw (escape_word name (name_word name hn) (b'}' ∷ []))
      (ap (λ t. 39 ∷ b'{' ∷ t) (append_assoc name (b'}' ∷ []) (39 ∷ []))))

-- A literal of the text `{name}`, for a defined parameter, is substituted like a placeholder.
pub literal_is_substituted :
    (host : Conversions) (args : Map Value) (defs : Map CustomToolParameter) (before name : Text)
    (def : CustomToolParameter) (v : Value)
    → All (λ c. c ≢ b'{') before
    → IsName name
    → lookup name defs ≡ some def
    → coerce_parameter host name (with_default def (argument args name)) def ≡ ok v
    → substitute_parameters host (before ++ sql_literal (braces name)) args defs
      ≡ ok (before ++ 39 ∷ b'?' ∷ 39 ∷ [], v ∷ [])
unfolding substitute_parameters quoted
literal_is_substituted host args defs before name def v hb hn found coerced =
    let text : before ++ sql_literal (braces name) ≡ write (plain_units before (quoted name)) =
      ap (λ t. before ++ t) (sym (write-quoted name hn))
      ∙ sym (write-plain_units before (quoted name)) in
    let each : All IsToken (quoted name) = ((λ e. omega arith), (hn, ((λ e. omega arith), tt))) in
    let one : replace host args defs (quoted name) ≡ ok (39 ∷ b'?' ∷ 39 ∷ [], v ∷ []) =
      unfold replace replacement in rw found (rw coerced refl) in
    rw text (
      rw
        (placeholders-write (plain_units before (quoted name))
          (plain_units-IsToken before (quoted name) hb each))
        (replace-plain_units host args defs before _ (v ∷ []) (quoted name) one))
