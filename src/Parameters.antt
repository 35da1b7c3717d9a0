-- ===== src/Parameters.antt =====
-- src/custom-tools.ts: `substituteParameters` and `coerceParameter`. The host's
-- conversions `String(v)` and `Number(v)` are an argument.
pub mod Laws
use omnibase.Prelude.{
  ℕ, Bool, true, false, not, Option, none, some, List, [], ◌∷◌, ◌++◌, or_else, if◌then◌else◌,
}
use omnibase.Text.{Text, codes, text_eq, to_lower}
use omnibase.Values.{
  Value, undefined, null, bool, num, str, arr, obj, is_nan, truthy, Conversions, values_run,
}
use omnibase.Collections.{Map, lookup, has}
use omnibase.Types.{
  CustomToolParameter, ParameterType, string, number, boolean, enum, unlisted, invalid_parameter,
  type_error,
}
use omnibase.Exec.{Result, ok, err}
use omnibase.Exec.Pure.{◌>>=◌, ◌>>◌}
use omnibase.Template.{Token, unit, hole, placeholders, template_runs}

-- `args[name]`
abbrev pub argument : Map Value → Text → Value
argument args name = or_else (lookup name args) undefined

-- The default stands in for a missing argument of an optional parameter.
abbrev pub is_optional : Option Bool → Bool
is_optional (some false) = true
is_optional _ = false

abbrev pub with_default : CustomToolParameter → Value → Value
with_default def undefined = if is_optional def.required then def.default else undefined
with_default def v = v

-- The braces of a placeholder that has no definition stay in the text.
abbrev pub braces : Text → Text
braces name = b'{' ∷ (name ++ b'}' ∷ [])

module _ (host : Conversions) where
  abbrev coerce_boolean : Value → Value
  coerce_boolean (str s) = bool (text_eq (to_lower s) (codes "true"))
  coerce_boolean v = bool (truthy v)

  abbrev coerce_enum : Text → Option (List Text) → Text → Result Value
  coerce_enum name none t = err type_error
  coerce_enum name (some values) t =
      if has t values then ok (str t) else err (invalid_parameter name)

  unfoldable pub coerce_type : Text → CustomToolParameter → ParameterType → Value → Result Value
  coerce_type name def string value = ok (str (host.to_string value))
  coerce_type name def number value =
      if is_nan (host.to_number value)
      then err (invalid_parameter name)
      else ok (num (host.to_number value))
  coerce_type name def boolean value = ok (coerce_boolean value)
  coerce_type name def enum value = coerce_enum name def.values (host.to_string value)
  coerce_type name def unlisted value = ok value

  unfoldable pub coerce_parameter : Text → Value → CustomToolParameter → Result Value
  coerce_parameter name value def = coerce_type name def def.type value

  -- What a placeholder turns into: its text and the values bound for it.
  unfoldable pub replacement :
      Map Value → Text → Option CustomToolParameter → Result (Text × List Value)
  replacement args name none = ok (braces name, [])
  replacement args name (some def) = do
    value ← coerce_parameter name (with_default def (argument args name)) def
    ok (b'?' ∷ [], value ∷ [])

  unfoldable pub replace :
      Map Value → Map CustomToolParameter → List (Token Text) → Result (Text × List Value)
  replace args defs [] = ok ([], [])
  replace args defs (unit c ∷ ts) = do (sql, values) ← replace args defs ts; ok (c ∷ sql, values)
  replace args defs (hole name ∷ ts) = do
    (here, bound) ← replacement args name (lookup name defs)
    (sql, values) ← replace args defs ts
    ok (here ++ sql, bound ++ values)

  unfoldable pub substitute_parameters :
      Text → Map Value → Map CustomToolParameter → Result (Text × List Value)
  substitute_parameters sql args defs = replace args defs (placeholders sql)

-- Opens what this file defines, to evaluate it on concrete inputs.
unfoldable pub parameters_run : Unit {0}
unfolding coerce_type coerce_parameter replacement replace substitute_parameters template_runs
    values_run
parameters_run = tt
