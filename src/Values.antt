-- ===== src/Values.antt =====
-- The values of JavaScript that pass through the program untyped (`unknown`): cells of a row,
-- arguments of a tool, and the syntax trees of the SQL parser. A number is represented by the text
-- that `String(n)` gives for it, so that `NaN` is the number spelled "NaN"; `0` and `-0` are one.
use omnibase.Prelude.{Bool, true, false, ◌||◌, List, [], ◌∷◌, if◌then◌else◌}
use omnibase.Text.{Text, codes, text_eq}

mutual
  pub data Value : Type 0 where
    undefined null : Value
    bool : Bool → Value
    num str : Text → Value
    arr : Items → Value
    obj : Fields → Value

  pub data Items : Type 0 where
    nil : Items
    item : Value → Items → Items

  pub data Fields : Type 0 where
    end : Fields
    field : Text → Value → Fields → Fields

abbrev pub items : Items → List Value
items nil = []
items (item v vs) = v ∷ items vs

abbrev pub fields : Fields → List (Text × Value)
fields end = []
fields (field k v fs) = (k, v) ∷ fields fs

abbrev pub is_nan : Text → Bool
is_nan n = text_eq n (codes "NaN")

-- `Boolean(v)`
unfoldable pub truthy : Value → Bool
truthy undefined = false
truthy null = false
truthy (bool b) = b
truthy (num n) = if text_eq n (codes "0") || is_nan n then false else true
truthy (str []) = false
truthy (str (_ ∷ _)) = true
truthy (arr _) = true
truthy (obj _) = true

-- `o[k]` of an object, `undefined` where the key is missing
unfoldable pub get_field : Text → Fields → Value
get_field k end = undefined
get_field k (field j v fs) = let rest = get_field k fs in if text_eq j k then v else rest

-- What the host's conversions `String(v)` and `Number(v)` give.
pub record Conversions : Type 0 where
  pub to_string : Value → Text
  pub to_number : Value → Text

-- Opens what this file defines, to evaluate it on concrete inputs.
unfoldable pub values_run : Unit {0}
unfolding truthy get_field text_eq
values_run = tt
