-- ===== src/Config/Raw.antt =====
-- src/config.ts: the shape of a parsed configuration file (`RawConfig`). As the casts of the loader
-- say, a step has a statement and a parameter a type; a missing connection of a tool, or a missing
-- description of a parameter, is the empty text.
use omnibase.Prelude.{ℕ, Bool, Option, List}
use omnibase.Text.{Text}
use omnibase.Values.{Value}
use omnibase.Collections.{Map}
use omnibase.Types.{ParameterType, CustomToolStep}

pub record RawConnection : Type 0 where
  pub dsn : Option Text
  pub permission : Option Text
  pub timeout : Option ℕ
  pub max_rows : Option ℕ
  pub schema_filter : Option (Option (List Text) × Option (List Text))
  pub allow_all_pragmas : Option Bool
  pub max_value_length : Option ℕ
  pub read_only_tables : Option (List Text)

pub record RawDefaults : Type 0 where
  pub permission : Option Text
  pub timeout : Option ℕ
  pub max_rows : Option ℕ

pub record RawComposeStep : Type 0 where
  pub tool : Option Text
  pub sql : Option Text
  pub args : Option (Map Value)
  pub as_name : Option Text

pub record RawParameter : Type 0 where
  pub type : ParameterType
  pub description : Text
  pub required : Option Bool
  pub default : Value
  pub values : Option (List Text)

pub record RawTool : Type 0 where
  pub connection : Text
  pub description : Option Text
  pub sql : Option Text
  pub steps : Option (List CustomToolStep)
  pub compose : Option (List RawComposeStep)
  pub permission : Option Text
  pub max_rows : Option ℕ
  pub timeout : Option ℕ
  pub parameters : Option (Map RawParameter)

pub record RawAudit : Type 0 where
  pub enabled : Option Bool
  pub path : Option Text
  pub format : Option Text
  pub max_entries : Option ℕ

pub record RawConfig : Type 0 where
  pub connections : Map RawConnection
  pub defaults : RawDefaults
  pub tools : Map RawTool
  pub audit : Option RawAudit
  pub schema_hints : Option Bool
