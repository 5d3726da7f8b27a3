-- ===== src/Settings/Kinds.antt =====
-- lib.rs: what a setting is registered with.
use pgl_validate.Base.{Bool, Option}
use pgl_validate.Base.Int.{ℤ, pos}
use pgl_validate.Base.Text.{Bytes}

-- The types of settings, with the default, and with the least and the greatest value of a number.
pub data Kind : Type 0 where
  bool_guc : Bool → Kind
  int_guc : ℤ → ℤ → ℤ → Kind
  string_guc : Option Bytes → Kind

-- Who may change a setting: any user, or the server configuration.
pub data GucContext : Type 0 where
  userset sighup : GucContext

pub record Guc : Type 0 where
  pub name : Bytes
  pub short_description : Bytes
  pub long_description : Bytes
  pub kind : Kind
  pub context : GucContext

abbrev pub i32_max : ℤ
i32_max = pos 2147483647
