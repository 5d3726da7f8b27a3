-- ===== src/Build/Search.antt =====
-- build.rs: where `pg_config` is looked for, in the order in which it is.
use pgl_validate.Base.{List, [], ◌∷◌, ◌++◌, Option, none, some, ok, if◌then◌else◌}
use pgl_validate.Base.Text.{Bytes, codes}
use pgl_validate.Base.Utf8.{is_utf8}
use pgl_validate.Base.Steps.{◌>>=◌, ◌>>◌, lift, log}
use pgl_validate.Build.Config.{Host, Output, Printed, existing, lines, first_path}

-- The major versions with their features, in the order of the search.
unfoldable pub majors : List (Bytes × Bytes)
majors =
    (codes "18", codes "CARGO_FEATURE_PG18")
    ∷ (codes "17", codes "CARGO_FEATURE_PG17")
    ∷ (codes "16", codes "CARGO_FEATURE_PG16")
    ∷ (codes "15", codes "CARGO_FEATURE_PG15")
    ∷ []

unfoldable pub config_variables : List Bytes
config_variables =
    codes "PGL_VALIDATE_PG_CONFIG" ∷ codes "PGRX_PG_CONFIG_PATH" ∷ codes "PG_CONFIG" ∷ []

abbrev pub config_program : Bytes
config_program = codes "pg_config"

-- `Option::or_else`.
abbrev pub or_else : {A : Type 0} → Option A → Option A → Option A
or_else none b = b
or_else (some a) b = some a

-- The text of a successful output, when it is UTF-8.
unfoldable pub output_text : Option Output → Option Bytes
output_text none = none
output_text (some o) =
    if o.success then (if is_utf8 o.stdout then some o.stdout else none) else none

module _ (host : Host) where
  -- `find_map`.
  unfoldable pub first_major : List (Bytes × Bytes) → Option Bytes
  first_major [] = none
  first_major ((major, feature) ∷ rest) = elim (host.var_os feature) [
    | none ↦ first_major rest
    | some v ↦ some major
  ]

  unfoldable pub active_pg_major : Option Bytes
  active_pg_major = first_major majors

  unfoldable pub command_output : Bytes → Bytes → Option Bytes
  command_output program arg = output_text (host.output program arg)

  unfoldable pub first_variable : List Bytes → Option Bytes
  first_variable [] = none
  first_variable (name ∷ rest) = or_else (existing host (host.var_os name)) (first_variable rest)

  -- The file of pgrx below the home directory.
  unfoldable pub search_file : Bytes → Option Bytes → Option Bytes
  search_file prefix none = none
  search_file prefix (some config) = first_path host prefix (lines config)

  unfoldable pub search_home : Bytes → Option Bytes → Printed (Option Bytes)
  search_home major none = lift (ok none)
  search_home major (some home) =
      let config_path = host.join (host.join home (codes ".pgrx")) (codes "config.toml") in
      log (codes "cargo:rerun-if-changed=" ++ config_path)
      >> lift (ok (search_file (codes "pg" ++ major) (host.read_to_string config_path)))

  unfoldable pub pg_config_from_pgrx_config : Bytes → Printed (Option Bytes)
  pg_config_from_pgrx_config major =
      search_home major (or_else (host.var_os (codes "USERPROFILE")) (host.var_os (codes "HOME")))

  -- The program `pg_config` of the search path, when it runs.
  unfoldable pub default_pg_config : Option Bytes
  default_pg_config = elim (command_output config_program (codes "--version")) [
    | none ↦ none
    | some v ↦ some config_program
  ]

  unfoldable pub or_default : Option Bytes → Option Bytes
  or_default found = or_else found default_pg_config

  -- The variable of the active version, and then the file of pgrx.
  unfoldable pub search_major : Bytes → Option Bytes → Printed (Option Bytes)
  search_major major (some path) = lift (ok (some path))
  search_major major none = do
    found ← pg_config_from_pgrx_config major
    lift (ok (or_default found))

  unfoldable pub search_version : Option Bytes → Printed (Option Bytes)
  search_version none = lift (ok default_pg_config)
  search_version (some major) =
      search_major major (existing host (host.var_os (codes "PG" ++ (major ++ codes "_PG_CONFIG"))))

  unfoldable pub after_variables : Option Bytes → Printed (Option Bytes)
  after_variables (some path) = lift (ok (some path))
  after_variables none = search_version active_pg_major

  unfoldable pub find_pg_config : Printed (Option Bytes)
  find_pg_config = after_variables (first_variable config_variables)
