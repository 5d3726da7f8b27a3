-- ===== src/Build.antt =====
-- build.rs: the search for `pg_config`, and the lines for the linker. A computation collects the
-- lines that it prints, the latest first.
pub mod Config
pub mod Search
pub mod Usable
pub mod Link
pub mod Tests
use pgl_validate.Base.{
  Bool, ◌&&◌, List, [], ◌∷◌, ◌++◌, Option, none, some, Result, ok, panic, if◌then◌else◌,
}
use pgl_validate.Base.Text.{Bytes, codes, bytes_eq, trim}
use pgl_validate.Base.Utf8.{is_utf8}
use pgl_validate.Base.Steps.{Steps, ◌>>=◌, ◌>>◌, lift, log}
use pgl_validate.Build.Config.{Host, Output, Printed, or_empty}
use pgl_validate.Build.Search.{active_pg_major, command_output, find_pg_config}

-- `unwrap_or_else(|| panic!(..))`.
unfoldable pub or_panic : {A : Type 0} → Option A → Result A
or_panic none = panic
or_panic (some a) = ok a

-- `println!("cargo:rerun-if-env-changed=PG{major}_PG_CONFIG")`.
unfoldable pub watch_major : Option Bytes → Printed (Unit {0})
watch_major none = lift (ok tt)
watch_major (some major) =
    log (codes "cargo:rerun-if-env-changed=PG" ++ (major ++ codes "_PG_CONFIG"))

module _ (host : Host) where
  unfoldable pub pg_config_output : Bytes → Bytes → Result Bytes
  pg_config_output pg_config arg = elim (command_output host pg_config arg) [
    | none ↦ panic
    | some text ↦ ok (trim text)
  ]

  unfoldable pub link_line : Bytes
  link_line =
      if bytes_eq (or_empty (host.var (codes "CARGO_CFG_TARGET_OS"))) (codes "windows")
        && bytes_eq (or_empty (host.var (codes "CARGO_CFG_TARGET_ENV"))) (codes "msvc")
      then codes "cargo:rustc-link-lib=dylib=libpq"
      else codes "cargo:rustc-link-lib=pq"

  unfoldable pub main : Printed (Unit {0})
  main = do
    log (codes "cargo:rerun-if-env-changed=PGL_VALIDATE_PG_CONFIG")
    log (codes "cargo:rerun-if-env-changed=PGRX_PG_CONFIG_PATH")
    log (codes "cargo:rerun-if-env-changed=PG_CONFIG")
    watch_major (active_pg_major host)
    found ← find_pg_config host
    pg_config ← lift (or_panic found)
    libdir ← lift (pg_config_output pg_config (codes "--libdir"))
    log (codes "cargo:rustc-link-search=native=" ++ libdir)
    log link_line
