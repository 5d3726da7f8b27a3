-- ===== src/Settings.antt =====
-- lib.rs: the settings, what the extension reads of them, and its start.
pub mod Kinds
pub mod Digests
pub mod Filters
pub mod Chunks
pub mod Fences
pub mod Registry
pub mod Start
pub mod Tests
use pgl_validate.Base.{
  Bool, true, false, List, [], ◌∷◌, Option, none, some, Result, ok, err, panic, if◌then◌else◌,
}
use pgl_validate.Base.Int.{ℤ, pos}
use pgl_validate.Base.Text.{Bytes, codes, is_empty, trim}
use pgl_validate.Base.Utf8.{is_utf8}
use pgl_validate.Digest.Algorithm.{HashAlgorithm}
use pgl_validate.Digest.Algorithm
use pgl_validate.Worker.{History, unwrap_or}
use pgl_validate.Worker.Main.{register_scheduler_worker}
use pgl_validate.Settings.Kinds.{Guc}
use pgl_validate.Settings.Registry.{settings}
use pgl_validate.SqlApi.Barriers.{raise}

-- The current values of the settings that the Rust code reads.
pub record Values : Type 0 where
  pub hash_algorithm : Option Bytes
  pub signed_zero_distinct : Bool
  pub nan_distinct : Bool
  pub scheduler_database : Option Bytes
  pub scheduler_interval : ℤ

unfoldable pub current_hash_algorithm : Values → Result HashAlgorithm
current_hash_algorithm v =
    let name = unwrap_or v.hash_algorithm (codes "blake3_256") in
    if is_utf8 name then raise (Algorithm.parse name) else panic

unfoldable pub float_signed_zero_distinct : Values → Bool
float_signed_zero_distinct v = v.signed_zero_distinct

unfoldable pub float_nan_distinct : Values → Bool
float_nan_distinct v = v.nan_distinct

unfoldable pub scheduler_interval_ms : Values → ℤ
scheduler_interval_ms v = v.scheduler_interval

unfoldable pub database_name : Bytes → Result (Option Bytes)
database_name database =
    if is_utf8 database
    then ok (if is_empty (trim database) then none else some (trim database))
    else panic

unfoldable pub scheduler_database_name : Values → Result (Option Bytes)
scheduler_database_name v = elim v.scheduler_database [ none ↦ ok none | some d ↦ database_name d ]

-- What is registered at the start, with `preloading` for
-- `process_shared_preload_libraries_in_progress`: the settings, and the scheduler.
unfoldable pub start_scheduler : Result (Option Bytes) → Result History
start_scheduler (ok database) = ok (register_scheduler_worker database [])
start_scheduler (err e) = err e
start_scheduler panic = panic

unfoldable pub pg_init : Values → Bool → List Guc × Result History
pg_init v preloading =
    (settings, if preloading then start_scheduler (scheduler_database_name v) else ok [])
