-- ===== src/Transport/Replies/Fence.antt =====
-- transport/libpq.rs: observations of barriers, slots and standbys.
use pgl_validate.Base.{ℕ, Bool, Option, Result, ok, ◌>>=◌, ◌>>◌}
use pgl_validate.Base.Int.{ℤ}
use pgl_validate.Transport.Lsn.{parse_lsn}
use pgl_validate.Transport.Codec.{parse_bool}
use pgl_validate.Transport.QueryResult.{
  PgResult, require_status, tuples_ok, one_row, single_value, value, value_opt, as_i32, as_i64_text,
}
use pgl_validate.Transport.Replies.{parse_opt}

pub record BarrierObservation : Type 0 where
  pub origin_progress_lsn : ℕ
  pub token_visible : Bool
  pub converged : Bool

pub record LogicalSlotLag : Type 0 where
  pub active : Bool
  pub lag_ms : ℤ
  pub lag_bytes : ℤ

pub record StandbyReplayStatus : Type 0 where
  pub pg_version : ℤ
  pub in_recovery : Bool
  pub replay_lsn : ℕ
  pub replay_paused : Bool

pub record StandbyReplayLag : Type 0 where
  pub in_recovery : Bool
  pub replay_lsn : ℕ
  pub lag_ms : Option ℤ

-- `parse_lsn(&result.single_value()?)`.
unfoldable pub single_lsn : PgResult → Result ℕ
single_lsn r = single_value r >>= parse_lsn

unfoldable pub parse_observation : PgResult → Result BarrierObservation
parse_observation r = do
  require_status r tuples_ok
  one_row r 3
  progress ← value r 0 0 >>= parse_lsn
  visible ← value r 0 1 >>= parse_bool
  converged ← value r 0 2 >>= parse_bool
  ok (record { origin_progress_lsn = progress; token_visible = visible; converged = converged })

unfoldable pub parse_slot_lag : PgResult → Result LogicalSlotLag
parse_slot_lag r = do
  require_status r tuples_ok
  one_row r 3
  active ← value r 0 0 >>= parse_bool
  ms ← value r 0 1 >>= as_i64_text
  bytes ← value r 0 2 >>= as_i64_text
  ok (record { active = active; lag_ms = ms; lag_bytes = bytes })

unfoldable pub parse_standby_status : PgResult → Result StandbyReplayStatus
parse_standby_status r = do
  require_status r tuples_ok
  one_row r 4
  version ← value r 0 0 >>= as_i32
  recovery ← value r 0 1 >>= parse_bool
  lsn ← value r 0 2 >>= parse_lsn
  paused ← value r 0 3 >>= parse_bool
  ok (record {
    pg_version = version;
    in_recovery = recovery;
    replay_lsn = lsn;
    replay_paused = paused;
  })

unfoldable pub parse_standby_lag : PgResult → Result StandbyReplayLag
parse_standby_lag r = do
  require_status r tuples_ok
  one_row r 3
  recovery ← value r 0 0 >>= parse_bool
  lsn ← value r 0 1 >>= parse_lsn
  ms ← value_opt r 0 2 >>= parse_opt as_i64_text
  ok (record { in_recovery = recovery; replay_lsn = lsn; lag_ms = ms })
