-- ===== src/SqlApi/Barriers.antt =====
-- sql_api.rs: the SQL functions that take or return a `pg_lsn`. SQL hands an LSN over as an `i64`
-- with its 64 bits.
use Prim.Native.Nat.{ℕ, ◌^◌, ◌≤◌, ◌<◌}
use mathlib.Core.Path.{◌≡◌, refl}
use pgl_validate.Base.{arith, Bool, Option, none, some, Result, ok, err, panic, if◌then◌else◌, ltb}
use pgl_validate.Base.Int.{ℤ, as_i64, u64_try_from}
use pgl_validate.Base.Text.{Bytes}
use pgl_validate.Transport.Session.{Trace, Libpq, M, ◌>>=◌, lift}
use pgl_validate.Transport.Target.{Target}
use pgl_validate.Transport.Requests.Fence.{
  Uuid, inject_barrier, wait_slot_confirm_lsn, fetch_slot_confirmed_flush_lsn,
  fetch_current_wal_lsn, observe_barrier, fetch_standby_replay_lag,
}

-- `unwrap_or_else(|err| pgrx::error!(..))`.
unfoldable pub raise : {A : Type 0} → Result A → Result A
raise (ok a) = ok a
raise (err e) = panic
raise panic = panic

unfoldable pub or_error : {A : Type 0} → M A → M A
or_error m t = let (r, t') = m t in (raise r, t')

-- `u64::try_from(lsn)` with its ERROR.
unfoldable pub lsn_argument : ℤ → Result ℕ
lsn_argument lsn = elim (u64_try_from lsn) [ none ↦ panic | some w ↦ ok w ]

module _ (lib : Libpq) where
  unfoldable pub remote_inject_barrier : Target → Uuid → M (Bytes × ℤ)
  remote_inject_barrier c token = or_error (inject_barrier lib c token) >>= λ injection.
      lift (ok (injection.token, as_i64 injection.barrier_end_lsn))

  unfoldable pub remote_wait_slot_confirm_lsn : Target → Bytes → ℤ → M ℤ
  remote_wait_slot_confirm_lsn c slot_name barrier_end_lsn =
      lift (lsn_argument barrier_end_lsn) >>= λ lsn.
      or_error (wait_slot_confirm_lsn lib c slot_name lsn) >>= λ confirmation.
      lift (ok (as_i64 confirmation.confirmed_flush_lsn))

  unfoldable pub remote_slot_confirmed_flush_lsn : Target → Bytes → M ℤ
  remote_slot_confirmed_flush_lsn c slot_name =
      or_error (fetch_slot_confirmed_flush_lsn lib c slot_name) >>= λ lsn. lift (ok (as_i64 lsn))

  unfoldable pub remote_current_wal_lsn : Target → M ℤ
  remote_current_wal_lsn c =
      or_error (fetch_current_wal_lsn lib c) >>= λ lsn. lift (ok (as_i64 lsn))

  unfoldable pub remote_observe_barrier : Target → Bytes → Bytes → ℤ → M (ℤ × Bool × Bool)
  remote_observe_barrier c origin_name token_text barrier_end_lsn =
      lift (lsn_argument barrier_end_lsn) >>= λ lsn.
      or_error (observe_barrier lib c origin_name token_text lsn) >>= λ observation. lift (
        ok (
          as_i64 observation.origin_progress_lsn,
          observation.token_visible,
          observation.converged,
        ))

  unfoldable pub remote_standby_replay_lag : Target → ℤ → M (Bool × ℤ × Option ℤ)
  remote_standby_replay_lag c target_lsn = lift (lsn_argument target_lsn) >>= λ lsn.
      or_error (fetch_standby_replay_lag lib c lsn) >>= λ lag.
      lift (ok (lag.in_recovery, as_i64 lag.replay_lsn, lag.lag_ms))

-- An LSN that one SQL function returned is taken by another one as the same number when it is below
-- 2 ^ 63, and is refused otherwise.
pub lsn_argument-as_i64 :
    (w : ℕ) → w < 2 ^ 64 → lsn_argument (as_i64 w) ≡ (if ltb w (2 ^ 63) then ok w else panic)
unfolding lsn_argument as_i64 u64_try_from
lsn_argument-as_i64 w h = ground arith

refused : (w : ℕ) → 2 ^ 63 ≤ w → w < 2 ^ 64 → lsn_argument (as_i64 w) ≡ panic
unfolding lsn_argument as_i64 u64_try_from
refused w low high = ground arith

-- The three SQL functions that take an LSN raise an ERROR for every LSN from 2 ^ 63 on, and make no
-- call of libpq.
pub high_lsn_refused :
    (lib : Libpq) (c : Target) (name token_text : Bytes) (w : ℕ) (t : Trace)
    → 2 ^ 63 ≤ w
    → w < 2 ^ 64
    → (remote_wait_slot_confirm_lsn lib c name (as_i64 w) t ≡ (panic, t))
      × (remote_observe_barrier lib c name token_text (as_i64 w) t ≡ (panic, t))
      × (remote_standby_replay_lag lib c (as_i64 w) t ≡ (panic, t))
unfolding remote_wait_slot_confirm_lsn remote_observe_barrier remote_standby_replay_lag
high_lsn_refused lib c name token_text w t low high =
    let e = refused w low high in (rw e refl, rw e refl, rw e refl)
