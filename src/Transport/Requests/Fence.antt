-- ===== src/Transport/Requests/Fence.antt =====
-- transport/libpq.rs: barriers, slots and standbys.
use pgl_validate.Base.{ℕ, ◌++◌, ok}
use pgl_validate.Base.Text.{Bytes, codes}
use pgl_validate.Transport.Lsn.{format_lsn}
use pgl_validate.Transport.Literal.{sql_literal}
use pgl_validate.Transport.QueryResult.{require_status, tuples_ok}
use pgl_validate.Transport.Session.{M, Libpq, ◌>>=◌, ◌>>◌, lift, exec_command}
use pgl_validate.Transport.Target.{Target, session}
use pgl_validate.Transport.Requests.{query, or_rollback}
use pgl_validate.Transport.Replies.Fence.{
  BarrierObservation, LogicalSlotLag, StandbyReplayStatus, StandbyReplayLag, single_lsn,
  parse_observation, parse_slot_lag, parse_standby_status, parse_standby_lag,
}

-- `uuid::Uuid`, as far as it is read.
pub record Uuid : Type 0 where
  pub as_bytes : Bytes
  pub to_string : Bytes

pub record BarrierInjection : Type 0 where
  pub token : Bytes
  pub barrier_end_lsn : ℕ

pub record SlotConfirmation : Type 0 where
  pub confirmed_flush_lsn : ℕ

unfoldable pub insert_barrier_sql : Bytes → Bytes
insert_barrier_sql token_sql =
    codes "INSERT INTO pgl_validate.fence_barrier(token) VALUES ('"
    ++ (token_sql ++ codes "'::uuid)")

unfoldable pub last_commit_lsn_sql : Bytes
last_commit_lsn_sql = codes "SELECT pgl_validate.last_commit_lsn()::text"

unfoldable pub current_wal_lsn_sql : Bytes
current_wal_lsn_sql = codes "SELECT pg_current_wal_lsn()::text"

unfoldable pub wait_slot_sql : Bytes → Bytes → Bytes
wait_slot_sql slot arg =
    codes "SELECT pglogical.wait_slot_confirm_lsn("
    ++ (slot ++ (codes "::name, '" ++ (arg ++ codes "'::pg_lsn)")))

unfoldable pub slot_flush_sql : Bytes → Bytes
slot_flush_sql slot =
    codes "SELECT confirmed_flush_lsn::text FROM pg_replication_slots WHERE slot_name = " ++ slot

unfoldable pub slot_flush_or_zero_sql : Bytes → Bytes
slot_flush_or_zero_sql slot =
    codes "SELECT COALESCE(confirmed_flush_lsn, '0/0'::pg_lsn)::text FROM "
    ++ (codes "pg_replication_slots WHERE slot_name = " ++ slot)

unfoldable pub slot_lag_sql : Bytes → Bytes
slot_lag_sql slot =
    codes "WITH slot AS ( SELECT s.active_pid, COALESCE(s.confirmed_flush_lsn, "
    ++ (codes "'0/0'::pg_lsn) AS confirmed_flush_lsn, pg_current_wal_lsn() AS current_lsn "
        ++ (codes "FROM pg_replication_slots s WHERE s.slot_name = "
            ++ (slot
                ++ (codes
                      " ), observed AS ( SELECT (slot.active_pid IS NOT NULL) AS active, GREATEST( "
                    ++ (codes "COALESCE(sr.write_lag, '0'::interval), COALESCE(sr.flush_lag, "
                        ++ (codes
                              "'0'::interval), COALESCE(sr.replay_lag, '0'::interval) ) AS lag_interval, "
                            ++ (codes
                                  "GREATEST( pg_wal_lsn_diff(slot.current_lsn, slot.confirmed_flush_lsn), "
                                ++ (codes
                                      "0::numeric ) AS lag_bytes FROM slot LEFT JOIN pg_stat_replication sr ON "
                                    ++ (codes
                                          "sr.pid = slot.active_pid ) SELECT active::text, ceil(extract(epoch FROM "
                                        ++ codes
                                            "lag_interval) * 1000)::bigint::text, lag_bytes::bigint::text FROM observed")))))))))

unfoldable pub observe_barrier_sql : Bytes → Bytes → Bytes → Bytes
observe_barrier_sql origin token barrier_lsn =
    codes "WITH observed AS ( SELECT COALESCE( (SELECT "
    ++ (codes "pg_replication_origin_progress(roname, true) FROM pg_replication_origin "
        ++ (codes "WHERE roname = "
            ++ (origin
                ++ (codes "), '0/0'::pg_lsn ) AS origin_progress_lsn, EXISTS ( SELECT 1 FROM "
                    ++ (codes "pgl_validate.fence_barrier WHERE token = "
                        ++ (token
                            ++ (codes
                                  "::uuid ) AS token_visible ) SELECT origin_progress_lsn::text, "
                                ++ (codes "token_visible::text, (origin_progress_lsn >= '"
                                    ++ (barrier_lsn
                                        ++ codes
                                            "'::pg_lsn AND token_visible)::text FROM observed")))))))))

unfoldable pub standby_status_sql : Bytes
standby_status_sql =
    codes "SELECT current_setting('server_version_num')::int::text, "
    ++ (codes "pg_is_in_recovery()::text, COALESCE(pg_last_wal_replay_lsn(), "
        ++ (codes "'0/0'::pg_lsn)::text, CASE WHEN pg_is_in_recovery() THEN "
            ++ codes "pg_is_wal_replay_paused() ELSE false END::text"))

unfoldable pub standby_lag_sql : Bytes → Bytes
standby_lag_sql target_lsn =
    codes "WITH observed AS ( SELECT pg_is_in_recovery() AS in_recovery, "
    ++ (codes "COALESCE(pg_last_wal_replay_lsn(), '0/0'::pg_lsn) AS replay_lsn, "
        ++ (codes "pg_last_xact_replay_timestamp() AS replay_timestamp ) SELECT "
            ++ (codes "in_recovery::text, replay_lsn::text, CASE WHEN NOT in_recovery THEN "
                ++ (codes "'0'::text WHEN replay_lsn >= '"
                    ++ (target_lsn
                        ++ (codes
                              "'::pg_lsn THEN '0'::text WHEN replay_timestamp IS NULL THEN NULL ELSE "
                            ++ (codes
                                  "ceil(extract(epoch FROM (clock_timestamp() - replay_timestamp)) * "
                                ++ codes "1000)::bigint::text END AS lag_ms FROM observed")))))))

module _ (lib : Libpq) where
  -- The token is a fresh random UUID.
  unfoldable pub inject_barrier : Target → Uuid → M BarrierInjection
  inject_barrier c token = session lib c do
    exec_command lib (codes "BEGIN")
    or_rollback lib (exec_command lib (insert_barrier_sql token.to_string))
    or_rollback lib (exec_command lib (codes "COMMIT"))
    lsn ← query lib last_commit_lsn_sql single_lsn
    lift (ok (record { token = token.as_bytes; barrier_end_lsn = lsn }))

  unfoldable pub fetch_current_wal_lsn : Target → M ℕ
  fetch_current_wal_lsn c = session lib c (query lib current_wal_lsn_sql single_lsn)

  unfoldable pub wait_slot_confirm_lsn : Target → Bytes → ℕ → M SlotConfirmation
  wait_slot_confirm_lsn c slot_name barrier_end_lsn = session lib c do
    query lib (wait_slot_sql (sql_literal slot_name) (format_lsn barrier_end_lsn))
        (λ r. require_status r tuples_ok)
    lsn ← query lib (slot_flush_sql (sql_literal slot_name)) single_lsn
    lift (ok (record { confirmed_flush_lsn = lsn }))

  unfoldable pub fetch_slot_confirmed_flush_lsn : Target → Bytes → M ℕ
  fetch_slot_confirmed_flush_lsn c slot_name =
      session lib c (query lib (slot_flush_or_zero_sql (sql_literal slot_name)) single_lsn)

  unfoldable pub fetch_logical_slot_lag : Target → Bytes → M LogicalSlotLag
  fetch_logical_slot_lag c slot_name =
      session lib c (query lib (slot_lag_sql (sql_literal slot_name)) parse_slot_lag)

  -- `token_text` is the text of the UUID with the token's bytes.
  unfoldable pub observe_barrier : Target → Bytes → Bytes → ℕ → M BarrierObservation
  observe_barrier c origin_name token_text barrier_end_lsn = session lib c (
      query lib
        (observe_barrier_sql (sql_literal origin_name) (sql_literal token_text)
          (format_lsn barrier_end_lsn))
        parse_observation)

  unfoldable pub fetch_standby_replay_status : Target → M StandbyReplayStatus
  fetch_standby_replay_status c = session lib c (query lib standby_status_sql parse_standby_status)

  unfoldable pub fetch_standby_replay_lag : Target → ℕ → M StandbyReplayLag
  fetch_standby_replay_lag c target_lsn =
      session lib c (query lib (standby_lag_sql (format_lsn target_lsn)) parse_standby_lag)
