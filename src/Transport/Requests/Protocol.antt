-- ===== src/Transport/Requests/Protocol.antt =====
-- transport/libpq.rs: what the functions of the module do with connections and results.
use mathlib.Core.Path.{◌≡◌}
use pgl_validate.Base.{ℕ, List, [], ◌∷◌}
use pgl_validate.Base.Int.{ℤ}
use pgl_validate.Base.Text.{Bytes}
use pgl_validate.Transport.Session.{Trace, Libpq}
use pgl_validate.Transport.Session.Laws.{idle, replay, exec_command-Steady}
use pgl_validate.Transport.Target.{Target}
use pgl_validate.Transport.Requests.{execute_command_with_timeouts}
use pgl_validate.Transport.Requests.Fence.{
  Uuid, inject_barrier, fetch_current_wal_lsn, wait_slot_confirm_lsn,
  fetch_slot_confirmed_flush_lsn, fetch_logical_slot_lag, observe_barrier,
  fetch_standby_replay_status, fetch_standby_replay_lag,
}
use pgl_validate.Transport.Requests.Digest.{
  fetch_checksum, fetch_schema_signature, fetch_localized_rows, fetch_sequence_value,
}
use pgl_validate.Transport.Requests.Catalog.{
  fetch_subscription_status, fetch_pglogical_local_node, fetch_pglogical_subscriptions,
  ensure_remote_pglogical_barrier_subscription, fetch_native_subscription_status,
  fetch_pglogical_table_sync_status, fetch_native_table_sync_status, fetch_forwarding_subscriptions,
  fetch_conflict_history,
}
use pgl_validate.Transport.Requests.Release.{
  query-Steady, request-Closed, inject_barrier-Closed, fetch_checksum-Closed,
  wait_slot_confirm_lsn-Closed, fetch_conflict_history-Closed,
}

-- The functions of the module that open a connection, with their arguments.
pub data Request : Type 0 where
  do_execute_command_with_timeouts : Target → Bytes → Request
  do_inject_barrier : Target → Uuid → Request
  get_current_wal_lsn : Target → Request
  do_wait_slot_confirm_lsn : Target → Bytes → ℕ → Request
  get_slot_confirmed_flush_lsn : Target → Bytes → Request
  get_logical_slot_lag : Target → Bytes → Request
  do_observe_barrier : Target → Bytes → Bytes → ℕ → Request
  get_standby_replay_status : Target → Request
  get_standby_replay_lag : Target → ℕ → Request
  get_subscription_status : Target → Bytes → Request
  get_pglogical_local_node : Target → Request
  get_pglogical_subscriptions : Target → Request
  do_ensure_remote_pglogical_barrier_subscription : Target → Bytes → Request
  get_native_subscription_status : Target → Bytes → Request
  get_pglogical_table_sync_status : Target → Bytes → Bytes → Bytes → Request
  get_native_table_sync_status : Target → Bytes → Bytes → Bytes → Request
  get_forwarding_subscriptions : Target → Bytes → Request
  get_conflict_history : Target → Bytes → Bytes → Bytes → Bytes → ℤ → Request
  get_checksum : Target → Bytes → Request
  get_schema_signature : Target → Bytes → Request
  get_localized_rows : Target → Bytes → Request
  get_sequence_value : Target → Bytes → Request

module _ (lib : Libpq) where
  -- The calls made when the request is over.
  unfoldable pub perform : Request → Trace → Trace
  perform (do_execute_command_with_timeouts c sql) t = (execute_command_with_timeouts lib c sql t).1
  perform (do_inject_barrier c token) t = (inject_barrier lib c token t).1
  perform (get_current_wal_lsn c) t = (fetch_current_wal_lsn lib c t).1
  perform (do_wait_slot_confirm_lsn c slot_name lsn) t =
      (wait_slot_confirm_lsn lib c slot_name lsn t).1
  perform (get_slot_confirmed_flush_lsn c slot_name) t =
      (fetch_slot_confirmed_flush_lsn lib c slot_name t).1
  perform (get_logical_slot_lag c slot_name) t = (fetch_logical_slot_lag lib c slot_name t).1
  perform (do_observe_barrier c origin_name token_text lsn) t =
      (observe_barrier lib c origin_name token_text lsn t).1
  perform (get_standby_replay_status c) t = (fetch_standby_replay_status lib c t).1
  perform (get_standby_replay_lag c lsn) t = (fetch_standby_replay_lag lib c lsn t).1
  perform (get_subscription_status c subscription_name) t =
      (fetch_subscription_status lib c subscription_name t).1
  perform (get_pglogical_local_node c) t = (fetch_pglogical_local_node lib c t).1
  perform (get_pglogical_subscriptions c) t = (fetch_pglogical_subscriptions lib c t).1
  perform (do_ensure_remote_pglogical_barrier_subscription c subscription_name) t =
      (ensure_remote_pglogical_barrier_subscription lib c subscription_name t).1
  perform (get_native_subscription_status c subscription_name) t =
      (fetch_native_subscription_status lib c subscription_name t).1
  perform (get_pglogical_table_sync_status c subscription_name schema_name table_name) t =
      (fetch_pglogical_table_sync_status lib c subscription_name schema_name table_name t).1
  perform (get_native_table_sync_status c subscription_name schema_name table_name) t =
      (fetch_native_table_sync_status lib c subscription_name schema_name table_name t).1
  perform (get_forwarding_subscriptions c provider_node) t =
      (fetch_forwarding_subscriptions lib c provider_node t).1
  perform (get_conflict_history c subscription_name schema_name table_name since max_rows) t =
      (fetch_conflict_history lib c subscription_name schema_name table_name since max_rows t).1
  perform (get_checksum c sql) t = (fetch_checksum lib c sql t).1
  perform (get_schema_signature c sql) t = (fetch_schema_signature lib c sql t).1
  perform (get_localized_rows c sql) t = (fetch_localized_rows lib c sql t).1
  perform (get_sequence_value c sql) t = (fetch_sequence_value lib c sql t).1

  -- Requests one after the other, the first at the head of the list.
  unfoldable pub perform_all : List Request → Trace → Trace
  perform_all [] t = t
  perform_all (r ∷ rs) t = perform_all rs (perform r t)

  perform-idle : (r : Request) (t : Trace) → replay t ≡ idle → replay (perform r t) ≡ idle
  unfolding perform fetch_current_wal_lsn fetch_slot_confirmed_flush_lsn fetch_logical_slot_lag
      observe_barrier fetch_standby_replay_status fetch_standby_replay_lag fetch_subscription_status
      fetch_pglogical_local_node fetch_pglogical_subscriptions
      ensure_remote_pglogical_barrier_subscription fetch_native_subscription_status
      fetch_pglogical_table_sync_status fetch_native_table_sync_status
      fetch_forwarding_subscriptions fetch_schema_signature fetch_localized_rows
      fetch_sequence_value execute_command_with_timeouts
  perform-idle (do_execute_command_with_timeouts c sql) t h =
      request-Closed lib c _ (exec_command-Steady lib sql) t h
  perform-idle (do_inject_barrier c token) t h = inject_barrier-Closed lib c token t h
  perform-idle (get_current_wal_lsn c) t h = request-Closed lib c _ (query-Steady lib _ _) t h
  perform-idle (do_wait_slot_confirm_lsn c slot_name lsn) t h =
      wait_slot_confirm_lsn-Closed lib c slot_name lsn t h
  perform-idle (get_slot_confirmed_flush_lsn c slot_name) t h =
      request-Closed lib c _ (query-Steady lib _ _) t h
  perform-idle (get_logical_slot_lag c slot_name) t h =
      request-Closed lib c _ (query-Steady lib _ _) t h
  perform-idle (do_observe_barrier c origin_name token_text lsn) t h =
      request-Closed lib c _ (query-Steady lib _ _) t h
  perform-idle (get_standby_replay_status c) t h = request-Closed lib c _ (query-Steady lib _ _) t h
  perform-idle (get_standby_replay_lag c lsn) t h =
      request-Closed lib c _ (query-Steady lib _ _) t h
  perform-idle (get_subscription_status c subscription_name) t h =
      request-Closed lib c _ (query-Steady lib _ _) t h
  perform-idle (get_pglogical_local_node c) t h = request-Closed lib c _ (query-Steady lib _ _) t h
  perform-idle (get_pglogical_subscriptions c) t h =
      request-Closed lib c _ (query-Steady lib _ _) t h
  perform-idle (do_ensure_remote_pglogical_barrier_subscription c subscription_name) t h =
      request-Closed lib c _ (query-Steady lib _ _) t h
  perform-idle (get_native_subscription_status c subscription_name) t h =
      request-Closed lib c _ (query-Steady lib _ _) t h
  perform-idle (get_pglogical_table_sync_status c subscription_name schema_name table_name) t h =
      request-Closed lib c _ (query-Steady lib _ _) t h
  perform-idle (get_native_table_sync_status c subscription_name schema_name table_name) t h =
      request-Closed lib c _ (query-Steady lib _ _) t h
  perform-idle (get_forwarding_subscriptions c provider_node) t h =
      request-Closed lib c _ (query-Steady lib _ _) t h
  perform-idle (get_conflict_history c subscription_name schema_name table_name since max_rows) t
        h =
      fetch_conflict_history-Closed lib c subscription_name schema_name table_name since max_rows t
        h
  perform-idle (get_checksum c sql) t h = fetch_checksum-Closed lib c sql t h
  perform-idle (get_schema_signature c sql) t h = request-Closed lib c _ (query-Steady lib _ _) t h
  perform-idle (get_localized_rows c sql) t h = request-Closed lib c _ (query-Steady lib _ _) t h
  perform-idle (get_sequence_value c sql) t h = request-Closed lib c _ (query-Steady lib _ _) t h

  -- Whatever requests are made one after the other, and whatever libpq answers to each of their
  -- calls, a process that starts without a connection is again without one, nothing was used after
  -- its release, and every connection and every result was released exactly once.
  pub perform_all-idle :
      (rs : List Request) (t : Trace) → replay t ≡ idle → replay (perform_all rs t) ≡ idle
  unfolding perform_all
  perform_all-idle [] t h = h
  perform_all-idle (r ∷ rs) t h = perform_all-idle rs (perform r t) (perform-idle r t h)
