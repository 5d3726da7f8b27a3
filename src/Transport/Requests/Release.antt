-- ===== src/Transport/Requests/Release.antt =====
-- transport/libpq.rs: each function of several statements releases what it gets.
use pgl_validate.Base.{
  ℕ, inl, inr, Bool-cases, Bool, true, false, List, [], Result, ok, err, panic, if◌then◌else◌,
}
use pgl_validate.Base.Int.{ℤ, is_positive}
use pgl_validate.Base.Text.{Bytes, codes}
use pgl_validate.Transport.Literal.{sql_literal}
use pgl_validate.Transport.Lsn.{format_lsn}
use pgl_validate.Transport.Dsn.{format_i32}
use pgl_validate.Transport.QueryResult.{PgResult, require_status, tuples_ok}
use pgl_validate.Transport.Session.{Libpq, M, ◌>>=◌, ◌>>◌, lift, with_result, exec_command}
use pgl_validate.Transport.Session.Laws.{
  Steady, Closed, >>=-Steady, lift->>=-Steady, with_result-Steady, exec_command-Steady,
  session-Closed,
}
use pgl_validate.Transport.Target.{Target, session}
use pgl_validate.Transport.Replies.Fence.{single_lsn}
use pgl_validate.Transport.Replies.Digest.{RemoteChecksum, parse_checksum_result}
use pgl_validate.Transport.Replies.Catalog.{ConflictHistoryRow, parse_conflict_history}
use pgl_validate.Transport.Requests.{query, or_rollback, rollback_on_error}
use pgl_validate.Transport.Requests.Fence.{
  Uuid, BarrierInjection, SlotConfirmation, insert_barrier_sql, last_commit_lsn_sql, wait_slot_sql,
  slot_flush_sql, inject_barrier, wait_slot_confirm_lsn,
}
use pgl_validate.Transport.Requests.Digest.{
  begin_read_only_sql, checksum_wrapper_sql, fetch_checksum,
}
use pgl_validate.Transport.Requests.Catalog.{
  conflict_history_sql, history_available_sql, read_available, fetch_conflict_history,
}

module _ (lib : Libpq) where
  pub query-Steady :
      {A : Type 0} (sql : Bytes) (read : PgResult → Result A) → Steady (query lib sql read)
  unfolding query
  query-Steady sql read = with_result-Steady lib sql (λ r. lift (read r)) (λ r t n h. h)

  rollback_on_error-Steady : {A : Type 0} (r : Result A) → Steady (rollback_on_error lib r)
  unfolding rollback_on_error
  rollback_on_error-Steady (ok a) t n h = h
  rollback_on_error-Steady (err e) t n h = exec_command-Steady lib (codes "ROLLBACK") t n h
  rollback_on_error-Steady panic t n h = h

  or_rollback-Steady : {A : Type 0} (m : M A) → Steady m → Steady (or_rollback lib m)
  unfolding or_rollback
  or_rollback-Steady m hm t n h = rollback_on_error-Steady (m t).0 (m t).1 n (hm t n h)

  pub request-Closed :
      {A : Type 0} (c : Target) (body : M A) → Steady body → Closed (session lib c body)
  unfolding session
  request-Closed c body hb =
      session-Closed lib c.dsn c.connect_timeout_seconds c.statement_timeout_ms c.lock_timeout_ms
        body hb

  pub inject_barrier-Closed : (c : Target) (token : Uuid) → Closed (inject_barrier lib c token)
  unfolding inject_barrier
  inject_barrier-Closed c token =
      let result : ℕ → M BarrierInjection =
        λ lsn. lift (ok (record { token = token.as_bytes; barrier_end_lsn = lsn })) in
      let read : M BarrierInjection = query lib last_commit_lsn_sql single_lsn >>= result in
      let commit = or_rollback lib (exec_command lib (codes "COMMIT")) in
      let insert = or_rollback lib (exec_command lib (insert_barrier_sql token.to_string)) in
      let read-Steady : Steady read =
        >>=-Steady (query lib last_commit_lsn_sql single_lsn) result (query-Steady _ _)
          (λ lsn t n h. h) in
      let commit-Steady : Steady (commit >> read) =
        >>=-Steady commit (λ u. read) (or_rollback-Steady _ (exec_command-Steady lib _))
          (λ u. read-Steady) in
      let insert-Steady : Steady (insert >> (commit >> read)) =
        >>=-Steady insert (λ u. commit >> read) (or_rollback-Steady _ (exec_command-Steady lib _))
          (λ u. commit-Steady) in
      request-Closed c _ (
        >>=-Steady (exec_command lib (codes "BEGIN")) (λ u. insert >> (commit >> read))
          (exec_command-Steady lib _) (λ u. insert-Steady))

  pub fetch_checksum-Closed : (c : Target) (sql : Bytes) → Closed (fetch_checksum lib c sql)
  unfolding fetch_checksum
  fetch_checksum-Closed c sql =
      let commit = or_rollback lib (exec_command lib (codes "COMMIT")) in
      let read = or_rollback lib (query lib (checksum_wrapper_sql sql) parse_checksum_result) in
      let last : RemoteChecksum → M RemoteChecksum = λ checksum. commit >> lift (ok checksum) in
      let last-Steady : (x : RemoteChecksum) → Steady (last x) = λ x.
        >>=-Steady commit (λ u. lift (ok x)) (or_rollback-Steady _ (exec_command-Steady lib _))
          (λ u t n h. h) in
      let read-Steady : Steady (read >>= last) =
        >>=-Steady read last (or_rollback-Steady _ (query-Steady _ _)) last-Steady in
      request-Closed c _ (
        >>=-Steady (exec_command lib begin_read_only_sql) (λ u. read >>= last)
          (exec_command-Steady lib _) (λ u. read-Steady))

  pub wait_slot_confirm_lsn-Closed :
      (c : Target) (slot_name : Bytes) (lsn : ℕ)
      → Closed (wait_slot_confirm_lsn lib c slot_name lsn)
  unfolding wait_slot_confirm_lsn
  wait_slot_confirm_lsn-Closed c slot_name lsn =
      let wait =
        query lib (wait_slot_sql (sql_literal slot_name) (format_lsn lsn))
          (λ r. require_status r tuples_ok) in
      let result : ℕ → M SlotConfirmation =
        λ flushed. lift (ok (record { confirmed_flush_lsn = flushed })) in
      let read = query lib (slot_flush_sql (sql_literal slot_name)) single_lsn in
      let read-Steady : Steady (read >>= result) =
        >>=-Steady read result (query-Steady _ _) (λ x t n h. h) in
      request-Closed c _
        (>>=-Steady wait (λ u. read >>= result) (query-Steady _ _) (λ u. read-Steady))

  conflict_rows-Steady :
      (rows : M (List ConflictHistoryRow))
      → Steady rows
      → (available : Bool) → Steady (if available then rows else lift (ok []))
  conflict_rows-Steady rows h true t n held = h t n held
  conflict_rows-Steady rows h false t n held = held

  pub fetch_conflict_history-Closed :
      (c : Target) (subscription_name schema_name table_name since : Bytes) (max_rows : ℤ)
      → Closed
          (fetch_conflict_history lib c subscription_name schema_name table_name since max_rows)
  unfolding fetch_conflict_history
  fetch_conflict_history-Closed c subscription_name schema_name table_name since max_rows t h =
      let rows =
        query lib
          (conflict_history_sql (sql_literal subscription_name) (sql_literal schema_name)
            (sql_literal table_name) (sql_literal since) (format_i32 max_rows))
          parse_conflict_history in
      let choose : Bool → M (List ConflictHistoryRow) =
        λ available. if available then rows else lift (ok []) in
      let body : PgResult → M (List ConflictHistoryRow) = λ r. lift (read_available r) >>= choose in
      let body-Steady : Steady (with_result lib history_available_sql body) =
        with_result-Steady lib history_available_sql body (λ r.
          lift->>=-Steady (read_available r) choose
            (conflict_rows-Steady rows (query-Steady _ _))) in
      elim (Bool-cases (is_positive max_rows)) [
        | inl good ↦
            rw good (request-Closed c (with_result lib history_available_sql body) body-Steady t h)
        | inr bad ↦ rw bad h
      ]
