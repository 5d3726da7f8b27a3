-- ===== src/SqlApi/Remote.antt =====
-- sql_api.rs: the SQL functions on checksums, signatures, rows, sequences and standbys of a remote
-- server, and those that ask the local server. A row of a result table is a tuple.
use pgl_validate.Base.{
  ℕ, Bool, not, List, map, Option, none, some, Result, ok, err, panic, if◌then◌else◌,
}
use pgl_validate.Base.Int.{ℤ, as_i64}
use pgl_validate.Base.Text.{Bytes, contains_char}
use pgl_validate.Transport.Session.{Libpq, M, ◌>>=◌, lift}
use pgl_validate.Transport.Target.{Target}
use pgl_validate.Transport.Replies.Digest.{RemoteChecksum, LocalizedRowDigest}
use pgl_validate.Transport.Requests.{execute_command_with_timeouts}
use pgl_validate.Transport.Requests.Digest.{
  fetch_checksum, fetch_schema_signature, fetch_localized_rows, fetch_sequence_value,
}
use pgl_validate.Transport.Requests.Fence.{fetch_logical_slot_lag, fetch_standby_replay_status}
use pgl_validate.Transport.FanOut.{RemoteChecksumTask, RemoteChecksumBatchResult}
use pgl_validate.Transport.FanOut.Wait.{WaitEvents}
use pgl_validate.Transport.FanOut.Batch.{Batch, Outcome, fetch_checksums_batch}
use pgl_validate.SqlApi.Barriers.{or_error}

-- `XactLastCommitEnd` of the backend is a parameter.
unfoldable pub last_commit_lsn : ℕ → ℤ
last_commit_lsn xact_last_commit_end = as_i64 xact_last_commit_end

-- `stringToNode`, with `none` for NULL, and `contain_mutable_functions` are parameters.
unfoldable pub row_filter_tree_is_immutable :
    {Node : Type 0} → (Bytes → Option Node) → (Node → Bool) → Bytes → Result Bool
row_filter_tree_is_immutable string_to_node contain_mutable_functions filter_tree =
    if contains_char 0 filter_tree then panic else elim (string_to_node filter_tree) [
      | none ↦ panic
      | some node ↦ ok (not (contain_mutable_functions node))
    ]

abbrev pub ChecksumRow : Type 0
ChecksumRow = ℤ × ℤ × Bytes × Option Bytes

unfoldable pub checksum_row : RemoteChecksum → ChecksumRow
checksum_row c = (c.pg_version, c.n_rows, c.lthash, c.set_hash)

unfoldable pub batch_row : RemoteChecksumBatchResult → ℤ × ChecksumRow
unfolding checksum_row
batch_row r = (r.task_id, checksum_row r.checksum)

unfoldable pub localized_row : LocalizedRowDigest → Bytes × Bytes × Bytes × Bytes
localized_row r = (r.key_text, r.key_bytes, r.row_digest, r.row_json)

-- The rows of a batch, after an ERROR for an error.
unfoldable pub batch_rows :
    Outcome (List RemoteChecksumBatchResult) → Outcome (List (ℤ × ChecksumRow))
batch_rows none = none
batch_rows (some (ok results, b)) = some (ok (map batch_row results), b)
batch_rows (some (err e, b)) = some (panic, b)
batch_rows (some (panic, b)) = some (panic, b)

-- A batch that ran.
unfoldable pub with_batch :
    Outcome (List (ℤ × ChecksumRow)) → Option (Result (List (ℤ × ChecksumRow)) × Option Batch)
with_batch none = none
with_batch (some (r, b)) = some (r, some b)

-- The tasks, or an ERROR without a batch.
unfoldable pub run_decoded :
    (ℕ → Libpq)
    → WaitEvents
    → ℕ
    → ℕ
    → ℤ
    → Option (List RemoteChecksumTask)
    → Option (Result (List (ℤ × ChecksumRow)) × Option Batch)
run_decoded lib events fuel rounds max_parallel none = some (panic, none)
run_decoded lib events fuel rounds max_parallel (some tasks) =
    with_batch (batch_rows (fetch_checksums_batch lib events fuel rounds tasks max_parallel))

-- `serde_json::from_value` to a list of tasks is the parameter `decode`, with `none` for an error.
unfoldable pub remote_checksum_batch :
    {Json : Type 0}
    → (Json → Option (List RemoteChecksumTask))
    → (ℕ → Libpq)
    → WaitEvents
    → ℕ
    → ℕ
    → Json
    → ℤ
    → Option (Result (List (ℤ × ChecksumRow)) × Option Batch)
remote_checksum_batch decode lib events fuel rounds tasks max_parallel =
    run_decoded lib events fuel rounds max_parallel (decode tasks)

module _ (lib : Libpq) where
  unfoldable pub remote_checksum : Target → Bytes → M ChecksumRow
  remote_checksum c checksum_sql =
      or_error (fetch_checksum lib c checksum_sql) >>= λ checksum. lift (ok (checksum_row checksum))

  unfoldable pub remote_schema_signature : Target → Bytes → M (ℤ × Bytes)
  remote_schema_signature c signature_sql =
      or_error (fetch_schema_signature lib c signature_sql) >>= λ signature.
      lift (ok (signature.pg_version, signature.signature))

  unfoldable pub remote_localize_rows : Target → Bytes → M (List (Bytes × Bytes × Bytes × Bytes))
  remote_localize_rows c localization_sql =
      or_error (fetch_localized_rows lib c localization_sql) >>= λ rows.
      lift (ok (map localized_row rows))

  unfoldable pub remote_sequence_value : Target → Bytes → M (ℤ × ℤ)
  remote_sequence_value c sequence_sql =
      or_error (fetch_sequence_value lib c sequence_sql) >>= λ value.
      lift (ok (value.pg_version, value.last_value))

  unfoldable pub remote_execute : Target → Bytes → M (Unit {0})
  remote_execute c sql = or_error (execute_command_with_timeouts lib c sql)

  unfoldable pub remote_logical_slot_lag : Target → Bytes → M (Bool × ℤ × ℤ)
  remote_logical_slot_lag c slot_name = or_error (fetch_logical_slot_lag lib c slot_name) >>= λ lag.
      lift (ok (lag.active, lag.lag_ms, lag.lag_bytes))

  unfoldable pub remote_standby_replay_status : Target → M (ℤ × Bool × ℤ × Bool)
  remote_standby_replay_status c = or_error (fetch_standby_replay_status lib c) >>= λ status.
      lift
        (ok (status.pg_version, status.in_recovery, as_i64 status.replay_lsn, status.replay_paused))
