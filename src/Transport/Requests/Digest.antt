-- ===== src/Transport/Requests/Digest.antt =====
-- transport/libpq.rs: checksums, signatures, localized rows and sequences.
use pgl_validate.Base.{◌++◌, List, ok}
use pgl_validate.Base.Text.{Bytes, codes}
use pgl_validate.Transport.Session.{M, Libpq, ◌>>=◌, ◌>>◌, lift, exec_command}
use pgl_validate.Transport.Target.{Target, session}
use pgl_validate.Transport.Requests.{query, or_rollback}
use pgl_validate.Transport.Replies.Digest.{
  RemoteChecksum, RemoteSchemaSignature, LocalizedRowDigest, RemoteSequenceValue,
  parse_checksum_result, parse_schema_signature, parse_localized_rows, parse_sequence_value,
}

unfoldable pub begin_read_only_sql : Bytes
begin_read_only_sql = codes "BEGIN ISOLATION LEVEL REPEATABLE READ, READ ONLY"

unfoldable pub checksum_wrapper_sql : Bytes → Bytes
checksum_wrapper_sql checksum_sql =
    codes "SELECT current_setting('server_version_num')::int::text, "
    ++ (codes "q.n_rows::bigint::text, encode(q.lthash, 'hex'), encode(q.set_hash, 'hex') "
        ++ (codes "FROM (" ++ (checksum_sql ++ codes ") AS q")))

unfoldable pub checksum_transaction_sql : Bytes → Bytes
checksum_transaction_sql checksum_sql =
    let arg = checksum_wrapper_sql checksum_sql in
    codes "BEGIN ISOLATION LEVEL REPEATABLE READ, READ ONLY; " ++ (arg ++ codes "; COMMIT")

unfoldable pub schema_signature_sql : Bytes → Bytes
schema_signature_sql signature_sql =
    codes "SELECT current_setting('server_version_num')::int::text, q.signature::text "
    ++ (codes "FROM (" ++ (signature_sql ++ codes ") AS q"))

unfoldable pub localized_rows_sql : Bytes → Bytes
localized_rows_sql localization_sql =
    codes "SELECT q.key_text, encode(q.key_bytes, 'hex'), encode(q.row_digest, 'hex'), "
    ++ (codes "q.row_json FROM (" ++ (localization_sql ++ codes ") AS q"))

unfoldable pub sequence_value_sql : Bytes → Bytes
sequence_value_sql sequence_sql =
    codes "SELECT current_setting('server_version_num')::int::text, "
    ++ (codes "q.last_value::bigint::text FROM (" ++ (sequence_sql ++ codes ") AS q"))

module _ (lib : Libpq) where
  unfoldable pub fetch_checksum : Target → Bytes → M RemoteChecksum
  fetch_checksum c checksum_sql = session lib c do
    exec_command lib begin_read_only_sql
    checksum ← or_rollback lib (query lib (checksum_wrapper_sql checksum_sql) parse_checksum_result)
    or_rollback lib (exec_command lib (codes "COMMIT"))
    lift (ok checksum)

  unfoldable pub fetch_schema_signature : Target → Bytes → M RemoteSchemaSignature
  fetch_schema_signature c signature_sql =
      session lib c (query lib (schema_signature_sql signature_sql) parse_schema_signature)

  unfoldable pub fetch_localized_rows : Target → Bytes → M (List LocalizedRowDigest)
  fetch_localized_rows c localization_sql =
      session lib c (query lib (localized_rows_sql localization_sql) parse_localized_rows)

  unfoldable pub fetch_sequence_value : Target → Bytes → M RemoteSequenceValue
  fetch_sequence_value c sequence_sql =
      session lib c (query lib (sequence_value_sql sequence_sql) parse_sequence_value)
