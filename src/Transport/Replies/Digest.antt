-- ===== src/Transport/Replies/Digest.antt =====
-- transport/libpq.rs: checksums, signatures, localized rows and sequences.
use pgl_validate.Base.{ℕ, List, Option, Result, ok, ◌>>=◌, ◌>>◌}
use pgl_validate.Base.Int.{ℤ}
use pgl_validate.Base.Text.{Bytes}
use pgl_validate.Transport.Codec.{parse_hex}
use pgl_validate.Transport.QueryResult.{
  PgResult, require_status, tuples_ok, one_row, has_columns, value, value_opt, as_i32, as_i64_text,
}
use pgl_validate.Transport.Target.{collect_rows}
use pgl_validate.Transport.Replies.{parse_opt}

pub record RemoteChecksum : Type 0 where
  pub pg_version : ℤ
  pub n_rows : ℤ
  pub lthash : Bytes
  pub set_hash : Option Bytes

pub record RemoteSchemaSignature : Type 0 where
  pub pg_version : ℤ
  pub signature : Bytes

pub record LocalizedRowDigest : Type 0 where
  pub key_text : Bytes
  pub key_bytes : Bytes
  pub row_digest : Bytes
  pub row_json : Bytes

pub record RemoteSequenceValue : Type 0 where
  pub pg_version : ℤ
  pub last_value : ℤ

unfoldable pub parse_checksum_result : PgResult → Result RemoteChecksum
parse_checksum_result r = do
  require_status r tuples_ok
  one_row r 4
  version ← value r 0 0 >>= as_i32
  rows ← value r 0 1 >>= as_i64_text
  hash ← value r 0 2 >>= parse_hex
  confirmation ← value_opt r 0 3 >>= parse_opt parse_hex
  ok (record { pg_version = version; n_rows = rows; lthash = hash; set_hash = confirmation })

unfoldable pub parse_schema_signature : PgResult → Result RemoteSchemaSignature
parse_schema_signature r = do
  require_status r tuples_ok
  one_row r 2
  version ← value r 0 0 >>= as_i32
  text ← value r 0 1
  ok (record { pg_version = version; signature = text })

unfoldable pub parse_localized_row : PgResult → ℕ → Result LocalizedRowDigest
parse_localized_row r row = do
  text ← value r row 0
  key ← value r row 1 >>= parse_hex
  digest ← value r row 2 >>= parse_hex
  json ← value r row 3
  ok (record { key_text = text; key_bytes = key; row_digest = digest; row_json = json })

unfoldable pub parse_localized_rows : PgResult → Result (List LocalizedRowDigest)
parse_localized_rows r = do
  require_status r tuples_ok
  has_columns r 4
  collect_rows (parse_localized_row r) r.ntuples 0

unfoldable pub parse_sequence_value : PgResult → Result RemoteSequenceValue
parse_sequence_value r = do
  require_status r tuples_ok
  one_row r 2
  version ← value r 0 0 >>= as_i32
  last ← value r 0 1 >>= as_i64_text
  ok (record { pg_version = version; last_value = last })
