-- ===== src/Transport/Tests.antt =====
-- The theorems on transport/libpq.rs applied to concrete values, and to small stand-ins for libpq.
use pgl_validate.Base.{
  ℕ, ◌≡◌, ◌↔◌, refl, [], ◌∷◌, ◌++◌, none, some, ok, ◌==◌, if◌then◌else◌, arith, length,
}
use pgl_validate.Base.Int.{ℤ, pos}
use pgl_validate.Base.Text.{
  Bytes, codes, bytes_eq, contains, starts_with, ascii_lower, strip_prefix,
}
use pgl_validate.Base.Digits.{from_str_radix, scan_digits, to_digit, digit_value}
use pgl_validate.Base.Hex.Laws.{IsHexText}
use pgl_validate.Transport.Lsn.{parse_lsn, format_lsn, split_slash, join_words}
use pgl_validate.Transport.Lsn.Laws.{parse_lsn-format_lsn}
use pgl_validate.Transport.Literal.{sql_literal, read_literal, read_literal-sql_literal}
use pgl_validate.Transport.Codec.{parse_hex, parse_hex_digits, parse_hex_iff}
use pgl_validate.Transport.Dsn.{dsn_with_connect_timeout}
use pgl_validate.Base.Text.{contains_char}
use pgl_validate.Base.Utf8.{is_utf8, continues, lead}
use pgl_validate.Base.Digits.{format_decimal, format_radix, lower_digit, parse_signed, scan_all}
use pgl_validate.Base.Hex.{hex_pairs, hex_pair, at_boundary}
use pgl_validate.Transport.Replies.{parse_opt}
use pgl_validate.Transport.Dsn.{format_i32}
use pgl_validate.Transport.Codec.{validate_timeout}
use pgl_validate.Transport.QueryResult.{
  PgResult, same_int, require_status, one_row, value, value_bytes, value_opt, single_value, as_i32,
  as_i64_text,
}
use pgl_validate.Transport.Session
use pgl_validate.Transport.Session.{
  Trace, Libpq, exec_null, exec_command, with_result, with_connection, with_connection_timeout,
  set_query_timeouts, timeouts_sql, finish,
}
use pgl_validate.Transport.Session.Laws.{idle, replay}
use pgl_validate.Transport.Target
use pgl_validate.Transport.Target.{Target}
use pgl_validate.Transport.Replies.Fence.{single_lsn}
use pgl_validate.Transport.Replies.Digest.{RemoteChecksum, parse_checksum_result}
use pgl_validate.Transport.Requests.{query, or_rollback, rollback_on_error}
use pgl_validate.Transport.Requests.Fence.{
  Uuid, BarrierInjection, inject_barrier, insert_barrier_sql, last_commit_lsn_sql,
}
use pgl_validate.Transport.Requests.Digest.{
  fetch_checksum, begin_read_only_sql, checksum_wrapper_sql,
}
use pgl_validate.Transport.Requests.Protocol.{
  do_inject_barrier, get_checksum, perform_all, perform_all-idle,
}
use pgl_validate.Transport.Requests.Success.{
  IsUsable, opened, ran, barrier_committed, inject_barrier-order, fetch_checksum-order,
}
use pgl_validate.Transport.Requests.Rollback.{Errs, requests-Errs}
use pgl_validate.Transport.Requests.Guards.{Refused, usable, session-Refused}

parse_lsn-format_lsn_example : parse_lsn (format_lsn 0x1234_5678_9abc) ≡ ok 0x1234_5678_9abc
parse_lsn-format_lsn_example = parse_lsn-format_lsn 0x1234_5678_9abc (omega arith)

read_literal-sql_literal_example :
    read_literal (sql_literal (codes "it's") ++ codes "::name")
    ≡ some (codes "it's", codes "::name")
read_literal-sql_literal_example =
    read_literal-sql_literal (codes "it's") (codes "::name") (λ e. cc)

parse_hex_iff_example :
    ((parse_hex (codes "0aFf") ≡ ok (10 ∷ 255 ∷ [])) ↔ IsHexText (codes "0aFf") (10 ∷ 255 ∷ []))
    × ((parse_hex (codes "\\x" ++ codes "0aFf") ≡ ok (10 ∷ 255 ∷ []))
        ↔ IsHexText (codes "0aFf") (10 ∷ 255 ∷ []))
unfolding strip_prefix
parse_hex_iff_example = parse_hex_iff (codes "0aFf") (10 ∷ 255 ∷ []) refl

-- A reply of one row with `columns` columns, of which the last one is NULL when there are four.
abbrev cell : ℕ → Bytes
cell column = if column == 0 then codes "18" else if column == 1 then codes "3" else codes "0a"

abbrev answer : ℤ → ℕ → (ℕ → Bytes) → PgResult
answer status columns cells = record {
  status = status;
  ntuples = 1;
  nfields = columns;
  getisnull = λ row column. column == 3;
  getvalue = λ row column. some (cells column);
  getlength = λ row column. pos (length (cells column));
}

-- Every connection and statement succeeds; a question is answered by a place in the WAL.
abbrev token : Uuid
token = record { as_bytes = 1 ∷ []; to_string = codes "t" }

abbrev wal_server : Libpq
wal_server = record {
  on_connectdb = λ t dsn. some (pos 0);
  on_exec = λ t sql. some (
      if starts_with (codes "SELECT") sql
      then answer (pos 2) 1 (λ c. codes "0/1F")
      else answer (pos 1) 0 cell);
  on_setnonblocking = λ t enabled. pos 0;
  on_send_query = λ t sql. pos 0;
  on_socket = λ t. pos 0;
  on_consume_input = λ t. pos 0;
  on_is_busy = λ t. pos 0;
  on_get_result = λ t. none;
}

-- A question is answered by a checksum.
abbrev digest_server : Libpq
digest_server = record {
  on_connectdb = λ t dsn. some (pos 0);
  on_exec = λ t sql.
      some
        (if starts_with (codes "SELECT") sql then answer (pos 2) 4 cell else answer (pos 1) 0 cell);
  on_setnonblocking = λ t enabled. pos 0;
  on_send_query = λ t sql. pos 0;
  on_socket = λ t. pos 0;
  on_consume_input = λ t. pos 0;
  on_is_busy = λ t. pos 0;
  on_get_result = λ t. none;
}

-- No statement is answered.
abbrev dead_server : Libpq
dead_server = record {
  on_connectdb = λ t dsn. some (pos 0);
  on_exec = λ t sql. none;
  on_setnonblocking = λ t enabled. pos 0;
  on_send_query = λ t sql. pos 0;
  on_socket = λ t. pos 0;
  on_consume_input = λ t. pos 0;
  on_is_busy = λ t. pos 0;
  on_get_result = λ t. none;
}

abbrev target : Target
target = record {
  dsn = codes "host=a";
  connect_timeout_seconds = pos 5;
  statement_timeout_ms = pos 9;
  lock_timeout_ms = pos 7;
}

perform_all-idle_example :
    replay (
      perform_all wal_server
        (do_inject_barrier target token ∷ get_checksum target (codes "SELECT 1") ∷ [])
        [])
    ≡ idle
perform_all-idle_example =
    perform_all-idle wal_server
      (do_inject_barrier target token ∷ get_checksum target (codes "SELECT 1") ∷ []) []
      (unfold replay in refl)

abbrev barrier : BarrierInjection
barrier = record { token = 1 ∷ []; barrier_end_lsn = 31 }

barrier_injected : (inject_barrier wal_server target token []).0 ≡ ok barrier
unfolding inject_barrier exec_command with_result contains_char query or_rollback rollback_on_error
    Target.session Session.session with_connection_timeout validate_timeout with_connection
    set_query_timeouts timeouts_sql format_i32 dsn_with_connect_timeout contains starts_with
    same_int require_status one_row value value_bytes is_utf8 continues lead single_value parse_lsn
    split_slash from_str_radix scan_digits to_digit digit_value join_words insert_barrier_sql
    last_commit_lsn_sql format_decimal format_radix lower_digit single_lsn ascii_lower
barrier_injected = refl

-- The server refuses to commit.
abbrev no_commit_server : Libpq
no_commit_server = record wal_server {
  on_exec = λ t sql. if bytes_eq sql (codes "COMMIT") then none else wal_server.on_exec t sql;
}

requests-Errs_example :
    (Errs
      (timeouts_sql target.statement_timeout_ms target.lock_timeout_ms
        ∷ begin_read_only_sql
        ∷ codes "ROLLBACK"
        ∷ [])
      (fetch_checksum no_commit_server target (codes "SELECT 1") []))
    × (Errs
        (timeouts_sql target.statement_timeout_ms target.lock_timeout_ms
          ∷ codes "BEGIN"
          ∷ codes "ROLLBACK"
          ∷ last_commit_lsn_sql
          ∷ [])
        (inject_barrier no_commit_server target token []))
requests-Errs_example = requests-Errs no_commit_server target (codes "SELECT 1") token

abbrev barrier_calls : Trace
barrier_calls = (inject_barrier wal_server target token []).1

inject_barrier-order_example :
    IsUsable target
    × (barrier.token ≡ 1 ∷ [])
    × (barrier_calls
        ≡ finish ∷ ran last_commit_lsn_sql (barrier_committed target token.to_string []))
    × ((r : PgResult) × (wal_server.on_exec
            (barrier_committed target token.to_string [])
            last_commit_lsn_sql
          ≡ some r)
        × (single_lsn r ≡ ok 31))
inject_barrier-order_example =
    inject_barrier-order wal_server target token [] barrier barrier_calls (barrier_injected, refl)

abbrev checksum : RemoteChecksum
checksum = record { pg_version = pos 18; n_rows = pos 3; lthash = 10 ∷ []; set_hash = none }

checksum_fetched : (fetch_checksum digest_server target (codes "SELECT 1") []).0 ≡ ok checksum
unfolding fetch_checksum parse_checksum_result as_i32 as_i64_text parse_signed parse_hex
    parse_hex_digits strip_prefix hex_pairs hex_pair at_boundary value_opt parse_opt scan_all
    begin_read_only_sql checksum_wrapper_sql exec_command with_result contains_char query
    or_rollback rollback_on_error Target.session Session.session with_connection_timeout
    validate_timeout with_connection set_query_timeouts timeouts_sql format_i32
    dsn_with_connect_timeout contains starts_with same_int require_status one_row value value_bytes
    is_utf8 continues lead from_str_radix scan_digits to_digit digit_value format_decimal
    format_radix lower_digit ascii_lower
checksum_fetched = refl

abbrev checksum_calls : Trace
checksum_calls = (fetch_checksum digest_server target (codes "SELECT 1") []).1

fetch_checksum-order_example :
    IsUsable target
    × (checksum_calls
        ≡ finish
          ∷ ran (codes "COMMIT") (
              ran
                (checksum_wrapper_sql (codes "SELECT 1"))
                (ran begin_read_only_sql (opened target []))))
    × ((r : PgResult) × (digest_server.on_exec
            (ran begin_read_only_sql (opened target []))
            (checksum_wrapper_sql (codes "SELECT 1"))
          ≡ some r)
        × (parse_checksum_result r ≡ ok checksum))
fetch_checksum-order_example =
    fetch_checksum-order digest_server target (codes "SELECT 1") [] checksum checksum_calls
      (checksum_fetched, refl)

abbrev hasty : Target
hasty = record {
  dsn = codes "host=a";
  connect_timeout_seconds = pos 5;
  statement_timeout_ms = pos 0;
  lock_timeout_ms = pos 7;
}

session-Refused_example :
    Refused (Target.session wal_server hasty (exec_command wal_server (codes "COMMIT")) []) []
session-Refused_example =
    session-Refused wal_server hasty (exec_command wal_server (codes "COMMIT")) []
      (unfold usable in refl)
