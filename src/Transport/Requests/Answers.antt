-- ===== src/Transport/Requests/Answers.antt =====
-- transport/libpq.rs: a request for a checksum succeeds when the server does what it is told.
use pgl_validate.Base.{
  suc, ◌≡◌, ◌≢◌, refl, Bool, true, false, [], ◌∷◌, ◌++◌, some, ok, Result, arith, map, ◌||◌,
  if◌then◌else◌,
}
use pgl_validate.Base.Int.{ℤ, pos, negsuc, is_positive}
use pgl_validate.Base.Digits.{format_decimal}
use pgl_validate.Base.Text.{
  Bytes, All, codes, contains, contains_char, bytes_eq, starts_with, ascii_lower,
}
use pgl_validate.Base.Text.Laws.{bytes_ne}
use pgl_validate.Transport.Codec.{validate_timeout}
use pgl_validate.Transport.Dsn.{dsn_with_connect_timeout, format_i32}
use pgl_validate.Transport.QueryResult.{PgResult, require_status, command_ok, same_int}
use pgl_validate.Transport.Session.{
  exec, clear, connectdb, Trace, Libpq, connection_ok, with_connection, with_connection_timeout,
  with_result, exec_command, set_query_timeouts, timeouts_sql,
}
use pgl_validate.Transport.Session
use pgl_validate.Transport.Target.{Target, session}
use pgl_validate.Transport.Requests.{query, rollback_on_error, or_rollback}
use pgl_validate.Transport.Requests.Digest.{
  begin_read_only_sql, checksum_wrapper_sql, fetch_checksum,
}
use pgl_validate.Transport.Replies.Digest.{parse_checksum_result}
use pgl_validate.Transport.Replies.Printed.{
  IsDigit, decimal-Digits, QueryRow, Prints, FitsSql, checksum_of, parse_checksum_result-Prints,
}

-- A text without the byte 0.
abbrev pub NoNul : Bytes → Type 0
NoNul s = contains_char 0 s ≡ false

pub NoNul-append : (s u : Bytes) → NoNul s → NoNul u → NoNul (s ++ u)
unfolding contains_char
NoNul-append [] u h k = k
NoNul-append (c ∷ s) u h k = ground (arith, NoNul-append s u)

Digits-NoNul : (s : Bytes) → All IsDigit s → NoNul s
unfolding contains_char
Digits-NoNul [] h = refl
Digits-NoNul (c ∷ s) h = ground (arith, h.0, Digits-NoNul s h.1)

format_i32-NoNul : (n : ℤ) → NoNul (format_i32 n)
unfolding format_i32 contains_char
format_i32-NoNul (pos n) = Digits-NoNul (format_decimal n) (decimal-Digits n)
format_i32-NoNul (negsuc n) = Digits-NoNul (format_decimal (suc n)) (decimal-Digits (suc n))

timeouts_sql-NoNul : (m n : ℤ) → NoNul (timeouts_sql m n)
unfolding timeouts_sql contains_char
timeouts_sql-NoNul m n =
    NoNul-append (format_i32 m) (codes "; SET lock_timeout = " ++ format_i32 n) (format_i32-NoNul m)
      (format_i32-NoNul n)

wrapper-NoNul : (sql : Bytes) → NoNul sql → NoNul (checksum_wrapper_sql sql)
unfolding checksum_wrapper_sql contains_char
wrapper-NoNul sql h = NoNul-append sql (codes ") AS q") h refl

if-NoNul : (b : Bool) (s u : Bytes) → NoNul s → NoNul u → NoNul (if b then s else u)
if-NoNul true s u h k = h
if-NoNul false s u h k = k

separator-NoNul : (b : Bool) (s : Bytes) → NoNul s → NoNul ((if b then b'&' else b'?') ∷ s)
unfolding contains_char
separator-NoNul true s h = h
separator-NoNul false s h = h

dsn-NoNul : (dsn : Bytes) (n : ℤ) → NoNul dsn → NoNul (dsn_with_connect_timeout dsn n)
unfolding dsn_with_connect_timeout contains_char
dsn-NoNul dsn n h =
    let named : Bytes = codes "connect_timeout=" ++ format_i32 n in
    let spaced : Bytes = codes " connect_timeout=" ++ format_i32 n in
    let separated : Bytes = (if contains_char b'?' dsn then b'&' else b'?') ∷ named in
    let is_uri : Bool =
      starts_with (codes "postgresql://") dsn || starts_with (codes "postgres://") dsn in
    if-NoNul (contains (codes "connect_timeout") (map ascii_lower dsn)) dsn
      (if is_uri then dsn ++ separated else dsn ++ spaced) h
      (if-NoNul is_uri (dsn ++ separated) (dsn ++ spaced)
        (NoNul-append dsn separated h
          (separator-NoNul (contains_char b'?' dsn) named (format_i32-NoNul n)))
        (NoNul-append dsn spaced h (format_i32-NoNul n)))

-- A server that accepts the connection, does every other command and answers the query with the
-- result.
pub record Serves (lib : Libpq) (sql : Bytes) (r : PgResult) : Type 0 where
  pub accepts : (t : Trace) (dsn : Bytes) → lib.on_connectdb t dsn ≡ some connection_ok
  pub does :
      (t : Trace) (command : Bytes)
      → command ≢ sql
      → (x : PgResult) × (lib.on_exec t command ≡ some x) × (same_int x.status command_ok ≡ true)
  pub answers : (t : Trace) → lib.on_exec t sql ≡ some r

module _ (lib : Libpq) (sql : Bytes) (r : PgResult)
    (serves : Serves lib (checksum_wrapper_sql sql) r) where
  done-ok :
      (command : Bytes) (t : Trace)
      → NoNul command
      → command ≢ checksum_wrapper_sql sql
      → exec_command lib command t ≡ (ok tt, clear ∷ exec command ∷ t)
  unfolding exec_command with_result require_status
  done-ok command t h other =
      let (x, answer, status) = serves.does t command other in rw (h, answer, status) refl

  timeouts-ok :
      (m n : ℤ) (t : Trace)
      → is_positive m ≡ true
      → is_positive n ≡ true
      → set_query_timeouts lib m n t ≡ (ok tt, clear ∷ exec (timeouts_sql m n) ∷ t)
  unfolding set_query_timeouts validate_timeout exec_command timeouts_sql checksum_wrapper_sql
      bytes_eq
  timeouts-ok m n t hm hn =
      rw (hm, hn)
        (done-ok (timeouts_sql m n) t (timeouts_sql-NoNul m n)
          (bytes_ne (timeouts_sql m n) (checksum_wrapper_sql sql) refl))

  query-ok :
      {A : Type 0} (read : PgResult → Result A) (a : A) (t : Trace)
      → NoNul sql
      → read r ≡ ok a
      → query lib (checksum_wrapper_sql sql) read t
        ≡ (ok a, clear ∷ exec (checksum_wrapper_sql sql) ∷ t)
  unfolding query with_result
  query-ok read a t h e = rw (wrapper-NoNul sql h, serves.answers t, e) refl

  -- A server that accepts the connection and does what it is told gives the row of the query: the
  -- request for a checksum succeeds with exactly this row, when its timeouts are positive, its texts
  -- hold no byte 0, and the numbers of the row fit their SQL types.
  pub fetch_checksum-Serves :
      (c : Target) (t : Trace) (row : QueryRow)
      → NoNul c.dsn
      → NoNul sql
      → is_positive c.connect_timeout_seconds ≡ true
      → is_positive c.statement_timeout_ms ≡ true
      → is_positive c.lock_timeout_ms ≡ true
      → Prints r row
      → FitsSql row
      → (fetch_checksum lib c sql t).0 ≡ ok (checksum_of row)
  unfolding fetch_checksum session Session.session with_connection_timeout with_connection
      or_rollback rollback_on_error validate_timeout begin_read_only_sql checksum_wrapper_sql
      bytes_eq contains_char same_int
  fetch_checksum-Serves c t row hd hs h1 h2 h3 prints fits =
      let dsn : Bytes = dsn_with_connect_timeout c.dsn c.connect_timeout_seconds in
      let t1 : Trace = connectdb dsn ∷ t in
      let t2 : Trace = clear ∷ exec (timeouts_sql c.statement_timeout_ms c.lock_timeout_ms) ∷ t1 in
      let t3 : Trace = clear ∷ exec begin_read_only_sql ∷ t2 in
      let t4 : Trace = clear ∷ exec (checksum_wrapper_sql sql) ∷ t3 in
      rw
        (
          h1,
          dsn-NoNul c.dsn c.connect_timeout_seconds hd,
          serves.accepts t dsn,
          timeouts-ok c.statement_timeout_ms c.lock_timeout_ms t1 h2 h3,
          done-ok begin_read_only_sql t2 refl
              (bytes_ne begin_read_only_sql (checksum_wrapper_sql sql) refl),
          query-ok parse_checksum_result (checksum_of row) t3 hs
              (parse_checksum_result-Prints r row prints fits),
          done-ok (codes "COMMIT") t4 refl
              (bytes_ne (codes "COMMIT") (checksum_wrapper_sql sql) refl),
        )
        refl
