-- ===== src/Transport/Session.antt =====
-- transport/libpq.rs: `Connection`, over libpq as a parameter.
--
-- A computation takes the calls made so far, the latest first, and returns its result and the calls
-- made then. What libpq answers may depend on every call before. `PQfinish` and `PQclear`, which
-- Rust calls when a value is dropped, are calls like the others.
pub mod Laws
pub mod Success
pub mod Async
pub use pgl_validate.Base.Steps.{next, ◌>>=◌, ◌>>◌, lift, log, finally}
use pgl_validate.Base.Steps.{Steps}
use pgl_validate.Base.{
  ℕ, ◌==◌, ◌&&◌, Bool, true, false, List, [], ◌∷◌, ◌++◌, Option, none, some, Error, Result, ok, err,
  panic, if◌then◌else◌,
}
use pgl_validate.Base.Int.{ℤ, pos, negsuc}
use pgl_validate.Base.Text.{Bytes, codes, contains_char}
use pgl_validate.Transport.Codec.{validate_timeout}
use pgl_validate.Transport.Dsn.{dsn_with_connect_timeout, format_i32}
use pgl_validate.Transport.QueryResult.{PgResult, require_status, command_ok, same_int}

-- A call of libpq on one connection; `_null` is a call that returned NULL, and `is_busy` has its
-- answer.
pub data Call : Type 0 where
  connectdb connectdb_null : Bytes → Call
  exec exec_null : Bytes → Call
  set_nonblocking is_busy : Bool → Call
  send_query : Bytes → Call
  consume_input get_result get_result_null : Call
  clear finish : Call

abbrev pub Trace : Type 0
Trace = List Call

-- The answers of libpq after the calls so far: to `PQconnectdb` NULL or a connection with its
-- `PQstatus`, to `PQexec` and `PQgetResult` NULL or a result, to the others a number.
pub record Libpq : Type 0 where
  pub on_connectdb : Trace → Bytes → Option ℤ
  pub on_exec : Trace → Bytes → Option PgResult
  pub on_setnonblocking : Trace → Bool → ℤ
  pub on_send_query : Trace → Bytes → ℤ
  pub on_socket : Trace → ℤ
  pub on_consume_input : Trace → ℤ
  pub on_is_busy : Trace → ℤ
  pub on_get_result : Trace → Option PgResult

abbrev pub connection_ok : ℤ
connection_ok = pos 0

abbrev pub M : Type 0 → Type 0
M = Steps Call

-- The statement of `Connection::set_query_timeouts`.
unfoldable pub timeouts_sql : ℤ → ℤ → Bytes
timeouts_sql statement_ms lock_ms =
    codes "SET statement_timeout = "
    ++ (format_i32 statement_ms ++ (codes "; SET lock_timeout = " ++ format_i32 lock_ms))

module _ (lib : Libpq) where
  -- `Connection::connect`, up to the end of the connection's life: what `body` does with it.
  unfoldable pub with_connection : {A : Type 0} → Bytes → M A → M A
  with_connection dsn body t =
      if contains_char 0 dsn then (err Error.dsn_has_nul, t) else elim (lib.on_connectdb t dsn) [
        | none ↦ (err Error.connectdb_null, connectdb_null dsn ∷ t)
        | some status ↦
            finally
              (if same_int status connection_ok then body else lift (err Error.connection_failed))
              finish (connectdb dsn ∷ t)
      ]

  -- `Connection::connect_with_timeout`.
  unfoldable pub with_connection_timeout : {A : Type 0} → Bytes → ℤ → M A → M A
  with_connection_timeout dsn seconds body = lift (validate_timeout seconds) >>= λ valid.
      with_connection (dsn_with_connect_timeout dsn valid) body

  -- `Connection::exec`, up to the end of the result's life: what `body` does with it.
  unfoldable pub with_result : {A : Type 0} → Bytes → (PgResult → M A) → M A
  with_result sql body t =
      if contains_char 0 sql then (err Error.query_has_nul, t) else elim (lib.on_exec t sql) [
        | none ↦ (err Error.query_failed, exec_null sql ∷ t)
        | some r ↦ finally (body r) clear (exec sql ∷ t)
      ]

  -- `Connection::exec_command`.
  unfoldable pub exec_command : Bytes → M (Unit {0})
  exec_command sql = with_result sql (λ r. lift (require_status r command_ok))

  -- `Connection::set_query_timeouts`.
  unfoldable pub set_query_timeouts : ℤ → ℤ → M (Unit {0})
  unfolding timeouts_sql
  set_query_timeouts statement_timeout_ms lock_timeout_ms =
      lift (validate_timeout statement_timeout_ms) >>= λ statement_ms.
      lift (validate_timeout lock_timeout_ms) >>= λ lock_ms.
      with_result (timeouts_sql statement_ms lock_ms) (λ r. lift (require_status r command_ok))

  -- The opening that every function of the module has, and what it does then.
  unfoldable pub session : {A : Type 0} → Bytes → ℤ → ℤ → ℤ → M A → M A
  session dsn connect_timeout_seconds statement_timeout_ms lock_timeout_ms body =
      with_connection_timeout dsn connect_timeout_seconds
        (set_query_timeouts statement_timeout_ms lock_timeout_ms >> body)
