-- ===== src/Transport/Session/Async.antt =====
-- transport/libpq.rs: the calls of `Connection` that do not wait, and a connection that outlives the
-- function that opened it.
use pgl_validate.Base.{
  Bool, ◌∷◌, Option, none, some, Error, Result, ok, err, panic, guard, if◌then◌else◌,
}
use pgl_validate.Base.Int.{ℤ, pos, ltb_ℤ}
use pgl_validate.Base.Text.{Bytes, contains_char}
use pgl_validate.Transport.Codec.{validate_timeout}
use pgl_validate.Transport.Dsn.{dsn_with_connect_timeout}
use pgl_validate.Transport.QueryResult.{PgResult, same_int}
use pgl_validate.Transport.Session.{
  connectdb, connectdb_null, set_nonblocking, is_busy, send_query, consume_input, get_result,
  get_result_null, clear, finish, Trace, Libpq, M, ◌>>=◌, lift, finally, connection_ok,
}

-- The connection is dropped when what is done first over it fails.
unfoldable pub finish_on_error : {A : Type 0} → Result A → M A
finish_on_error (ok a) t = (ok a, t)
finish_on_error (err e) t = (err e, finish ∷ t)
finish_on_error panic t = (panic, finish ∷ t)

unfoldable pub or_finish : {A : Type 0} → M A → M A
or_finish m t = let (r, t') = m t in finish_on_error r t'

-- What `body` does with the next result, which is cleared then, or with the end of the results.
unfoldable pub with_next : {A : Type 0} → (Option PgResult → M A) → Option PgResult → M A
with_next body none t = body none (get_result_null ∷ t)
with_next body (some r) t = finally (body (some r)) clear (get_result ∷ t)

module _ (lib : Libpq) where
  -- `Connection::connect`, with the connection open behind it.
  unfoldable pub connect : Bytes → M (Unit {0})
  connect dsn t =
      if contains_char 0 dsn then (err Error.dsn_has_nul, t) else elim (lib.on_connectdb t dsn) [
        | none ↦ (err Error.connectdb_null, connectdb_null dsn ∷ t)
        | some status ↦
            or_finish (lift (guard (same_int status connection_ok) Error.connection_failed))
              (connectdb dsn ∷ t)
      ]

  -- `Connection::connect_with_timeout`.
  unfoldable pub connect_with_timeout : Bytes → ℤ → M (Unit {0})
  connect_with_timeout dsn seconds =
      lift (validate_timeout seconds) >>= λ valid. connect (dsn_with_connect_timeout dsn valid)

  -- `Connection::set_nonblocking`.
  unfoldable pub nonblocking : Bool → M (Unit {0})
  nonblocking enabled t = (
    guard (same_int (lib.on_setnonblocking t enabled) (pos 0)) Error.nonblocking_failed,
    set_nonblocking enabled ∷ t,
  )

  -- `Connection::send_query`.
  unfoldable pub send : Bytes → M (Unit {0})
  send sql t = if contains_char 0 sql then (err Error.query_has_nul, t) else (
    guard (same_int (lib.on_send_query t sql) (pos 1)) Error.send_failed,
    send_query sql ∷ t,
  )

  -- `Connection::socket`.
  unfoldable pub socket : Trace → Result ℤ
  socket t = if ltb_ℤ (lib.on_socket t) (pos 0) then err Error.no_socket else ok (lib.on_socket t)

  -- `Connection::consume_input`.
  unfoldable pub consume : M (Unit {0})
  consume t =
      (guard (same_int (lib.on_consume_input t) (pos 1)) Error.consume_failed, consume_input ∷ t)

  -- `Connection::is_busy`.
  unfoldable pub busy : M Bool
  busy t = let answer = same_int (lib.on_is_busy t) (pos 1) in (ok answer, is_busy answer ∷ t)

  -- `Connection::next_result`, up to the end of the result's life.
  unfoldable pub with_next_result : {A : Type 0} → (Option PgResult → M A) → M A
  unfolding with_next
  with_next_result body t = with_next body (lib.on_get_result t) t
