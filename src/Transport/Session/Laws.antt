-- ===== src/Transport/Session/Laws.antt =====
-- transport/libpq.rs: how `Connection` and `QueryResult` use what libpq gave them.
--
-- `replay` reads a trace as a state machine: at most one connection is open, statements run on an
-- open connection only, and a result or a connection is released at most once and never used then.
use Prim.Native.Nat.{ℕ, zero, suc}
use mathlib.Core.Path.{◌≡◌, refl}
use pgl_validate.Base.{inl, inr, Bool-cases, Option-cases, [], ◌∷◌, Result, ok, err, panic}
use pgl_validate.Base.Int.{ℤ}
use pgl_validate.Base.Text.{Bytes, contains_char}
use pgl_validate.Transport.Codec.{validate_timeout}
use pgl_validate.Transport.Dsn.{dsn_with_connect_timeout}
use pgl_validate.Transport.QueryResult.{PgResult, require_status, command_ok, same_int}
use pgl_validate.Transport.Session.{
  Call, connectdb, connectdb_null, exec, exec_null, set_nonblocking, is_busy, send_query,
  consume_input, get_result, get_result_null, clear, finish, Trace, Libpq, M, next, ◌>>=◌, ◌>>◌,
  lift, connection_ok, with_connection, with_connection_timeout, with_result, exec_command,
  set_query_timeouts, timeouts_sql, session,
}

-- `connected n`: a connection is open and `n` results are held.
pub data Phase : Type 0 where
  idle : Phase
  connected : ℕ → Phase
  broken : Phase

unfoldable pub advance : Phase → Call → Phase
advance idle (connectdb dsn) = connected 0
advance idle (connectdb_null dsn) = idle
advance (connected n) (exec sql) = connected (suc n)
advance (connected n) (exec_null sql) = connected n
advance (connected n) (set_nonblocking enabled) = connected n
advance (connected n) (send_query sql) = connected n
advance (connected n) consume_input = connected n
advance (connected n) (is_busy answer) = connected n
advance (connected n) get_result = connected (suc n)
advance (connected n) get_result_null = connected n
advance (connected (suc n)) clear = connected n
advance (connected zero) finish = idle
advance _ _ = broken

unfoldable pub replay : Trace → Phase
unfolding advance
replay [] = idle
replay (c ∷ t) = advance (replay t) c

-- On an open connection, `m` releases every result it gets, and leaves the others alone.
abbrev pub Steady : {A : Type 0} → M A → Type 0
Steady m = (t : Trace) (n : ℕ) → replay t ≡ connected n → replay (m t).1 ≡ connected n

-- Between connections, `m` releases everything it gets.
abbrev pub Closed : {A : Type 0} → M A → Type 0
Closed m = (t : Trace) → replay t ≡ idle → replay (m t).1 ≡ idle

pub lift->>=-Steady :
    {A B : Type 0} (r : Result A) (f : A → M B) → ((a : A) → Steady (f a)) → Steady (lift r >>= f)
lift->>=-Steady (ok a) f hf t n h = hf a t n h
lift->>=-Steady (err e) f hf t n h = h
lift->>=-Steady panic f hf t n h = h

pub >>=-Steady :
    {A B : Type 0} (m : M A) (f : A → M B) → Steady m → ((a : A) → Steady (f a)) → Steady (m >>= f)
>>=-Steady m f hm hf t n h =
    let (r, t') = m t in
    let step : replay (m t).1 ≡ connected n = hm t n h in next_case (m t).0 (m t).1 n step
  where
    next_case :
        (r : Result _) (t' : Trace) (n : ℕ)
        → replay t' ≡ connected n
        → replay (next r f t').1 ≡ connected n
    next_case (ok a) t' n h = hf a t' n h
    next_case (err e) t' n h = h
    next_case panic t' n h = h

pub lift->>=-Closed :
    {A B : Type 0} (r : Result A) (f : A → M B) → ((a : A) → Closed (f a)) → Closed (lift r >>= f)
lift->>=-Closed (ok a) f hf t h = hf a t h
lift->>=-Closed (err e) f hf t h = h
lift->>=-Closed panic f hf t h = h

module _ (lib : Libpq) where
  pub with_result-Steady :
      {A : Type 0} (sql : Bytes) (body : PgResult → M A)
      → ((r : PgResult) → Steady (body r))
      → Steady (with_result lib sql body)
  unfolding with_result replay advance
  with_result-Steady sql body hb t n h = elim (Bool-cases (contains_char 0 sql)) [
    | inl e ↦ rw e h
    | inr e ↦ elim (Option-cases (lib.on_exec t sql)) [
      | inl none_eq ↦ rw e (rw none_eq (rw h refl))
      | inr (r, some_eq) ↦
          let held : replay (body r (exec sql ∷ t)).1 ≡ connected (suc n) =
            hb r (exec sql ∷ t) (suc n) (rw h refl) in
          rw e (rw some_eq (rw held refl))
    ]
  ]

  pub exec_command-Steady : (sql : Bytes) → Steady (exec_command lib sql)
  unfolding exec_command
  exec_command-Steady sql =
      with_result-Steady sql (λ r. lift (require_status r command_ok)) (λ r t n h. h)

  pub set_query_timeouts-Steady :
      (statement_ms lock_ms : ℤ) → Steady (set_query_timeouts lib statement_ms lock_ms)
  unfolding set_query_timeouts
  set_query_timeouts-Steady statement_ms lock_ms =
      let run : ℤ → ℤ → M (Unit {0}) =
        λ a b. with_result lib (timeouts_sql a b) (λ r. lift (require_status r command_ok)) in
      lift->>=-Steady (validate_timeout statement_ms)
        (λ a. lift (validate_timeout lock_ms) >>= run a)
        (λ a. lift->>=-Steady (validate_timeout lock_ms) (run a) (λ b.
          with_result-Steady (timeouts_sql a b) (λ r. lift (require_status r command_ok))
            (λ r t n h. h)))

  pub with_connection-Closed :
      {A : Type 0} (dsn : Bytes) (body : M A) → Steady body → Closed (with_connection lib dsn body)
  unfolding with_connection replay advance
  with_connection-Closed dsn body hb t h = elim (Bool-cases (contains_char 0 dsn)) [
    | inl e ↦ rw e h
    | inr e ↦ elim (Option-cases (lib.on_connectdb t dsn)) [
      | inl none_eq ↦ rw e (rw none_eq (rw h refl))
      | inr (status, some_eq) ↦ elim (Bool-cases (same_int status connection_ok)) [
        | inl good ↦
            let held : replay (body (connectdb dsn ∷ t)).1 ≡ connected 0 =
              hb (connectdb dsn ∷ t) 0 (rw h refl) in
            rw e (rw some_eq (rw good (rw held refl)))
        | inr bad ↦ rw e (rw some_eq (rw bad (rw h refl)))
      ]
    ]
  ]

  -- A connection attempt, and all that is done over it, ends with every result that libpq returned
  -- cleared once and the connection finished once, whatever libpq answers and however it ends, when
  -- what is done over the connection keeps the number of results that it holds.
  pub session-Closed :
      {A : Type 0} (dsn : Bytes) (seconds statement_ms lock_ms : ℤ) (body : M A)
      → Steady body
      → Closed (session lib dsn seconds statement_ms lock_ms body)
  unfolding session with_connection_timeout
  session-Closed dsn seconds statement_ms lock_ms body hb =
      let work = set_query_timeouts lib statement_ms lock_ms >> body in
      let steady : Steady work =
        >>=-Steady (set_query_timeouts lib statement_ms lock_ms) (λ u. body)
          (set_query_timeouts-Steady statement_ms lock_ms) (λ u. hb) in
      lift->>=-Closed (validate_timeout seconds)
        (λ valid. with_connection lib (dsn_with_connect_timeout dsn valid) work)
        (λ valid. with_connection-Closed (dsn_with_connect_timeout dsn valid) work steady)
