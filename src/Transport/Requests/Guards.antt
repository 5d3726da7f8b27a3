-- ===== src/Transport/Requests/Guards.antt =====
-- transport/libpq.rs: what a request does when a timeout is not positive.
use mathlib.Core.Path.{◌≡◌, refl}
use pgl_validate.Base.{
  inl, inr, Bool-cases, Option-cases, arith, ◌&&◌, Bool, true, false, List, [], ◌∷◌, Result, ok,
  err, panic,
}
use pgl_validate.Base.Int.{ℤ, is_positive}
use pgl_validate.Base.Text.{Bytes, contains_char}
use pgl_validate.Transport.Codec.{validate_timeout}
use pgl_validate.Transport.Dsn.{dsn_with_connect_timeout}
use pgl_validate.Transport.QueryResult.{same_int}
use pgl_validate.Transport.Session
use pgl_validate.Transport.Session.{
  Call, connectdb, connectdb_null, exec, exec_null, set_nonblocking, is_busy, send_query,
  consume_input, get_result, get_result_null, clear, finish, Trace, Libpq, M, ◌>>=◌, ◌>>◌, lift,
  finally, connection_ok, with_connection, with_connection_timeout, set_query_timeouts,
}
use pgl_validate.Transport.Target.{Target, session}

-- The statements that libpq was asked to run, the latest first.
unfoldable pub statements : Trace → List Bytes
statements [] = []
statements (exec sql ∷ t) = sql ∷ statements t
statements (exec_null sql ∷ t) = sql ∷ statements t
statements (connectdb dsn ∷ t) = statements t
statements (connectdb_null dsn ∷ t) = statements t
statements (send_query sql ∷ t) = sql ∷ statements t
statements (set_nonblocking enabled ∷ t) = statements t
statements (is_busy answer ∷ t) = statements t
statements (consume_input ∷ t) = statements t
statements (get_result ∷ t) = statements t
statements (get_result_null ∷ t) = statements t
statements (clear ∷ t) = statements t
statements (finish ∷ t) = statements t

unfoldable pub is_ok : {A : Type 0} → Result A → Bool
is_ok (ok a) = true
is_ok (err e) = false
is_ok panic = false

-- Whether all three timeouts are positive.
unfoldable pub usable : Target → Bool
usable c =
    is_positive c.connect_timeout_seconds
    && (is_positive c.statement_timeout_ms && is_positive c.lock_timeout_ms)

-- No statement on top of `t`, and no success.
abbrev pub Refused : {A : Type 0} → Result A × Trace → Trace → Type 0
Refused out t = (statements out.1 ≡ statements t) × (is_ok out.0 ≡ false)

module _ (lib : Libpq) where
  with_connection-Refused :
      {A : Type 0} (dsn : Bytes) (body : M A) (t : Trace)
      → ((t' : Trace) → Refused (body t') t')
      → Refused (with_connection lib dsn body t) t
  unfolding with_connection statements is_ok
  with_connection-Refused dsn body t h = elim (Bool-cases (contains_char 0 dsn)) [
    | inl e ↦ rw e (refl, refl)
    | inr e ↦ elim (Option-cases (lib.on_connectdb t dsn)) [
      | inl none_eq ↦ rw e (rw none_eq (refl, refl))
      | inr (status, some_eq) ↦ elim (Bool-cases (same_int status connection_ok)) [
        | inl good ↦ rw e (rw some_eq (rw good (h (connectdb dsn ∷ t))))
        | inr bad ↦ rw e (rw some_eq (rw bad (refl, refl)))
      ]
    ]
  ]

  set_query_timeouts-Refused :
      {A : Type 0} (statement_ms lock_ms : ℤ) (body : M A) (t : Trace)
      → is_positive statement_ms && is_positive lock_ms ≡ false
      → Refused ((set_query_timeouts lib statement_ms lock_ms >> body) t) t
  unfolding set_query_timeouts validate_timeout is_ok
  set_query_timeouts-Refused statement_ms lock_ms body t h =
      elim (Bool-cases (is_positive statement_ms)) [
        | inr bad ↦ rw bad (refl, refl)
        | inl good ↦ elim (Bool-cases (is_positive lock_ms)) [
          | inr bad ↦ rw good (rw bad (refl, refl))
          | inl both ↦ absurd (ground arith)
        ]
      ]

  -- A request with a timeout that is not positive fails, and no statement is sent to the server,
  -- whatever it was going to do and whatever libpq answers.
  pub session-Refused :
      {A : Type 0} (c : Target) (body : M A) (t : Trace)
      → usable c ≡ false
      → Refused (session lib c body t) t
  unfolding usable session Session.session with_connection_timeout validate_timeout is_ok
  session-Refused c body t h = elim (Bool-cases (is_positive c.connect_timeout_seconds)) [
    | inr bad ↦ rw bad (refl, refl)
    | inl good ↦ rw good (
        with_connection-Refused (dsn_with_connect_timeout c.dsn c.connect_timeout_seconds)
          (set_query_timeouts lib c.statement_timeout_ms c.lock_timeout_ms >> body) t
          (λ t'.
            set_query_timeouts-Refused c.statement_timeout_ms c.lock_timeout_ms body t'
              (rw good at h)))
  ]
