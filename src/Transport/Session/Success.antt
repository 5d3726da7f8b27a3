-- ===== src/Transport/Session/Success.antt =====
-- transport/libpq.rs: what a `Connection` must have been told for its work to succeed.
use mathlib.Core.Path.{◌≡◌, refl, sym}
use pgl_validate.Base.{inl, inr, Bool-cases, Option-cases, true, ◌∷◌, some, Result, ok, err, panic}
use pgl_validate.Base.Int.{ℤ, is_positive}
use pgl_validate.Base.Text.{Bytes, contains_char}
use pgl_validate.Transport.Codec.{validate_timeout}
use pgl_validate.Transport.Dsn.{dsn_with_connect_timeout}
use pgl_validate.Transport.QueryResult.{PgResult, require_status, command_ok, same_int}
use pgl_validate.Transport.Session.{
  connectdb, exec, clear, finish, Trace, Libpq, M, next, ◌>>=◌, ◌>>◌, lift, connection_ok,
  with_connection, with_connection_timeout, with_result, exec_command, set_query_timeouts,
  timeouts_sql, session,
}

-- `m` made from `t` returns `a` and the calls `t'`.
abbrev pub Succeeds : {A : Type 0} → M A → Trace → A → Trace → Type 0
Succeeds m t a t' = (m t).0 ≡ ok a × (m t).1 ≡ t'

pub >>=-Succeeds :
    {A B : Type 0} (m : M A) (f : A → M B) (t : Trace) (b : B) (t' : Trace)
    → Succeeds (m >>= f) t b t'
    → (a : A) × (Succeeds m t a (m t).1) × Succeeds (f a) (m t).1 b t'
>>=-Succeeds m f t b t' h = split (m t).0 (m t).1 h
  where
    split :
        (r : Result _) (t1 : Trace)
        → ((next r f t1).0 ≡ ok b) × ((next r f t1).1 ≡ t')
        → (a : _) × ((r ≡ ok a) × (t1 ≡ t1)) × (((f a t1).0 ≡ ok b) × ((f a t1).1 ≡ t'))
    split (ok a) t1 h = (a, (refl, refl), h)
    split (err e) t1 h = cc
    split panic t1 h = cc

module _ (lib : Libpq) where
  -- A statement whose reading succeeds was answered, and its result is cleared.
  pub with_result-Succeeds :
      {A : Type 0} (sql : Bytes) (read : PgResult → Result A) (t : Trace) (a : A) (t' : Trace)
      → Succeeds (with_result lib sql (λ r. lift (read r))) t a t'
      → (r : PgResult) × (lib.on_exec t sql ≡ some r)
        × (read r ≡ ok a)
        × (t' ≡ clear ∷ exec sql ∷ t)
  unfolding with_result
  with_result-Succeeds sql read t a t' h = elim (Bool-cases (contains_char 0 sql)) [
    | inl e ↦ let h0 = rw e at h in cc
    | inr e ↦ elim (Option-cases (lib.on_exec t sql)) [
      | inl none_eq ↦ let h0 = rw e at rw none_eq at h in cc
      | inr (r, some_eq) ↦ let h0 = rw e at rw some_eq at h in (r, some_eq, h0.0, sym h0.1)
    ]
  ]

  pub exec_command-Succeeds :
      (sql : Bytes) (t : Trace) (u : Unit {0}) (t' : Trace)
      → Succeeds (exec_command lib sql) t u t'
      → t' ≡ clear ∷ exec sql ∷ t
  unfolding exec_command
  exec_command-Succeeds sql t u t' h =
      let (r, answer, status, calls) =
        with_result-Succeeds sql (λ r. require_status r command_ok) t u t' h in
      calls

  with_connection-Succeeds :
      {A : Type 0} (dsn : Bytes) (body : M A) (t : Trace) (a : A) (t' : Trace)
      → Succeeds (with_connection lib dsn body) t a t'
      → (t1 : Trace) × Succeeds body (connectdb dsn ∷ t) a t1 × (t' ≡ finish ∷ t1)
  unfolding with_connection
  with_connection-Succeeds dsn body t a t' h = elim (Bool-cases (contains_char 0 dsn)) [
    | inl e ↦ let h0 = rw e at h in cc
    | inr e ↦ elim (Option-cases (lib.on_connectdb t dsn)) [
      | inl none_eq ↦ let h0 = rw e at rw none_eq at h in cc
      | inr (status, some_eq) ↦ elim (Bool-cases (same_int status connection_ok)) [
        | inl good ↦
            let h0 = rw good at rw some_eq at rw e at h in
            ((body (connectdb dsn ∷ t)).1, (h0.0, refl), sym h0.1)
        | inr bad ↦ let h0 = rw bad at rw some_eq at rw e at h in cc
      ]
    ]
  ]

  set_query_timeouts-Succeeds :
      (statement_ms lock_ms : ℤ) (t : Trace) (u : Unit {0}) (t' : Trace)
      → Succeeds (set_query_timeouts lib statement_ms lock_ms) t u t'
      → (is_positive statement_ms ≡ true)
        × (is_positive lock_ms ≡ true)
        × (t' ≡ clear ∷ exec (timeouts_sql statement_ms lock_ms) ∷ t)
  unfolding set_query_timeouts validate_timeout
  set_query_timeouts-Succeeds statement_ms lock_ms t u t' h =
      elim (Bool-cases (is_positive statement_ms)) [
        | inr bad ↦ let h0 = rw bad at h in cc
        | inl good ↦ elim (Bool-cases (is_positive lock_ms)) [
          | inr bad ↦ let h0 = rw bad at rw good at h in cc
          | inl lock_good ↦
              let (r, answer, status, calls) =
                with_result-Succeeds (timeouts_sql statement_ms lock_ms)
                  (λ r. require_status r command_ok) t u t' (rw lock_good at rw good at h) in
              (good, lock_good, calls)
        ]
      ]

  -- What the work over a connection is done after, when the whole succeeds.
  pub session-Succeeds :
      {A : Type 0} (dsn : Bytes) (seconds statement_ms lock_ms : ℤ) (body : M A) (t : Trace) (a : A)
      (t' : Trace)
      → Succeeds (session lib dsn seconds statement_ms lock_ms body) t a t'
      → (t1 : Trace) × Succeeds body
          (clear
            ∷ exec (timeouts_sql statement_ms lock_ms)
            ∷ connectdb (dsn_with_connect_timeout dsn seconds)
            ∷ t)
          a
          t1
        × (t' ≡ finish ∷ t1)
        × (is_positive seconds ≡ true)
        × (is_positive statement_ms ≡ true)
        × (is_positive lock_ms ≡ true)
  unfolding session with_connection_timeout validate_timeout
  session-Succeeds dsn seconds statement_ms lock_ms body t a t' h =
      elim (Bool-cases (is_positive seconds)) [
        | inr bad ↦ let h0 = rw bad at h in cc
        | inl good ↦
            let dsn' = dsn_with_connect_timeout dsn seconds in
            let work = set_query_timeouts lib statement_ms lock_ms >> body in
            let (t1, done, last) = with_connection-Succeeds dsn' work t a t' (rw good at h) in
            let (u, first, rest) =
              >>=-Succeeds (set_query_timeouts lib statement_ms lock_ms) (λ u. body)
                (connectdb dsn' ∷ t) a t1 done in
            let (positive, lock_positive, calls) =
              set_query_timeouts-Succeeds statement_ms lock_ms (connectdb dsn' ∷ t) u _ first in
            (t1, rw calls at rest, last, good, positive, lock_positive)
      ]
