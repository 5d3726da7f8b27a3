-- ===== src/Transport/Requests/Rollback.antt =====
-- transport/libpq.rs: what the last statement of a request with a transaction is, when it fails.
use pgl_validate.Base.{
  ℕ, ◌≡◌, refl, ◌⊎◌, inl, inr, Bool, true, false, Bool-cases, Option-cases, List, [], ◌∷◌, Option,
  none, some, Result, ok, err, panic, if◌then◌else◌, Error,
}
use pgl_validate.Base.Int.{is_positive}
use pgl_validate.Base.Text.{Bytes, codes, contains_char}
use pgl_validate.Transport.Codec.{validate_timeout}
use pgl_validate.Transport.Dsn.{dsn_with_connect_timeout}
use pgl_validate.Transport.QueryResult.{PgResult, command_ok, require_status, same_int}
use pgl_validate.Transport.Session.{
  connectdb, exec, exec_null, with_connection, with_connection_timeout, with_result, clear, finish,
  connection_ok, Trace, Libpq, M, next, finally, ◌>>=◌, ◌>>◌, lift, exec_command,
  set_query_timeouts, timeouts_sql,
}
use pgl_validate.Transport.Session
use pgl_validate.Transport.Target
use pgl_validate.Transport.Target.{Target, session}
use pgl_validate.Transport.Replies.Fence.{single_lsn}
use pgl_validate.Transport.Replies.Digest.{RemoteChecksum, parse_checksum_result}
use pgl_validate.Transport.Requests.{query, or_rollback, rollback_on_error}
use pgl_validate.Transport.Requests.Fence.{
  Uuid, inject_barrier, BarrierInjection, insert_barrier_sql, last_commit_lsn_sql,
}
use pgl_validate.Transport.Requests.Digest.{
  fetch_checksum, begin_read_only_sql, checksum_wrapper_sql,
}

-- The last statement that libpq was asked to run.
unfoldable pub last_statement : Trace → Option Bytes
last_statement [] = none
last_statement (exec sql ∷ t) = some sql
last_statement (exec_null sql ∷ t) = some sql
last_statement (_ ∷ t) = last_statement t

unfoldable pub IsOneOf : List Bytes → Bytes → Type 0
IsOneOf [] sql = ⊥
IsOneOf (s ∷ others) sql = (sql ≡ s) ⊎ IsOneOf others sql

-- No statement, or one of these.
unfoldable pub Allows : List Bytes → Option Bytes → Type 0
unfolding IsOneOf
Allows allowed none = Unit
Allows allowed (some sql) = IsOneOf allowed sql

-- After an error the last statement is one of these, or there is none.
unfoldable pub Errs : {A : Type 0} → List Bytes → Result A × Trace → Type 0
unfolding Allows last_statement
Errs allowed (ok a, t) = Unit
Errs allowed (err e, t) = Allows allowed (last_statement t)
Errs allowed (panic, t) = Unit

module _ (allowed : List Bytes) where
  any-Errs :
      {A : Type 0} (r : Result A) (t : Trace)
      → Allows allowed (last_statement t)
      → Errs allowed (r, t)
  unfolding Errs
  any-Errs (ok a) t h = tt
  any-Errs (err e) t h = h
  any-Errs panic t h = tt

  next-Errs :
      {A B : Type 0} (r : Result A) (f : A → M B) (t : Trace)
      → Errs allowed (r, t)
      → ((a : A) → Errs allowed (f a t))
      → Errs allowed (next r f t)
  unfolding Errs
  next-Errs (ok a) f t h hf = hf a
  next-Errs (err e) f t h hf = h
  next-Errs panic f t h hf = tt

  >>=-Errs :
      {A B : Type 0} (m : M A) (f : A → M B) (t : Trace)
      → Errs allowed (m t)
      → ((a : A) (t1 : Trace) → Errs allowed (f a t1))
      → Errs allowed ((m >>= f) t)
  >>=-Errs m f t h hf = next-Errs (m t).0 f (m t).1 h (λ a. hf a (m t).1)

  finish-Errs :
      {A : Type 0} (r : Result A) (t : Trace) → Errs allowed (r, t) → Errs allowed (r, finish ∷ t)
  unfolding Errs last_statement
  finish-Errs (ok a) t h = tt
  finish-Errs (err e) t h = h
  finish-Errs panic t h = tt

  if-Errs :
      {A : Type 0} (b : Bool) (m k : M A) (t : Trace)
      → Errs allowed (m t)
      → Errs allowed (k t)
      → Errs allowed ((if b then m else k) t)
  if-Errs true m k t hm hk = hm
  if-Errs false m k t hm hk = hk

  module _ (lib : Libpq) where
    -- One statement that is allowed to be the last one.
    with_result-Errs :
        {A : Type 0} (sql : Bytes) (read : PgResult → Result A) (t : Trace)
        → IsOneOf allowed sql
        → (contains_char 0 sql ≡ false) ⊎ (last_statement t ≡ none)
        → Errs allowed (with_result lib sql (λ r. lift (read r)) t)
    unfolding with_result Errs Allows last_statement
    with_result-Errs sql read t h safe = elim (Bool-cases (contains_char 0 sql)) [
      | inl nul ↦ rw nul (no_statement safe nul)
      | inr fine ↦ rw fine (elim (Option-cases (lib.on_exec t sql)) [
        | inl none_eq ↦ rw none_eq h
        | inr (r, some_eq) ↦ rw some_eq (any-Errs (read r) (clear ∷ exec sql ∷ t) h)
      ])
    ]
      where
        no_statement :
            (contains_char 0 sql ≡ false) ⊎ (last_statement t ≡ none)
            → contains_char 0 sql ≡ true
            → Allows allowed (last_statement t)
        no_statement (inl fine) nul = absurd cc
        no_statement (inr empty) nul = rw empty tt

    exec_command-Errs :
        (sql : Bytes) (t : Trace)
        → IsOneOf allowed sql
        → contains_char 0 sql ≡ false
        → Errs allowed (exec_command lib sql t)
    unfolding exec_command
    exec_command-Errs sql t h fine =
        with_result-Errs sql (λ r. require_status r command_ok) t h (inl fine)

    rollback-Errs :
        {A : Type 0} (r : Result A) (t : Trace)
        → IsOneOf allowed (codes "ROLLBACK")
        → Errs allowed (rollback_on_error lib r t)
    unfolding rollback_on_error Errs exec_command with_result contains_char last_statement Allows
    rollback-Errs (ok a) t h = tt
    rollback-Errs (err e) t h = elim (Option-cases (lib.on_exec t (codes "ROLLBACK"))) [
      | inl none_eq ↦ rw none_eq h
      | inr (r, some_eq) ↦ rw some_eq h
    ]
    rollback-Errs panic t h = tt

    -- After an error the last statement is the rollback.
    or_rollback-Errs :
        {A : Type 0} (m : M A) (t : Trace)
        → IsOneOf allowed (codes "ROLLBACK")
        → Errs allowed (or_rollback lib m t)
    unfolding or_rollback
    or_rollback-Errs m t h = rollback-Errs (m t).0 (m t).1 h

    timeouts-Errs :
        (c : Target) (t : Trace)
        → last_statement t ≡ none
        → IsOneOf allowed (timeouts_sql c.statement_timeout_ms c.lock_timeout_ms)
        → Errs allowed (set_query_timeouts lib c.statement_timeout_ms c.lock_timeout_ms t)
    unfolding set_query_timeouts validate_timeout Errs Allows
    timeouts-Errs c t empty h = elim (Bool-cases (is_positive c.statement_timeout_ms)) [
      | inr bad ↦ rw (bad, empty) tt
      | inl good ↦ rw good (elim (Bool-cases (is_positive c.lock_timeout_ms)) [
        | inr bad ↦ rw (bad, empty) tt
        | inl good_lock ↦ rw good_lock (
            with_result-Errs (timeouts_sql c.statement_timeout_ms c.lock_timeout_ms)
              (λ r. require_status r command_ok) t h (inr empty))
      ])
    ]

    connection-Errs :
        {A : Type 0} (dsn : Bytes) (body : M A)
        → ((t : Trace) → last_statement t ≡ none → Errs allowed (body t))
        → Errs allowed (with_connection lib dsn body [])
    unfolding with_connection last_statement Errs Allows
    connection-Errs dsn body h = elim (Bool-cases (contains_char 0 dsn)) [
      | inl nul ↦ rw nul tt
      | inr fine ↦ rw fine (elim (Option-cases (lib.on_connectdb [] dsn)) [
        | inl none_eq ↦ rw none_eq tt
        | inr (status, some_eq) ↦
            let t1 : Trace = connectdb dsn ∷ [] in
            let m : M _ =
              if same_int status connection_ok then body else lift (err Error.connection_failed) in
            rw some_eq (
              finish-Errs (m t1).0 (m t1).1 (
                if-Errs (same_int status connection_ok) body (lift (err Error.connection_failed)) t1
                  (h t1 refl) tt))
      ])
    ]

    session-Errs :
        {A : Type 0} (c : Target) (body : M A)
        → IsOneOf allowed (timeouts_sql c.statement_timeout_ms c.lock_timeout_ms)
        → ((t : Trace) → Errs allowed (body t))
        → Errs allowed (session lib c body [])
    unfolding Target.session Session.session with_connection_timeout validate_timeout Errs Allows
        last_statement
    session-Errs c body h hb = elim (Bool-cases (is_positive c.connect_timeout_seconds)) [
      | inr bad ↦ rw bad tt
      | inl good ↦
          let timeouts = set_query_timeouts lib c.statement_timeout_ms c.lock_timeout_ms in
          rw good (
            connection-Errs (dsn_with_connect_timeout c.dsn c.connect_timeout_seconds)
              (timeouts >> body)
              (λ t empty. >>=-Errs timeouts (λ u. body) t (timeouts-Errs c t empty h) (λ u. hb)))
    ]

module _ (lib : Libpq) (c : Target) where
  abbrev setting : Bytes
  setting = timeouts_sql c.statement_timeout_ms c.lock_timeout_ms

  checksum-Errs :
      (sql : Bytes)
      → Errs (setting ∷ begin_read_only_sql ∷ codes "ROLLBACK" ∷ []) (fetch_checksum lib c sql [])
  unfolding fetch_checksum IsOneOf contains_char begin_read_only_sql Errs
  checksum-Errs sql =
      let allowed = setting ∷ begin_read_only_sql ∷ codes "ROLLBACK" ∷ [] in
      let commit : RemoteChecksum → M RemoteChecksum =
        λ checksum. or_rollback lib (exec_command lib (codes "COMMIT")) >> lift (ok checksum) in
      let fetch = query lib (checksum_wrapper_sql sql) parse_checksum_result in
      let read : M RemoteChecksum = or_rollback lib fetch >>= commit in
      session-Errs allowed lib c (exec_command lib begin_read_only_sql >> read) (inl refl) (λ t.
        >>=-Errs allowed (exec_command lib begin_read_only_sql) (λ u. read) t
          (exec_command-Errs allowed lib begin_read_only_sql t (inr (inl refl)) refl)
          (λ u t1.
            >>=-Errs allowed (or_rollback lib fetch) commit t1
              (or_rollback-Errs allowed lib fetch t1 (inr (inr (inl refl))))
              (λ checksum t2.
                >>=-Errs allowed (or_rollback lib (exec_command lib (codes "COMMIT")))
                  (λ w. lift (ok checksum)) t2
                  (or_rollback-Errs allowed lib _ t2 (inr (inr (inl refl)))) (λ w t3. tt))))

  barrier-Errs :
      (token : Uuid)
      → Errs
          (setting ∷ codes "BEGIN" ∷ codes "ROLLBACK" ∷ last_commit_lsn_sql ∷ [])
          (inject_barrier lib c token [])
  unfolding inject_barrier IsOneOf contains_char last_commit_lsn_sql Errs query
  barrier-Errs token =
      let allowed = setting ∷ codes "BEGIN" ∷ codes "ROLLBACK" ∷ last_commit_lsn_sql ∷ [] in
      let result : ℕ → M BarrierInjection =
        λ lsn. lift (ok (record { token = token.as_bytes; barrier_end_lsn = lsn })) in
      let place = query lib last_commit_lsn_sql single_lsn in
      let read : M BarrierInjection = place >>= result in
      let commit_command = or_rollback lib (exec_command lib (codes "COMMIT")) in
      let insert_command =
        or_rollback lib (exec_command lib (insert_barrier_sql token.to_string)) in
      let commit = commit_command >> read in
      let insert = insert_command >> commit in
      session-Errs allowed lib c (exec_command lib (codes "BEGIN") >> insert) (inl refl) (λ t.
        >>=-Errs allowed (exec_command lib (codes "BEGIN")) (λ u. insert) t
          (exec_command-Errs allowed lib (codes "BEGIN") t (inr (inl refl)) refl)
          (λ u t1.
            >>=-Errs allowed insert_command (λ v. commit) t1
              (or_rollback-Errs allowed lib _ t1 (inr (inr (inl refl))))
              (λ v t2.
                >>=-Errs allowed commit_command (λ w. read) t2
                  (or_rollback-Errs allowed lib _ t2 (inr (inr (inl refl))))
                  (λ w t3.
                    >>=-Errs allowed place result t3
                      (with_result-Errs allowed lib last_commit_lsn_sql single_lsn t3
                        (inr (inr (inr (inl refl)))) (inl refl))
                      (λ lsn t4. tt)))))

  -- When `fetch_checksum` fails with an error, whatever libpq answers, then either no statement was
  -- sent, or the last one that was sent is the rollback, the one that sets the timeouts or the one
  -- that begins the transaction. The same holds of `inject_barrier`, where it can also be the query
  -- for the place of the barrier. So an error never leaves the connection after a query of the
  -- checksum, an insert or a commit that was sent and not followed by a rollback or, for the barrier,
  -- by the query for its place.
  pub requests-Errs :
      (checksum_sql : Bytes) (token : Uuid)
      → (Errs
          (timeouts_sql c.statement_timeout_ms c.lock_timeout_ms
            ∷ begin_read_only_sql
            ∷ codes "ROLLBACK"
            ∷ [])
          (fetch_checksum lib c checksum_sql []))
        × (Errs
            (timeouts_sql c.statement_timeout_ms c.lock_timeout_ms
              ∷ codes "BEGIN"
              ∷ codes "ROLLBACK"
              ∷ last_commit_lsn_sql
              ∷ [])
            (inject_barrier lib c token []))
  requests-Errs checksum_sql token = (checksum-Errs checksum_sql, barrier-Errs token)
