-- ===== src/Transport/Requests/Success.antt =====
-- transport/libpq.rs: the order of the statements of a request that succeeds.
use mathlib.Core.Path.{◌≡◌, sym, ap, ◌∙◌}
use pgl_validate.Base.{ok_inj, ℕ, ◌∷◌, true, some, Result, ok, err, panic}
use pgl_validate.Base.Int.{is_positive}
use pgl_validate.Base.Text.{Bytes, codes}
use pgl_validate.Transport.Dsn.{dsn_with_connect_timeout}
use pgl_validate.Transport.QueryResult.{PgResult}
use pgl_validate.Transport.Session.{
  connectdb, exec, clear, finish, Trace, Libpq, M, ◌>>=◌, ◌>>◌, lift, exec_command, timeouts_sql,
}
use pgl_validate.Transport.Session.Success.{
  Succeeds, >>=-Succeeds, with_result-Succeeds, exec_command-Succeeds, session-Succeeds,
}
use pgl_validate.Transport.Target.{Target, session}
use pgl_validate.Transport.Replies.Fence.{single_lsn}
use pgl_validate.Transport.Replies.Digest.{RemoteChecksum, parse_checksum_result}
use pgl_validate.Transport.Requests.{query, or_rollback, rollback_on_error}
use pgl_validate.Transport.Requests.Fence.{
  Uuid, inject_barrier, BarrierInjection, insert_barrier_sql, last_commit_lsn_sql,
}
use pgl_validate.Transport.Requests.Digest.{
  fetch_checksum, begin_read_only_sql, checksum_wrapper_sql,
}

-- The three timeouts of a target are positive.
abbrev pub IsUsable : Target → Type 0
IsUsable c =
    (is_positive c.connect_timeout_seconds ≡ true)
    × (is_positive c.statement_timeout_ms ≡ true)
    × (is_positive c.lock_timeout_ms ≡ true)

-- The calls on top of `t` by which a session opens.
abbrev pub opened : Target → Trace → Trace
opened c t =
    clear
    ∷ exec (timeouts_sql c.statement_timeout_ms c.lock_timeout_ms)
    ∷ connectdb (dsn_with_connect_timeout c.dsn c.connect_timeout_seconds)
    ∷ t

-- One statement and the release of its result.
abbrev pub ran : Bytes → Trace → Trace
ran sql t = clear ∷ exec sql ∷ t

-- The transaction that writes a barrier, on top of `t`.
abbrev pub barrier_committed : Target → Bytes → Trace → Trace
barrier_committed c token_sql t =
    ran (codes "COMMIT") (ran (insert_barrier_sql token_sql) (ran (codes "BEGIN") (opened c t)))

module _ (lib : Libpq) where
  request-Succeeds :
      {A : Type 0} (c : Target) (body : M A) (t : Trace) (a : A) (t' : Trace)
      → Succeeds (session lib c body) t a t'
      → (t1 : Trace) × Succeeds body (opened c t) a t1 × (t' ≡ finish ∷ t1) × IsUsable c
  unfolding session
  request-Succeeds c body t a t' h =
      let (t1, done, last, connect, statement, lock) =
        session-Succeeds lib c.dsn c.connect_timeout_seconds c.statement_timeout_ms
          c.lock_timeout_ms body t a t' h in
      (t1, done, last, (connect, statement, lock))

  query-Succeeds :
      {A : Type 0} (sql : Bytes) (read : PgResult → Result A) (t : Trace) (a : A) (t' : Trace)
      → Succeeds (query lib sql read) t a t'
      → (r : PgResult) × (lib.on_exec t sql ≡ some r) × (read r ≡ ok a) × (t' ≡ ran sql t)
  unfolding query
  query-Succeeds sql read t a t' h = with_result-Succeeds lib sql read t a t' h

  or_rollback-Succeeds :
      {A : Type 0} (m : M A) (t : Trace) (a : A) (t' : Trace)
      → Succeeds (or_rollback lib m) t a t'
      → Succeeds m t a t'
  unfolding or_rollback rollback_on_error
  or_rollback-Succeeds m t a t' h = split (m t).0 (m t).1 h
    where
      split :
          (r : Result _) (t1 : Trace)
          → ((rollback_on_error lib r t1).0 ≡ ok a) × ((rollback_on_error lib r t1).1 ≡ t')
          → (r ≡ ok a) × (t1 ≡ t')
      split (ok a) t1 h = h
      split (err e) t1 h = cc
      split panic t1 h = cc

  exec-then :
      {A : Type 0} (sql : Bytes) (k : M A) (t : Trace) (a : A) (t' : Trace)
      → Succeeds (exec_command lib sql >> k) t a t'
      → Succeeds k (ran sql t) a t'
  exec-then sql k t a t' h =
      let (u, first, rest) = >>=-Succeeds (exec_command lib sql) (λ u. k) t a t' h in
      rw (exec_command-Succeeds lib sql t u _ first) at rest

  or_rollback-exec-then :
      {A : Type 0} (sql : Bytes) (k : M A) (t : Trace) (a : A) (t' : Trace)
      → Succeeds (or_rollback lib (exec_command lib sql) >> k) t a t'
      → Succeeds k (ran sql t) a t'
  or_rollback-exec-then sql k t a t' h =
      let m = exec_command lib sql in
      let (u, first, rest) = >>=-Succeeds (or_rollback lib m) (λ u. k) t a t' h in
      rw (exec_command-Succeeds lib sql t u _ (or_rollback-Succeeds m t u _ first)) at rest

  -- A barrier is only reported when the timeouts are positive and the connection was told exactly
  -- to set them, to begin, to insert the token, to commit and to give the place of the commit, in
  -- this order; the place is then what libpq answered to the last of these, and the token the one
  -- that was given.
  pub inject_barrier-order :
      (c : Target) (token : Uuid) (t : Trace) (b : BarrierInjection) (t' : Trace)
      → Succeeds (inject_barrier lib c token) t b t'
      → IsUsable c
        × (b.token ≡ token.as_bytes)
        × (t' ≡ finish ∷ ran last_commit_lsn_sql (barrier_committed c token.to_string t))
        × ((r : PgResult) × (lib.on_exec (barrier_committed c token.to_string t) last_commit_lsn_sql
              ≡ some r)
            × (single_lsn r ≡ ok b.barrier_end_lsn))
  unfolding inject_barrier
  inject_barrier-order c token t b t' h =
      let result : ℕ → M BarrierInjection =
        λ lsn. lift (ok (record { token = token.as_bytes; barrier_end_lsn = lsn })) in
      let read : M BarrierInjection = query lib last_commit_lsn_sql single_lsn >>= result in
      let commit = or_rollback lib (exec_command lib (codes "COMMIT")) >> read in
      let insert =
        or_rollback lib (exec_command lib (insert_barrier_sql token.to_string)) >> commit in
      let begin = exec_command lib (codes "BEGIN") >> insert in
      let (t1, done, last, usable) = request-Succeeds c begin t b t' h in
      let begun = exec-then (codes "BEGIN") insert _ b t1 done in
      let inserted =
        or_rollback-exec-then (insert_barrier_sql token.to_string) commit _ b t1 begun in
      let committed = or_rollback-exec-then (codes "COMMIT") read _ b t1 inserted in
      let (lsn, first, rest) =
        >>=-Succeeds (query lib last_commit_lsn_sql single_lsn) result _ b t1 committed in
      let (r, answer, value, calls) = query-Succeeds last_commit_lsn_sql single_lsn _ lsn _ first in
      let built = ok_inj rest.0 in
      (
        usable,
        ap (λ x. x.token) (sym built),
        last ∙ ap (λ x. finish ∷ x) (sym rest.1 ∙ calls),
        (r, answer, value ∙ ap (λ x. ok x.barrier_end_lsn) built),
      )

  -- A checksum is only reported when the timeouts are positive and the connection was told exactly
  -- to set them, to begin a read-only transaction with repeatable reads, to run the wrapped query
  -- and to commit, in this order, and it is what libpq answered to that query.
  pub fetch_checksum-order :
      (c : Target) (sql : Bytes) (t : Trace) (x : RemoteChecksum) (t' : Trace)
      → Succeeds (fetch_checksum lib c sql) t x t'
      → IsUsable c
        × (t'
            ≡ finish
              ∷ ran
                  (codes "COMMIT")
                  (ran (checksum_wrapper_sql sql) (ran begin_read_only_sql (opened c t))))
        × ((r : PgResult) × (lib.on_exec
                (ran begin_read_only_sql (opened c t))
                (checksum_wrapper_sql sql)
              ≡ some r)
            × (parse_checksum_result r ≡ ok x))
  unfolding fetch_checksum
  fetch_checksum-order c sql t x t' h =
      let commit : RemoteChecksum → M RemoteChecksum =
        λ checksum. or_rollback lib (exec_command lib (codes "COMMIT")) >> lift (ok checksum) in
      let fetch = query lib (checksum_wrapper_sql sql) parse_checksum_result in
      let read : M RemoteChecksum = or_rollback lib fetch >>= commit in
      let (t1, done, last, usable) =
        request-Succeeds c (exec_command lib begin_read_only_sql >> read) t x t' h in
      let begun = exec-then begin_read_only_sql read _ x t1 done in
      let (y, first, rest) = >>=-Succeeds (or_rollback lib fetch) commit _ x t1 begun in
      let (r, answer, parsed, calls) =
        query-Succeeds (checksum_wrapper_sql sql) parse_checksum_result _ y _
          (or_rollback-Succeeds fetch _ y _ first) in
      let built = or_rollback-exec-then (codes "COMMIT") (lift (ok y)) _ x t1 rest in
      (
        usable,
        last ∙ ap (λ z. finish ∷ z) (sym built.1 ∙ ap (ran (codes "COMMIT")) calls),
        (r, answer, parsed ∙ built.0),
      )
