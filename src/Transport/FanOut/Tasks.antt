-- ===== src/Transport/FanOut/Tasks.antt =====
-- transport/libpq.rs: what one active task of the fan-out keeps and returns.
use pgl_validate.Base.{
  guard, ℕ, zero, suc, ◌≡◌, refl, ap, ◌∙◌, Bool, true, false, ◌∷◌, Option, none, some, Error,
  Result, ok, err, panic, if◌then◌else◌, Bool-cases, Option-cases, inl, inr,
}
use pgl_validate.Base.Text.{Bytes, contains_char}
use pgl_validate.Base.Int.{is_positive}
use pgl_validate.Transport.Requests.Digest.{checksum_transaction_sql}
use pgl_validate.Transport.QueryResult.{PgResult, same_int}
use pgl_validate.Transport.Session.{
  connectdb, get_result, get_result_null, Trace, Libpq, M, next, ◌>>=◌, ◌>>◌, lift, connection_ok,
  set_query_timeouts,
}
use pgl_validate.Transport.Session.Async.{
  finish_on_error, or_finish, connect, connect_with_timeout, nonblocking, send, consume, busy,
  with_next, with_next_result,
}
use pgl_validate.Transport.Session.Laws.{
  replay, advance, idle, connected, Steady, >>=-Steady, set_query_timeouts-Steady,
}
use pgl_validate.Transport.Codec.{validate_timeout}
use pgl_validate.Transport.Replies.Digest.{RemoteChecksum}
use pgl_validate.Transport.FanOut.{
  RemoteChecksumTask, ActiveChecksumTask, Poll, waiting, finished, again, start, poll, result_of,
  after_poll, Finish, try_finish, read_next,
}

-- The task and its connection stay, and a connection without a held result is one again.
abbrev pub Same : ActiveChecksumTask → ActiveChecksumTask → Type 0
Same a b =
    (b.task ≡ a.task)
    × (b.conn ≡ a.conn)
    × (replay a.trace ≡ connected 0 → replay b.trace ≡ connected 0)

-- What `try_finish` comes to: the task is the same after it, and a result has the task's id.
abbrev pub Tracked : ActiveChecksumTask → Finish → Type 0
Tracked a none = Unit
Tracked a (some (ok none, b)) = Same a b
Tracked a (some (ok (some result), b)) = Same a b × (result.task_id ≡ a.task.task_id)
Tracked a (some (err e, b)) = Same a b
Tracked a (some (panic, b)) = Same a b

with_next-Steady :
    {A : Type 0} (body : Option PgResult → M A)
    → ((r : Option PgResult) → Steady (body r))
    → (o : Option PgResult) → Steady (with_next body o)
unfolding with_next replay advance
with_next-Steady body hb none t n h = hb none (get_result_null ∷ t) n (rw h refl)
with_next-Steady body hb (some r) t n h =
    let held : replay (body (some r) (get_result ∷ t)).1 ≡ connected (suc n) =
      hb (some r) (get_result ∷ t) (suc n) (rw h refl) in
    rw held refl

-- A start that succeeds leaves a connection without a held result, any other leaves none.
abbrev pub Opens : Result (Unit {0}) × Trace → Type 0
Opens (ok u, t) = replay t ≡ connected 0
Opens (err e, t) = replay t ≡ idle
Opens (panic, t) = replay t ≡ idle

finish_on_error-Opens :
    (r : Result (Unit {0})) (t : Trace) → replay t ≡ connected 0 → Opens (finish_on_error r t)
unfolding finish_on_error replay advance
finish_on_error-Opens (ok u) t h = h
finish_on_error-Opens (err e) t h = rw h refl
finish_on_error-Opens panic t h = rw h refl

next-Opens :
    (r : Result (Unit {0})) (t : Trace) (k : M (Unit {0}))
    → ((t1 : Trace) → replay t1 ≡ connected 0 → Opens (k t1))
    → Opens (r, t)
    → Opens (next r (λ u. k) t)
next-Opens (ok u) t k hk h = hk t h
next-Opens (err e) t k hk h = h
next-Opens panic t k hk h = h

lift-Opens :
    {A : Type 0} (r : Result A) (f : A → M (Unit {0})) (t : Trace)
    → replay t ≡ idle
    → ((a : A) → Opens (f a t))
    → Opens (next r f t)
lift-Opens (ok a) f t h hf = hf a
lift-Opens (err e) f t h hf = h
lift-Opens panic f t h hf = h

module _ (lib : Libpq) where
  consume-Steady : Steady (consume lib)
  unfolding consume replay advance
  consume-Steady t n h = rw h refl

  busy-Steady : Steady (busy lib)
  unfolding busy replay advance
  busy-Steady t n h = rw h refl

  nonblocking-Steady : (enabled : Bool) → Steady (nonblocking lib enabled)
  unfolding nonblocking replay advance
  nonblocking-Steady enabled t n h = rw h refl

  send-Steady : (sql : Bytes) → Steady (send lib sql)
  unfolding send replay advance
  send-Steady sql t n h = elim (Bool-cases (contains_char 0 sql)) [
    | inl e ↦ rw e h
    | inr e ↦ rw e (rw h refl)
  ]

  with_next_result-Steady :
      {A : Type 0} (body : Option PgResult → M A)
      → ((r : Option PgResult) → Steady (body r))
      → Steady (with_next_result lib body)
  unfolding with_next_result
  with_next_result-Steady body hb t n h = with_next-Steady body hb (lib.on_get_result t) t n h

  poll-Steady : (checksum : Option RemoteChecksum) → Steady (poll lib checksum)
  unfolding poll
  poll-Steady checksum =
      let read : M Poll = with_next_result lib (λ next. lift (read_next checksum next)) in
      let read-Steady : Steady read =
        with_next_result-Steady (λ next. lift (read_next checksum next)) (λ r t n h. h) in
      let choose : Bool → M Poll = λ is_busy. if is_busy then lift (ok waiting) else read in
      >>=-Steady (consume lib) (λ u. busy lib >>= choose) consume-Steady
        (λ u. >>=-Steady (busy lib) choose busy-Steady (choose-Steady read read-Steady))
    where
      choose-Steady :
          (read : M Poll)
          → Steady read
          → (b : Bool) → Steady (if b then lift (ok waiting) else read)
      choose-Steady read h true t n held = held
      choose-Steady read h false t n held = h t n held

  Same-trans : (a b c : ActiveChecksumTask) → Same a b → Same b c → Same a c
  Same-trans a b c p q = (q.0 ∙ p.0, q.1 ∙ p.1, λ h. q.2 (p.2 h))

  Tracked-Same :
      (a b : ActiveChecksumTask) → Same a b → (out : Finish) → Tracked b out → Tracked a out
  Tracked-Same a b p none h = tt
  Tracked-Same a b p (some (ok none, c)) h = Same-trans a b c p h
  Tracked-Same a b p (some (ok (some result), c)) h =
      (Same-trans a b c p h.0, h.1 ∙ ap (λ (t : RemoteChecksumTask). t.task_id) p.0)
  Tracked-Same a b p (some (err e, c)) h = Same-trans a b c p h
  Tracked-Same a b p (some (panic, c)) h = Same-trans a b c p h

  after_poll-Tracked :
      (loop : ActiveChecksumTask → Finish) (a : ActiveChecksumTask) (r : Result Poll) (t : Trace)
      → ((b : ActiveChecksumTask) → Tracked b (loop b))
      → (replay a.trace ≡ connected 0 → replay t ≡ connected 0)
      → Tracked a (after_poll loop a r t)
  unfolding after_poll result_of
  after_poll-Tracked loop a (ok waiting) t hl ht = (refl, refl, ht)
  after_poll-Tracked loop a (ok (finished c)) t hl ht = ((refl, refl, ht), refl)
  after_poll-Tracked loop a (ok (again c)) t hl ht =
      let b : ActiveChecksumTask = record a { trace = t; checksum = c } in
      Tracked-Same a b (refl, refl, ht) (loop b) (hl b)
  after_poll-Tracked loop a (err e) t hl ht = (refl, refl, ht)
  after_poll-Tracked loop a panic t hl ht = (refl, refl, ht)

  pub try_finish-Tracked : (fuel : ℕ) (a : ActiveChecksumTask) → Tracked a (try_finish lib fuel a)
  unfolding try_finish
  try_finish-Tracked zero a = tt
  try_finish-Tracked (suc fuel) a =
      after_poll-Tracked (try_finish lib fuel) a _ _ (try_finish-Tracked fuel)
        (poll-Steady a.checksum a.trace 0)

  connect-Opens : (dsn : Bytes) (t : Trace) → replay t ≡ idle → Opens (connect lib dsn t)
  unfolding connect or_finish replay advance
  connect-Opens dsn t h = elim (Bool-cases (contains_char 0 dsn)) [
    | inl e ↦ rw e h
    | inr e ↦ elim (Option-cases (lib.on_connectdb t dsn)) [
      | inl none_eq ↦ rw e (rw none_eq (rw h refl))
      | inr (status, some_eq) ↦ rw e (
          rw some_eq (
            finish_on_error-Opens (guard (same_int status connection_ok) Error.connection_failed)
              (connectdb dsn ∷ t) (rw h refl)))
    ]
  ]

  pub start-Opens :
      (task : RemoteChecksumTask) (t : Trace) → replay t ≡ idle → Opens (start lib task t)
  unfolding start connect_with_timeout or_finish
  start-Opens task t h =
      let timeouts = set_query_timeouts lib task.statement_timeout_ms task.lock_timeout_ms in
      let run = send lib (checksum_transaction_sql task.checksum_sql) in
      let prepare : M (Unit {0}) = timeouts >> (nonblocking lib true >> run) in
      let prepare-Steady : Steady prepare =
        >>=-Steady timeouts (λ u. nonblocking lib true >> run)
          (set_query_timeouts-Steady lib task.statement_timeout_ms task.lock_timeout_ms)
          (λ u.
            >>=-Steady (nonblocking lib true) (λ u. run) (nonblocking-Steady true)
              (λ u. send-Steady (checksum_transaction_sql task.checksum_sql))) in
      lift-Opens (guard (is_positive task.task_id) Error.task_id_not_positive) _ t h (λ u.
        next-Opens _ _ (or_finish prepare)
          (λ t1 h1. finish_on_error-Opens (prepare t1).0 (prepare t1).1 (prepare-Steady t1 0 h1))
          (lift-Opens (validate_timeout task.connect_timeout_seconds) _ t h
            (λ valid. connect-Opens _ t h)))
