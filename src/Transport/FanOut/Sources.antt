-- ===== src/Transport/FanOut/Sources.antt =====
-- transport/libpq.rs: where the checksum of an active task comes from: a result that its connection
-- gave after the task's query was sent on it.
use pgl_validate.Base.{
  ℕ, zero, suc, ◌≡◌, refl, ◌⊎◌, inl, inr, Bool, true, false, [], ◌∷◌, Option, none, some, Error,
  Result, ok, err, panic, guard, if◌then◌else◌, Bool-cases,
}
use pgl_validate.Base
use pgl_validate.Base.Text.{contains_char}
use pgl_validate.Base.Int.{is_positive, pos}
use pgl_validate.Transport.QueryResult.{PgResult, command_ok, tuples_ok, same_int}
use pgl_validate.Transport.Session.{
  send_query, consume_input, get_result, clear, Trace, Libpq, M, next, ◌>>=◌, ◌>>◌, lift,
  set_query_timeouts,
}
use pgl_validate.Transport.Session.Async.{
  finish_on_error, or_finish, connect_with_timeout, nonblocking, send, consume, busy, with_next,
  with_next_result,
}
use pgl_validate.Transport.Replies.Digest.{RemoteChecksum, parse_checksum_result}
use pgl_validate.Transport.Requests.Digest.{checksum_transaction_sql}
use pgl_validate.Transport.FanOut.{
  RemoteChecksumTask, ActiveChecksumTask, Poll, waiting, finished, again, read_result, complete,
  read_next, start, poll, result_of, after_poll, Finish, try_finish,
}

-- The query of the task was sent on the connection.
unfoldable pub Sent : RemoteChecksumTask → Trace → Type 0
Sent task [] = ⊥
Sent task (call ∷ t) =
    (call ≡ send_query (checksum_transaction_sql task.checksum_sql)) ⊎ Sent task t

-- The checksum was read from a result which the connection gave after the task's query was sent.
abbrev pub Source : Libpq → RemoteChecksumTask → RemoteChecksum → Type 0
Source lib task c =
    (t : Trace) × (r : PgResult) × Sent task t
    × (lib.on_get_result t ≡ some r)
    × (parse_checksum_result r ≡ ok c)

abbrev SourceIfAny : Libpq → RemoteChecksumTask → Option RemoteChecksum → Type 0
SourceIfAny lib task none = Unit {0}
SourceIfAny lib task (some c) = Source lib task c

-- What is known of an active task with its connection: the query of `task` was sent on it, and the
-- checksum, when there is one, was read from it.
abbrev pub Sourced : Libpq → RemoteChecksumTask → ActiveChecksumTask → Type 0
Sourced lib task a = Sent task a.trace × SourceIfAny lib task a.checksum

-- A start that succeeds has sent the query.
abbrev pub Starts : RemoteChecksumTask → Result (Unit {0}) × Trace → Type 0
Starts task (ok u, t) = Sent task t
Starts task (err e, t) = Unit
Starts task (panic, t) = Unit

module _ (task : RemoteChecksumTask) where
  next-Starts :
      {A : Type 0} (r : Result A) (f : A → M (Unit {0})) (t : Trace)
      → ((a : A) → Starts task (f a t))
      → Starts task (next r f t)
  next-Starts (ok a) f t h = h a
  next-Starts (err e) f t h = tt
  next-Starts panic f t h = tt

  >>=-Starts :
      {A : Type 0} (m : M A) (f : A → M (Unit {0}))
      → ((a : A) (t : Trace) → Starts task (f a t))
      → (t : Trace) → Starts task ((m >>= f) t)
  >>=-Starts m f h t = next-Starts (m t).0 f (m t).1 (λ a. h a (m t).1)

  finish_on_error-Starts :
      (r : Result (Unit {0})) (t : Trace) → Starts task (r, t) → Starts task (finish_on_error r t)
  unfolding finish_on_error
  finish_on_error-Starts (ok u) t h = h
  finish_on_error-Starts (err e) t h = tt
  finish_on_error-Starts panic t h = tt

  guard-Starts : (b : Bool) (e : Error) (t : Trace) → Sent task t → Starts task (guard b e, t)
  guard-Starts true e t h = h
  guard-Starts false e t h = tt

  module _ (lib : Libpq) where
    send-Starts :
        (t : Trace) → Starts task (send lib (checksum_transaction_sql task.checksum_sql) t)
    unfolding send Sent
    send-Starts t =
        let sql = checksum_transaction_sql task.checksum_sql in
        elim (Bool-cases (contains_char 0 sql)) [
          | inl e ↦ rw e tt
          | inr e ↦ rw e (
              guard-Starts (same_int (lib.on_send_query t sql) (pos 1)) Error.send_failed
                (send_query sql ∷ t) (inl refl))
        ]

    pub start-Starts : (t : Trace) → Starts task (start lib task t)
    unfolding start or_finish
    start-Starts =
        let timeouts = set_query_timeouts lib task.statement_timeout_ms task.lock_timeout_ms in
        let run = send lib (checksum_transaction_sql task.checksum_sql) in
        let prepare : M (Unit {0}) = timeouts >> (nonblocking lib true >> run) in
        let connecting = connect_with_timeout lib task.dsn task.connect_timeout_seconds in
        >>=-Starts (lift (guard (is_positive task.task_id) Error.task_id_not_positive))
          (λ u. connecting >> or_finish prepare)
          (λ u.
            >>=-Starts connecting (λ v. or_finish prepare)
              (λ v t. finish_on_error-Starts (prepare t).0 (prepare t).1 (
                >>=-Starts timeouts (λ w. nonblocking lib true >> run)
                  (λ w. >>=-Starts (nonblocking lib true) (λ x. run) (λ x. send-Starts)) t)))

module _ (lib : Libpq) (task : RemoteChecksumTask) where
  -- What a round of `try_finish` leaves.
  abbrev Polled : Result Poll × Trace → Type 0
  Polled (ok waiting, t) = Sent task t
  Polled (ok (again c), t) = Sent task t × SourceIfAny lib task c
  Polled (ok (finished c), t) = Sent task t × Source lib task c
  Polled (err e, t) = Sent task t
  Polled (panic, t) = Sent task t

  complete-Polled :
      (c : Option RemoteChecksum) (t : Trace)
      → Sent task t
      → SourceIfAny lib task c
      → Polled (complete c, t)
  unfolding complete
  complete-Polled none t h s = h
  complete-Polled (some c) t h s = (h, s)

  if-Polled :
      (b : Bool) (m k : Result Poll) (t : Trace)
      → Polled (m, t)
      → Polled (k, t)
      → Polled (if b then m else k, t)
  if-Polled true m k t hm hk = hm
  if-Polled false m k t hm hk = hk

  parsed-Polled :
      (p : Result RemoteChecksum) (t : Trace)
      → Sent task t
      → ((c : RemoteChecksum) → p ≡ ok c → Source lib task c)
      → Polled (Base.◌>>=◌ p (λ c. ok (again (some c))), t)
  parsed-Polled (ok c) t h s = (h, s c refl)
  parsed-Polled (err e) t h s = h
  parsed-Polled panic t h s = h

  read-Polled :
      (c : Option RemoteChecksum) (r : PgResult) (t t' : Trace)
      → Sent task t
      → Sent task t'
      → lib.on_get_result t ≡ some r
      → SourceIfAny lib task c
      → Polled (read_result c r, t')
  unfolding read_result
  read-Polled none r t t' h h' got s =
      if-Polled (same_int r.status command_ok) _ _ t' (h', s)
        (if-Polled (same_int r.status tuples_ok) _ _ t'
          (parsed-Polled (parse_checksum_result r) t' h' (λ c parsed. (t, r, h, got, parsed))) h')
  read-Polled (some c) r t t' h h' got s =
      if-Polled (same_int r.status command_ok) _ _ t' (h', s)
        (if-Polled (same_int r.status tuples_ok) _ _ t' h' h')

  with_next-Polled :
      (c : Option RemoteChecksum) (t : Trace) (o : Option PgResult)
      → Sent task t
      → lib.on_get_result t ≡ o
      → SourceIfAny lib task c
      → Polled (with_next (λ next. lift (read_next c next)) o t)
  unfolding with_next read_next Sent
  with_next-Polled c t none h got s = complete-Polled c _ (inr h) s
  with_next-Polled c t (some r) h got s =
      read-Polled c r t (clear ∷ get_result ∷ t) h (inr (inr h)) got s

  answer-Polled :
      (body : M Poll) (t : Trace) (answer : Bool)
      → Sent task t
      → ((t1 : Trace) → Sent task t1 → Polled (body t1))
      → Polled ((if answer then lift (ok waiting) else body) t)
  answer-Polled body t true h k = h
  answer-Polled body t false h k = k t h

  consumed-Polled :
      (test : Bool) (e : Error) (m : M Poll) (t : Trace)
      → Sent task t
      → Polled (m t)
      → Polled (next (guard test e) (λ u. m) t)
  consumed-Polled true e m t h k = k
  consumed-Polled false e m t h k = h

  poll-Polled :
      (c : Option RemoteChecksum) (t : Trace)
      → Sent task t
      → SourceIfAny lib task c
      → Polled (poll lib c t)
  unfolding poll consume busy with_next_result Sent
  poll-Polled c t h s =
      let t1 : Trace = consume_input ∷ t in
      let read : M Poll = with_next_result lib (λ next. lift (read_next c next)) in
      let choose : Bool → M Poll = λ is_busy. if is_busy then lift (ok waiting) else read in
      consumed-Polled (same_int (lib.on_consume_input t) (pos 1)) Error.consume_failed
        (busy lib >>= choose) t1 (inr h)
        (answer-Polled read _ (same_int (lib.on_is_busy t1) (pos 1)) (inr (inr h))
          (λ t2 h2. with_next-Polled c t2 (lib.on_get_result t2) h2 refl s))

  -- `try_finish` keeps what is known of the task, and its result is that of the task's query.
  abbrev pub Held : Finish → Type 0
  Held none = Unit
  Held (some (ok none, b)) = Sourced lib task b
  Held (some (ok (some result), b)) = Source lib task result.checksum
  Held (some (err e, b)) = Sourced lib task b
  Held (some (panic, b)) = Sourced lib task b

  after_poll-Held :
      (loop : ActiveChecksumTask → Finish) (a : ActiveChecksumTask) (r : Result Poll) (t : Trace)
      → ((b : ActiveChecksumTask) → Sourced lib task b → Held (loop b))
      → SourceIfAny lib task a.checksum
      → Polled (r, t)
      → Held (after_poll loop a r t)
  unfolding after_poll result_of
  after_poll-Held loop a (ok waiting) t hl s h = (h, s)
  after_poll-Held loop a (ok (finished c)) t hl s h = h.1
  after_poll-Held loop a (ok (again c)) t hl s h = hl (record a { trace = t; checksum = c }) h
  after_poll-Held loop a (err e) t hl s h = (h, s)
  after_poll-Held loop a panic t hl s h = (h, s)

  pub try_finish-Held :
      (fuel : ℕ) (a : ActiveChecksumTask) → Sourced lib task a → Held (try_finish lib fuel a)
  unfolding try_finish
  try_finish-Held zero a h = tt
  try_finish-Held (suc fuel) a h =
      after_poll-Held (try_finish lib fuel) a _ _ (try_finish-Held fuel) h.1
        (poll-Polled a.checksum a.trace h.0 h.1)
