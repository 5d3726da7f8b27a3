-- ===== src/Transport/FanOut.antt =====
-- transport/libpq.rs: `ActiveChecksumTask` and `fetch_checksums_batch`, the bounded fan-out.
--
-- The connections are numbered in the order in which they are opened. Each has its own trace, and
-- libpq's answers on it are a `Libpq` of its own: since a connection is at each of its traces only
-- once, these can be the answers of any run, whatever the other connections did meanwhile.
pub mod Wait
pub mod Batch
pub mod Tasks
pub mod Sources
pub mod Invariant
pub mod Schedule
pub mod Release
pub mod Bound
pub mod Explained
pub mod Polls
pub mod Load
pub mod Progress
pub mod Tests
use pgl_validate.Base.{
  ℕ, zero, suc, Bool, true, false, List, [], ◌∷◌, Option, none, some, Error, Result, ok, err, panic,
  guard, if◌then◌else◌,
}
use pgl_validate.Base
use pgl_validate.Base.Int.{ℤ, is_positive}
use pgl_validate.Base.Text.{Bytes}
use pgl_validate.Transport.QueryResult.{PgResult, command_ok, tuples_ok, same_int}
use pgl_validate.Transport.Session.{Trace, Libpq, M, ◌>>=◌, ◌>>◌, lift, set_query_timeouts}
use pgl_validate.Transport.Session.Async.{
  connect_with_timeout, or_finish, nonblocking, send, consume, busy, with_next_result,
}
use pgl_validate.Transport.Replies.Digest.{RemoteChecksum, parse_checksum_result}
use pgl_validate.Transport.Requests.Digest.{checksum_transaction_sql}

pub record RemoteChecksumTask : Type 0 where
  pub task_id : ℤ
  pub dsn : Bytes
  pub checksum_sql : Bytes
  pub connect_timeout_seconds : ℤ
  pub statement_timeout_ms : ℤ
  pub lock_timeout_ms : ℤ

pub record RemoteChecksumBatchResult : Type 0 where
  pub task_id : ℤ
  pub checksum : RemoteChecksum

-- `conn` is the number of the connection, and `trace` the calls made on it.
pub record ActiveChecksumTask : Type 0 where
  pub task : RemoteChecksumTask
  pub conn : ℕ
  pub trace : Trace
  pub checksum : Option RemoteChecksum

-- What one round of the loop of `try_finish` comes to.
pub data Poll : Type 0 where
  waiting : Poll
  finished : RemoteChecksum → Poll
  again : Option RemoteChecksum → Poll

-- `match result.status()`.
unfoldable pub read_result : Option RemoteChecksum → PgResult → Result Poll
read_result checksum r =
    if same_int r.status command_ok
    then ok (again checksum)
    else if same_int r.status tuples_ok
    then elim checksum [
      | some c ↦ err Error.more_than_one_result
      | none ↦ Base.◌>>=◌ (parse_checksum_result r) (λ c. ok (again (some c)))
    ]
    else err Error.unexpected_status

-- The end of the results.
unfoldable pub complete : Option RemoteChecksum → Result Poll
complete none = err Error.no_result
complete (some c) = ok (finished c)

unfoldable pub read_next : Option RemoteChecksum → Option PgResult → Result Poll
read_next checksum none = complete checksum
read_next checksum (some r) = read_result checksum r

module _ (lib : Libpq) where
  -- `ActiveChecksumTask::start`, on the connection's own trace.
  unfoldable pub start : RemoteChecksumTask → M (Unit {0})
  start task = do
    lift (guard (is_positive task.task_id) Error.task_id_not_positive)
    connect_with_timeout lib task.dsn task.connect_timeout_seconds
    or_finish do
      set_query_timeouts lib task.statement_timeout_ms task.lock_timeout_ms
      nonblocking lib true
      send lib (checksum_transaction_sql task.checksum_sql)

  -- One round of the loop of `try_finish`.
  unfoldable pub poll : Option RemoteChecksum → M Poll
  poll checksum = do
    consume lib
    is_busy ← busy lib
    if is_busy
        then lift (ok waiting)
        else with_next_result lib (λ next. lift (read_next checksum next))

-- What a round that ends `try_finish` gives back, and the task after it.
unfoldable pub result_of : ActiveChecksumTask → RemoteChecksum → RemoteChecksumBatchResult
result_of active c = record { task_id = active.task.task_id; checksum = c }

abbrev pub Finish : Type 0
Finish = Option (Result (Option RemoteChecksumBatchResult) × ActiveChecksumTask)

-- What a round leads to: the end of `try_finish`, or the rest of its loop.
unfoldable pub after_poll :
    (ActiveChecksumTask → Finish) → ActiveChecksumTask → Result Poll → Trace → Finish
after_poll loop active (ok waiting) t = some (ok none, record active { trace = t })
after_poll loop active (ok (finished c)) t =
    some (ok (some (result_of active c)), record active { trace = t; checksum = none })
after_poll loop active (ok (again c)) t = loop (record active { trace = t; checksum = c })
after_poll loop active (err e) t = some (err e, record active { trace = t })
after_poll loop active panic t = some (panic, record active { trace = t })

-- `ActiveChecksumTask::try_finish` with at most `fuel` rounds; `none` when they do not suffice.
unfoldable pub try_finish : Libpq → ℕ → ActiveChecksumTask → Finish
unfolding after_poll
try_finish lib zero active = none
try_finish lib (suc fuel) active =
    let (r, t) = poll lib active.checksum active.trace in
    after_poll (try_finish lib fuel) active r t
