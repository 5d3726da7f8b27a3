-- ===== src/Transport/FanOut/Tests.antt =====
-- The theorems on the fan-out applied to two tasks, one at a time, on servers that are busy at first.
use pgl_validate.Base.{
  ℕ, ◌≡◌, refl, Bool, true, false, List, [], ◌∷◌, Option, none, some, ltb, if◌then◌else◌, ◌==◌,
  arith, length,
}
use pgl_validate.Base.Int.{ℤ, pos}
use pgl_validate.Base.Text.{Bytes, codes}
use pgl_validate.Transport.QueryResult.{PgResult, same_int}
use pgl_validate.Transport.Session.{Libpq}
use pgl_validate.Transport.FanOut.{RemoteChecksumTask}
use pgl_validate.Transport.FanOut.Wait.{WaitEvents}
use pgl_validate.Transport.FanOut.Batch.{fetch_checksums_batch}
use pgl_validate.Transport.FanOut.Release.{Releases, fetch_checksums_batch-Releases}
use pgl_validate.Transport.FanOut.Schedule.{Complete, fetch_checksums_batch-Complete}
use pgl_validate.Transport.FanOut.Bound.{Bounded, fetch_checksums_batch-Bounded}
use pgl_validate.Transport.FanOut.Polls.{polls, Answers}
use pgl_validate.Transport.FanOut.Progress.{Ends, fetch_checksums_batch-Ends}

abbrev pub reply_cell : ℕ → Bytes
reply_cell column =
    if column == 0 then codes "18" else if column == 1 then codes "3" else codes "0a"

abbrev pub reply : ℤ → ℕ → PgResult
reply status columns = record {
  status = status;
  ntuples = 1;
  nfields = columns;
  getisnull = λ row column. column == 3;
  getvalue = λ row column. some (reply_cell column);
  getlength = λ row column. pos (length (reply_cell column));
}

-- The server is busy once, and then gives one checksum.
abbrev pub slow_server : Libpq
slow_server = record {
  on_connectdb = λ t dsn. some (pos 0);
  on_exec = λ t sql. some (reply (pos 1) 0);
  on_setnonblocking = λ t enabled. pos 0;
  on_send_query = λ t sql. pos 1;
  on_socket = λ t. pos 5;
  on_consume_input = λ t. pos 1;
  on_is_busy = λ t. if ltb (polls t) 1 then pos 1 else pos 0;
  on_get_result = λ t. if ltb (polls t) 3 then some (reply (pos 2) 4) else none;
}

abbrev pub servers : ℕ → Libpq
servers n = slow_server

abbrev pub calm : WaitEvents
calm = record {
  is_pg15 = false;
  is_pg16 = true;
  created = λ n owner events. true;
  add_latch = λ n. pos 0;
  add_socket = λ n socket. pos 1;
  ready_count = λ n found. some (pos 1);
  interrupted = λ n. false;
}

abbrev pub task : ℕ → RemoteChecksumTask
task id = record {
  task_id = pos id;
  dsn = codes "host=a";
  checksum_sql = codes "SELECT 1";
  connect_timeout_seconds = pos 5;
  statement_timeout_ms = pos 7;
  lock_timeout_ms = pos 7;
}

abbrev pub two_tasks : List RemoteChecksumTask
two_tasks = task 9 ∷ task 4 ∷ []

not_late :
    (late later : Bool)
    → late ≡ false
    → later ≡ false
    → (same_int (if late then pos 1 else pos 0) (pos 1) ≡ false)
      × (◌≡◌ {A = Option PgResult} (if later then some (reply (pos 2) 4) else none) none)
unfolding same_int
not_late false false p q = (refl, refl)
not_late true later p q = absurd cc
not_late late true p q = absurd cc

slow_server-Answers : (n : ℕ) → Answers 3 (servers n)
slow_server-Answers n t h =
    not_late (ltb (polls t) 1) (ltb (polls t) 3) (ground arith) (ground arith)

fetch_checksums_batch-Releases_example :
    Releases (fetch_checksums_batch servers calm 4 9 two_tasks (pos 1))
fetch_checksums_batch-Releases_example =
    fetch_checksums_batch-Releases servers calm 4 9 two_tasks (pos 1)

fetch_checksums_batch-Complete_example :
    Complete two_tasks (fetch_checksums_batch servers calm 4 9 two_tasks (pos 1))
fetch_checksums_batch-Complete_example =
    fetch_checksums_batch-Complete servers calm 4 9 two_tasks (pos 1)

fetch_checksums_batch-Ends_example : Ends (fetch_checksums_batch servers calm 4 9 two_tasks (pos 1))
fetch_checksums_batch-Ends_example =
    fetch_checksums_batch-Ends 3 servers calm 4 slow_server-Answers (λ n s found. (pos 1, refl))
      (omega arith) 9 two_tasks (pos 1) (omega arith)

fetch_checksums_batch-Bounded_example :
    Bounded 1 (fetch_checksums_batch servers calm 4 9 two_tasks (pos 1))
fetch_checksums_batch-Bounded_example =
    fetch_checksums_batch-Bounded servers calm 4 9 two_tasks (pos 1)
