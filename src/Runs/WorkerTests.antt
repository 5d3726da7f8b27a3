-- ===== src/Runs/WorkerTests.antt =====
-- A server that keeps the rows of a run and its task, and a worker on it.
use pgl_validate.Base.{◌*◌, ◌≡◌, refl, Bool, true, false, [], ◌∷◌, none, some, if◌then◌else◌}
use pgl_validate.Base.Int.{pos}
use pgl_validate.Base.Text.{Bytes, codes, bytes_eq, starts_with}
use pgl_validate.Base.Digits.{format_decimal}
use pgl_validate.Transport.Dsn.{format_i32}
use pgl_validate.Worker.{Reply, raised, answered, transaction, waited, Event, History, Server}
use pgl_validate.Worker.Statements.{run_task_sql, finish_task_sql, fail_task_sql}
use pgl_validate.Worker.Main.{pgl_validate_worker_main}
use pgl_validate.Worker.Patience.{waits}
use pgl_validate.Runs.{
  RunStatus, TaskStatus, Life, Answer, returned, compare_async, claim_worker_task, finish_task,
  fail_task, run_worker_task, is_waiting, is_running, is_task_canceled,
}
use pgl_validate.Runs.Moves.{Reachable, launches, moves, claims, finishes, fails, runs}
use pgl_validate.Runs.Settle.{nothing, KeepsRows, Settles, pgl_validate_worker_main-Settles}

abbrev start_of_fail : Bytes
start_of_fail =
    codes "\n            WITH task AS (\n                UPDATE pgl_validate.worker_task"

-- What a statement does to the rows.
unfoldable effect : Bytes → Life → Life
effect sql l =
    if starts_with start_of_fail sql
    then fail_task l
    else if bytes_eq sql (finish_task_sql (pos 3))
    then finish_task l
    else if bytes_eq sql (run_task_sql (pos 3))
    then (run_worker_task true l).1
    else l

abbrev first_rows : Life
first_rows = record { run = RunStatus.planning; task = TaskStatus.running }

unfoldable rows_after : History → Life
rows_after [] = first_rows
rows_after (transaction sql ∷ t) = effect sql (rows_after t)
rows_after (_ ∷ t) = rows_after t

unfoldable reply_of : Answer (Unit {0}) → Reply (Unit {0})
reply_of Answer.raised = raised
reply_of (returned u) = answered tt

abbrev row_server : Server
row_server = record {
  get_text = λ t sql. answered (some (codes "[]"));
  get_int = λ t sql. answered none;
  get_bool = λ t sql. answered (some true);
  run = λ t sql.
      if bytes_eq sql (run_task_sql (pos 3))
      then reply_of (run_worker_task true (rows_after t)).0
      else answered tt;
  wait_latch = λ t ms. true;
  sighup_received = λ t. false;
  now = λ t. waits t * 10000;
  interval_ms = λ t. pos 60000;
  extra = codes "db";
  decode_list = λ text. answered (codes "a" ∷ []);
  load_dynamic = λ t. some (some (pos 7));
}

first_rows-Reachable : Reachable first_rows
unfolding compare_async claim_worker_task is_waiting is_running is_task_canceled
first_rows-Reachable =
    moves (launches (record { run = RunStatus.planning; task = TaskStatus.queued }) refl) claims

if-Reachable : (b : Bool) (m k : Life) → Reachable m → Reachable k → Reachable (if b then m else k)
if-Reachable true m k hm hk = hm
if-Reachable false m k hm hk = hk

effect-Reachable : (sql : Bytes) (l : Life) → Reachable l → Reachable (effect sql l)
unfolding effect
effect-Reachable sql l h = if-Reachable (starts_with start_of_fail sql) _ _ (moves h fails) (
    if-Reachable (bytes_eq sql (finish_task_sql (pos 3))) _ _ (moves h finishes)
      (if-Reachable (bytes_eq sql (run_task_sql (pos 3))) _ _ (moves h (runs true)) h))

rows-Reachable : (t : History) → Reachable (rows_after t)
unfolding rows_after
rows-Reachable [] = first_rows-Reachable
rows-Reachable (Event.attached ∷ t) = rows-Reachable t
rows-Reachable (Event.reloaded ∷ t) = rows-Reachable t
rows-Reachable (Event.logged ∷ t) = rows-Reachable t
rows-Reachable (Event.connected_to s ∷ t) = rows-Reachable t
rows-Reachable (Event.registered s ∷ t) = rows-Reachable t
rows-Reachable (transaction sql ∷ t) = effect-Reachable sql _ (rows-Reachable t)
rows-Reachable (waited ms ∷ t) = rows-Reachable t
rows-Reachable (Event.launched n s ∷ t) = rows-Reachable t

reply_of-answered : (a : Answer (Unit {0})) → reply_of a ≡ answered tt → a ≡ returned tt
unfolding reply_of
reply_of-answered Answer.raised h = absurd cc
reply_of-answered (returned u) h = refl

row_server-KeepsRows : KeepsRows row_server (pos 3) rows_after
unfolding rows_after effect starts_with bytes_eq finish_task_sql run_task_sql fail_task_sql
    format_i32 format_decimal
row_server-KeepsRows = record {
  reached = rows-Reachable;
  finished = λ t h. nothing;
  marked = λ t message h. nothing;
  ran = λ t h. (true, reply_of-answered _ h, nothing);
}

pgl_validate_worker_main-Settles_example :
    Settles row_server (pos 3) rows_after (pgl_validate_worker_main row_server 4 (some (pos 3)))
pgl_validate_worker_main-Settles_example =
    pgl_validate_worker_main-Settles row_server (pos 3) rows_after row_server-KeepsRows 4
