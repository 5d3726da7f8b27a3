-- ===== src/Worker/Tests.antt =====
-- The theorems on the workers applied to a small server with a task of two tables.
use pgl_validate.Base.{
  ℕ, ◌+◌, ◌*◌, ◌≤◌, ◌≡◌, refl, true, false, [], ◌∷◌, none, some, ltb, arith, if◌then◌else◌,
}
use pgl_validate.Base.Int.{pos}
use pgl_validate.Base.Text.{codes}
use pgl_validate.Worker.{
  failed, answered, attached, connected_to, logged, waited, transaction, History, Server, transact,
  with_context, i32_as_u64,
}
use pgl_validate.Worker.Statements.{table_list_sql, finish_task_sql, available_sql, dispatch_sql}
use pgl_validate.Worker.Task.{
  run_worker_task, explicit_table_list_json, run_request, run_table_list, run_tables, run_one_table,
  maybe_sleep_once_after_table, maybe_fail_once_after_table, is_due, finish_explicit_table_task,
}
use pgl_validate.Worker.Main.{
  Run, dispatch_if, dispatch_due_schedules, after_dispatch, reload, scheduler_loop,
  pgl_validate_worker_main, pgl_validate_scheduler_main,
}
use pgl_validate.Worker.Scheduler.{Stopped, pgl_validate_scheduler_main-Stopped}
use pgl_validate.Worker.Order.{Commits, run_worker_task-Commits}
use pgl_validate.Worker.Claim.{Accounted, pgl_validate_worker_main-Accounted}
use pgl_validate.Worker.Patience.{waits, Ends, pgl_validate_worker_main-Ends}

-- Every statement succeeds, a task is there after one wait, and a wait lasts for 10 seconds.
abbrev small_server : Server
small_server = record {
  get_text = λ t sql. answered (some (codes "[]"));
  get_int = λ t sql. answered none;
  get_bool = λ t sql. answered (if ltb (waits t) 1 then none else some true);
  run = λ t sql. answered tt;
  wait_latch = λ t ms. true;
  sighup_received = λ t. false;
  now = λ t. waits t * 10000;
  interval_ms = λ t. pos 60000;
  extra = codes "db";
  decode_list = λ text. answered (codes "a" ∷ codes "b" ∷ []);
  load_dynamic = λ t. some (some (pos 7));
}

abbrev task_history : History
task_history = (run_worker_task small_server (pos 3) []).1

task_succeeds : run_worker_task small_server (pos 3) [] ≡ (answered tt, task_history)
unfolding run_worker_task explicit_table_list_json run_request run_table_list run_tables
    run_one_table maybe_sleep_once_after_table maybe_fail_once_after_table is_due
    finish_explicit_table_task transact with_context
task_succeeds = refl

run_worker_task-Commits_example :
    (t1 : History) × Commits small_server
      (pos 3)
      (codes "a" ∷ codes "b" ∷ [])
      (transaction (table_list_sql (pos 3)) ∷ [])
      t1
    × (small_server.run t1 (finish_task_sql (pos 3)) ≡ answered tt)
    × (task_history ≡ transaction (finish_task_sql (pos 3)) ∷ t1)
run_worker_task-Commits_example =
    run_worker_task-Commits small_server (pos 3) [] (codes "[]") (codes "a") (codes "b" ∷ []) refl
      refl task_succeeds

small_passes :
    (t : History)
    → 3 ≤ waits t
    → small_server.now (connected_to small_server.extra ∷ attached ∷ []) + 30000
      ≤ small_server.now t
unfolding waits
small_passes t h = omega arith

pgl_validate_worker_main-Ends_example :
    Ends (pgl_validate_worker_main small_server 4 (some (pos 3)))
pgl_validate_worker_main-Ends_example =
    pgl_validate_worker_main-Ends small_server (pos 3) 3 4 small_passes (omega arith)

pgl_validate_worker_main-Accounted_example :
    Accounted small_server (pos 3) (pgl_validate_worker_main small_server 4 (some (pos 3)))
pgl_validate_worker_main-Accounted_example =
    pgl_validate_worker_main-Accounted small_server (pos 3) 4

-- The server ends after one round.
abbrev ending_server : Server
ending_server = record small_server { wait_latch = λ t ms. ltb (waits t) 1 }

ending_server-stops : (t : History) (ms : ℕ) → 1 ≤ waits t → ending_server.wait_latch t ms ≡ false
ending_server-stops t ms h = ground arith

-- Every dispatch fails, and the scheduler goes on until it is told to end.
abbrev failing_server : Server
failing_server = record ending_server {
  get_bool = λ t sql. answered (some true);
  run = λ t sql. failed (codes "no");
}

abbrev scheduled : Run (Unit {0})
scheduled = some (
  answered tt,
  waited 60000
      ∷ logged
      ∷ transaction dispatch_sql
      ∷ transaction available_sql
      ∷ waited 60000
      ∷ connected_to (codes "db")
      ∷ attached
      ∷ [],
)

goes_on : pgl_validate_scheduler_main failing_server 2 ≡ scheduled
unfolding pgl_validate_scheduler_main scheduler_loop reload dispatch_due_schedules dispatch_if
    after_dispatch transact with_context waits i32_as_u64
goes_on = refl

pgl_validate_scheduler_main-Stopped_example :
    Stopped failing_server (pgl_validate_scheduler_main failing_server 2)
pgl_validate_scheduler_main-Stopped_example =
    pgl_validate_scheduler_main-Stopped failing_server 1 2 ending_server-stops (omega arith)
