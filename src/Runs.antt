-- ===== src/Runs.antt =====
-- The statuses of an asynchronous run and of its worker task, and each statement that changes them:
-- sql/bootstrap/070_reporting.sql (`cancel`, `pause`, `resume`, `compare_async`,
-- `_claim_worker_task`, `_run_worker_task`), the updates of the parent run by `compare` in
-- sql/bootstrap/050_compare.sql, and the statements of worker.rs that end a task.
--
-- A statement is one step: it runs in a transaction of its own and locks the rows that it changes.
-- One that raises changes nothing. A run that `compare_async` made has one task.
pub mod Moves
pub mod Phases
pub mod Cancel
pub mod Settle
pub mod Tests
pub mod WorkerTests
use pgl_validate.Base.{Bool, true, false, not, ◌&&◌, ◌||◌, Option, none, some, if◌then◌else◌}

pub data RunStatus : Type 0 where
  planning fencing running paused rechecking completed failed canceled : RunStatus

pub data TaskStatus : Type 0 where
  queued starting running paused completed failed canceled : TaskStatus

-- The two rows.
pub record Life : Type 0 where
  pub run : RunStatus
  pub task : TaskStatus

-- What a statement answers: an exception, or a value.
pub data Answer (A : Type 0) : Type 0 where
  raised : Answer A
  returned : A → Answer A

-- `status IN ('planning','fencing','running','rechecking')`.
unfoldable pub is_busy : RunStatus → Bool
is_busy planning = true
is_busy fencing = true
is_busy running = true
is_busy rechecking = true
is_busy _ = false

unfoldable pub is_paused : RunStatus → Bool
is_paused paused = true
is_paused _ = false

unfoldable pub is_failed : RunStatus → Bool
is_failed failed = true
is_failed _ = false

unfoldable pub is_canceled : RunStatus → Bool
is_canceled canceled = true
is_canceled _ = false

-- `status IN ('planning','fencing','running','paused','rechecking')`.
unfoldable pub is_open : RunStatus → Bool
is_open r = is_busy r || is_paused r

unfoldable pub is_waiting : TaskStatus → Bool
is_waiting queued = true
is_waiting starting = true
is_waiting _ = false

unfoldable pub is_running : TaskStatus → Bool
is_running running = true
is_running _ = false

unfoldable pub is_stopped : TaskStatus → Bool
is_stopped paused = true
is_stopped failed = true
is_stopped _ = false

unfoldable pub is_task_canceled : TaskStatus → Bool
is_task_canceled canceled = true
is_task_canceled _ = false

unfoldable pub cancel : Life → Bool × Life
cancel l = if is_open l.run then (true, record l { run = canceled }) else (false, l)

unfoldable pub pause : Life → Bool × Life
pause l =
    if is_busy l.run
    then (true, record { run = paused; task = if is_waiting l.task then paused else l.task })
    else (false, l)

-- The task can be put into the queue again: `is_gone` is whether it has a worker's process that is
-- not in `pg_stat_activity`.
unfoldable pub is_resumable : Bool → Life → Bool
is_resumable is_gone l =
    (is_stopped l.task || ((is_running l.task || is_starting l.task) && is_gone))
    && (is_open l.run || is_failed l.run)
  where
    is_starting : TaskStatus → Bool
    is_starting starting = true
    is_starting _ = false

-- `launched` is whether `launch_worker_task` returns.
unfoldable pub resume : Bool → Bool → Life → Answer Bool × Life
resume is_gone launched l =
    if is_resumable is_gone l
    then (if launched
        then (returned true, record { run = planning; task = queued })
        else (raised, l))
    else if is_paused l.run
    then (returned true, record l { run = running })
    else (returned false, l)

unfoldable pub compare_async : Bool → Option Life
compare_async launched = if launched then some (record { run = planning; task = queued }) else none

-- `_claim_worker_task` of a task that exists.
unfoldable pub claim_worker_task : Life → Bool × Life
claim_worker_task l =
    if is_task_canceled l.task
    then (false, if is_open l.run then record l { run = canceled } else l)
    else if is_waiting l.task || is_running l.task
    then (true, record l { task = running })
    else (false, l)

-- `compare` of one table for a parent run that is kept open, and of a whole list for one that is
-- not: `compared` is whether the comparison itself comes to its end.
unfoldable pub append_table : Bool → Life → Answer (Unit {0}) × Life
append_table compared l =
    if is_open l.run && compared then (returned tt, record l { run = running }) else (raised, l)

-- The statement of `finish_explicit_table_task`.
unfoldable pub finish_task : Life → Life
finish_task l = if is_canceled l.run then l else record { run = completed; task = completed }

-- The statement of `mark_task_failed`, and the exception handler of `_run_worker_task`.
unfoldable pub fail_task : Life → Life
fail_task l = record { run = if is_canceled l.run then canceled else failed; task = failed }

unfoldable pub run_worker_task : Bool → Life → Answer (Unit {0}) × Life
run_worker_task compared l =
    if is_task_canceled l.task
    then (returned tt, if is_open l.run then record l { run = canceled } else l)
    else if is_running l.task
    then (
      returned tt,
      if is_open l.run && compared
          then record { run = completed; task = completed }
          else fail_task l,
    )
    else (raised, l)
