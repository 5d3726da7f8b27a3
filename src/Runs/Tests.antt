-- ===== src/Runs/Tests.antt =====
-- Runs with their tasks, and the theorems on them applied to these.
use pgl_validate.Base.{◌≡◌, ◌⊎◌, refl, true}
use pgl_validate.Runs.{
  RunStatus, TaskStatus, Life, raised, cancel, pause, claim_worker_task, append_table, finish_task,
  fail_task, compare_async, is_busy, is_paused, is_open, is_canceled, is_waiting, is_running,
  is_task_canceled,
}
use pgl_validate.Runs.Moves.{
  Consistent, Reachable, launches, moves, claims, appends, finishes, reachable-Consistent,
}
use pgl_validate.Runs.Phases.{phase, can_follow, EndedTwice, Move-Follows}
use pgl_validate.Runs.Cancel.{stays, then_move, cancel-Final}

abbrev launched : Life
launched = record { run = RunStatus.planning; task = TaskStatus.queued }

abbrev claimed : Life
claimed = record { run = RunStatus.planning; task = TaskStatus.running }

abbrev appended : Life
appended = record { run = RunStatus.running; task = TaskStatus.running }

abbrev pub claimed-Reachable : Reachable claimed
unfolding compare_async claim_worker_task is_waiting is_running is_task_canceled
claimed-Reachable = moves (launches launched refl) claims

appended-Reachable : Reachable appended
unfolding append_table is_open is_busy is_paused
appended-Reachable = moves claimed-Reachable (appends true)

reachable-Consistent_example : Consistent appended
reachable-Consistent_example = reachable-Consistent appended-Reachable

Move-Follows_example :
    (can_follow (phase RunStatus.running) (phase (finish_task appended).run) ≡ true)
    ⊎ (EndedTwice {l = appended} {l' = finish_task appended} finishes)
Move-Follows_example = Move-Follows finishes appended-Reachable

cancels_appended : (cancel appended).0 ≡ true
unfolding cancel is_open is_busy is_paused
cancels_appended = refl

cancel-Final_example :
    ((finish_task (cancel appended).1).run ≡ RunStatus.canceled)
    × ((append_table true (finish_task (cancel appended).1)).0 ≡ raised)
cancel-Final_example = cancel-Final appended true cancels_appended (then_move stays finishes)

-- A run that is canceled after its last table keeps a running task.
canceled_late :
    finish_task (cancel appended).1 ≡ record { run = RunStatus.canceled; task = TaskStatus.running }
unfolding finish_task cancel is_open is_busy is_paused is_canceled
canceled_late = refl

-- A run that is paused while its task runs is running again after the next table.
paused_run : (append_table true (pause appended).1).1 ≡ appended
unfolding append_table pause is_open is_busy is_paused is_waiting
paused_run = refl

-- A task that runs can be claimed again: when one of its workers has finished it, the next table of
-- the other one raises, and the completed run becomes a failed one.
claimed_twice : claim_worker_task claimed ≡ (true, claimed)
unfolding claim_worker_task is_waiting is_running is_task_canceled
claimed_twice = refl

raises_when_finished :
    append_table true (finish_task appended)
    ≡ (raised, record { run = RunStatus.completed; task = TaskStatus.completed })
unfolding append_table finish_task is_open is_busy is_paused is_canceled
raises_when_finished = refl

fails_when_finished :
    fail_task (finish_task appended) ≡ record { run = RunStatus.failed; task = TaskStatus.failed }
unfolding fail_task finish_task is_canceled
fails_when_finished = refl
