-- ===== src/Runs/Moves.antt =====
-- The steps of a run and its task, taken by any sessions in any order, and what holds of every
-- state that they reach.
use pgl_validate.Base.{◌≡◌, ◌≢◌, ◌↔◌, ◌⊎◌, Bool, true, some, arith}
use pgl_validate.Runs.{
  RunStatus, TaskStatus, Life, cancel, pause, resume, compare_async, claim_worker_task,
  append_table, finish_task, fail_task, run_worker_task, is_open, is_busy, is_paused, is_waiting,
  is_canceled, is_failed, is_running, is_stopped, is_task_canceled, is_resumable,
}

-- One statement of some session. `finish` and `fail` are statements of a worker.
pub data Move (l : Life) : Life → Type 0 where
  cancels : Move l (cancel l).1
  pauses : Move l (pause l).1
  resumes : (is_gone launched : Bool) → Move l (resume is_gone launched l).1
  claims : Move l (claim_worker_task l).1
  appends : (compared : Bool) → Move l (append_table compared l).1
  finishes : Move l (finish_task l)
  fails : Move l (fail_task l)
  runs : (compared : Bool) → Move l (run_worker_task compared l).1

pub data Reachable : Life → Type 0 where
  launches : (l : Life) → compare_async true ≡ some l → Reachable l
  moves : {l l' : Life} → Reachable l → Move l l' → Reachable l'

-- The task is completed with its run and only then, a failed run has a failed task, a task fails with
-- its run unless that is canceled, and a task is never starting nor canceled.
pub record Consistent (l : Life) : Type 0 where
  pub completed_with_run : l.task ≡ TaskStatus.completed ↔ l.run ≡ RunStatus.completed
  pub run_failed : l.run ≡ RunStatus.failed → l.task ≡ TaskStatus.failed
  pub task_failed :
      l.task ≡ TaskStatus.failed → (l.run ≡ RunStatus.failed) ⊎ (l.run ≡ RunStatus.canceled)
  pub never_starting : l.task ≢ TaskStatus.starting
  pub never_canceled : l.task ≢ TaskStatus.canceled

launched-Consistent : (l : Life) → compare_async true ≡ some l → Consistent l
unfolding compare_async
launched-Consistent l h = ground arith

cancel-Consistent : (l : Life) → Consistent l → Consistent (cancel l).1
unfolding cancel is_open is_busy is_paused
cancel-Consistent l h = ground arith

pause-Consistent : (l : Life) → Consistent l → Consistent (pause l).1
unfolding pause is_open is_busy is_paused is_waiting
pause-Consistent l h = ground arith

fail-Consistent : (l : Life) → Consistent l → Consistent (fail_task l)
unfolding fail_task is_canceled
fail-Consistent l h = ground arith

resume-Consistent :
    (is_gone launched : Bool) (l : Life) → Consistent l → Consistent (resume is_gone launched l).1
unfolding resume is_resumable is_open is_busy is_paused is_failed is_stopped is_running
resume-Consistent is_gone launched l h = ground arith

claim-Consistent : (l : Life) → Consistent l → Consistent (claim_worker_task l).1
unfolding claim_worker_task is_open is_busy is_paused is_task_canceled is_waiting is_running
claim-Consistent l h = ground arith

append-Consistent :
    (compared : Bool) (l : Life) → Consistent l → Consistent (append_table compared l).1
unfolding append_table is_open is_busy is_paused
append-Consistent compared l h = ground arith

finish-Consistent : (l : Life) → Consistent l → Consistent (finish_task l)
unfolding finish_task is_canceled
finish-Consistent l h = ground arith

run-Consistent :
    (compared : Bool) (l : Life) → Consistent l → Consistent (run_worker_task compared l).1
unfolding run_worker_task fail_task is_open is_busy is_paused is_task_canceled is_running
    is_canceled
run-Consistent compared l h = ground arith

Move-Consistent : {l l' : Life} → Move l l' → Consistent l → Consistent l'
Move-Consistent cancels h = cancel-Consistent _ h
Move-Consistent pauses h = pause-Consistent _ h
Move-Consistent (resumes is_gone launched) h = resume-Consistent is_gone launched _ h
Move-Consistent claims h = claim-Consistent _ h
Move-Consistent (appends compared) h = append-Consistent compared _ h
Move-Consistent finishes h = finish-Consistent _ h
Move-Consistent fails h = fail-Consistent _ h
Move-Consistent (runs compared) h = run-Consistent compared _ h

-- In every state that statements of any sessions reach in any order after `compare_async`, the
-- task is completed exactly when its run is, a failed run has a failed task, a task fails with its run
-- unless that is canceled, and the task is never `starting` or `canceled`.
pub reachable-Consistent : {l : Life} → Reachable l → Consistent l
reachable-Consistent (launches l h) = launched-Consistent l h
reachable-Consistent (moves r m) = Move-Consistent m (reachable-Consistent r)
