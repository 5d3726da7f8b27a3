-- ===== src/Runs/Phases.antt =====
-- What a user of a run sees: the phases of a run, which its statements implement.
use pgl_validate.Base.{◌≡◌, ◌⊎◌, inl, Bool, true, false, arith}
use pgl_validate.Runs.{
  RunStatus, TaskStatus, Life, completed, failed, canceled, cancel, pause, resume,
  claim_worker_task, append_table, finish_task, fail_task, run_worker_task, is_open, is_busy,
  is_paused, is_canceled, is_failed, is_running, is_stopped, is_task_canceled, is_resumable,
}
use pgl_validate.Runs.Moves.{
  Consistent, Move, cancels, pauses, resumes, claims, appends, finishes, fails, runs, Reachable,
  reachable-Consistent,
}

pub data Phase : Type 0 where
  open_run done_run failed_run canceled_run : Phase

unfoldable pub phase : RunStatus → Phase
phase completed = done_run
phase failed = failed_run
phase canceled = canceled_run
phase _ = open_run

-- The phases of a run: an open run ends in one of three ways, and a failed one can be opened again.
unfoldable pub can_follow : Phase → Phase → Bool
can_follow open_run _ = true
can_follow failed_run open_run = true
can_follow failed_run failed_run = true
can_follow done_run done_run = true
can_follow canceled_run canceled_run = true
can_follow _ _ = false

abbrev Follows : Life → Life → Type 0
Follows l l' = can_follow (phase l.run) (phase l'.run) ≡ true

-- A statement of a worker that comes after another worker of the same task has ended it: a completed
-- run becomes a failed one, or a failed one a completed one.
unfoldable pub EndedTwice : {l l' : Life} → Move l l' → Type 0
EndedTwice {l = l} {l' = l'} fails =
    (l.task ≡ TaskStatus.completed) × (phase l.run ≡ done_run) × (phase l'.run ≡ failed_run)
EndedTwice {l = l} {l' = l'} finishes =
    (l.task ≡ TaskStatus.failed) × (phase l.run ≡ failed_run) × (phase l'.run ≡ done_run)
EndedTwice _ = ⊥

cancel-Follows : (l : Life) → Follows l (cancel l).1
unfolding cancel is_open is_busy is_paused phase can_follow
cancel-Follows l = ground arith

pause-Follows : (l : Life) → Follows l (pause l).1
unfolding pause is_busy phase can_follow
pause-Follows l = ground arith

resume-Follows : (is_gone launched : Bool) (l : Life) → Follows l (resume is_gone launched l).1
unfolding resume is_resumable is_open is_busy is_paused is_failed is_stopped is_running phase
    can_follow
resume-Follows is_gone launched l = ground arith

claim-Follows : (l : Life) → Follows l (claim_worker_task l).1
unfolding claim_worker_task is_open is_busy is_paused phase can_follow
claim-Follows l = ground arith

append-Follows : (compared : Bool) (l : Life) → Follows l (append_table compared l).1
unfolding append_table is_open is_busy is_paused phase can_follow
append-Follows compared l = ground arith

finish-Follows :
    (l : Life)
    → Consistent l
    → (Follows l (finish_task l)) ⊎ (EndedTwice {l = l} {l' = finish_task l} finishes)
unfolding finish_task is_canceled phase can_follow EndedTwice
finish-Follows l h = ground arith

fail-Follows :
    (l : Life)
    → Consistent l
    → (Follows l (fail_task l)) ⊎ (EndedTwice {l = l} {l' = fail_task l} fails)
unfolding fail_task is_canceled phase can_follow EndedTwice
fail-Follows l h = ground arith

run-Follows : (compared : Bool) (l : Life) → Consistent l → Follows l (run_worker_task compared l).1
unfolding run_worker_task fail_task is_open is_busy is_paused is_task_canceled is_running
    is_canceled phase can_follow
run-Follows compared l h = ground arith

-- From a state that can be reached, every statement of any session leads to the same phase or to one
-- that may follow it, so that a canceled run stays canceled, a completed one completed, and a failed
-- one stays failed or is opened again. The only exceptions are the two statements that end a task,
-- when the task has ended already: `mark_task_failed` turns a completed run into a failed one, and
-- `finish_explicit_table_task` a failed one into a completed one.
pub Move-Follows :
    {l l' : Life} (m : Move l l')
    → Reachable l
    → (can_follow (phase l.run) (phase l'.run) ≡ true) ⊎ (EndedTwice m)
Move-Follows cancels r = inl (cancel-Follows _)
Move-Follows pauses r = inl (pause-Follows _)
Move-Follows (resumes is_gone launched) r = inl (resume-Follows is_gone launched _)
Move-Follows claims r = inl (claim-Follows _)
Move-Follows (appends compared) r = inl (append-Follows compared _)
Move-Follows finishes r = finish-Follows _ (reachable-Consistent r)
Move-Follows fails r = fail-Follows _ (reachable-Consistent r)
Move-Follows (runs compared) r = inl (run-Follows compared _ (reachable-Consistent r))
