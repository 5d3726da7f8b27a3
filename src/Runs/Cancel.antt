-- ===== src/Runs/Cancel.antt =====
-- `cancel` in sql/bootstrap/070_reporting.sql: a canceled run stays canceled.
use pgl_validate.Base.{◌≡◌, Bool, true, arith}
use pgl_validate.Runs.{
  RunStatus, Life, raised, cancel, pause, resume, claim_worker_task, append_table, finish_task,
  fail_task, run_worker_task, is_open, is_busy, is_paused, is_canceled, is_failed, is_stopped,
  is_resumable,
}
use pgl_validate.Runs.Moves.{Move, cancels, pauses, resumes, claims, appends, finishes, fails, runs}

-- Any statements, one after the other.
pub data Moves (l : Life) : Life → Type 0 where
  stays : Moves l l
  then_move : {l1 l2 : Life} → Moves l l1 → Move l1 l2 → Moves l l2

abbrev Canceled : Life → Type 0
Canceled l = l.run ≡ RunStatus.canceled

resume-Canceled :
    (is_gone launched : Bool) (l : Life) → Canceled l → Canceled (resume is_gone launched l).1
unfolding resume is_resumable is_open is_busy is_paused is_failed is_stopped
resume-Canceled is_gone launched l h = ground arith

run-Canceled : (compared : Bool) (l : Life) → Canceled l → Canceled (run_worker_task compared l).1
unfolding run_worker_task fail_task is_open is_busy is_paused is_canceled
run-Canceled compared l h = ground arith

Move-Canceled : {l l' : Life} → Move l l' → Canceled l → Canceled l'
unfolding cancel pause claim_worker_task append_table finish_task fail_task is_open is_busy
    is_paused is_canceled
Move-Canceled cancels h = ground arith
Move-Canceled pauses h = ground arith
Move-Canceled (resumes is_gone launched) h = resume-Canceled is_gone launched _ h
Move-Canceled claims h = ground arith
Move-Canceled (appends compared) h = ground arith
Move-Canceled finishes h = ground arith
Move-Canceled fails h = ground arith
Move-Canceled (runs compared) h = run-Canceled compared _ h

Moves-Canceled : {l l' : Life} → Moves l l' → Canceled l → Canceled l'
Moves-Canceled stays h = h
Moves-Canceled (then_move ms m) h = Move-Canceled m (Moves-Canceled ms h)

append-Canceled : (compared : Bool) (l : Life) → Canceled l → (append_table compared l).0 ≡ raised
unfolding append_table is_open is_busy is_paused
append-Canceled compared l h = ground arith

cancel-Canceled : (l : Life) → (cancel l).0 ≡ true → Canceled (cancel l).1
unfolding cancel is_open is_busy is_paused
cancel-Canceled l h = ground arith

-- When `cancel` returns true, the run is canceled in every state that statements of any sessions
-- reach then, also those of the worker that runs its task, and no table is appended to it any more.
pub cancel-Final :
    (l : Life) {l' : Life} (compared : Bool)
    → (cancel l).0 ≡ true
    → Moves (cancel l).1 l'
    → (l'.run ≡ RunStatus.canceled) × ((append_table compared l').0 ≡ raised)
cancel-Final l compared h ms =
    let stays_canceled = Moves-Canceled ms (cancel-Canceled l h) in
    (stays_canceled, append-Canceled compared _ stays_canceled)
