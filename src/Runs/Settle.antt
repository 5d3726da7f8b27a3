-- ===== src/Runs/Settle.antt =====
-- worker.rs over the rows of the run and its task: what a worker leaves in them when it ends, while
-- other sessions cancel and pause.
use mathlib.Core.Path.{subst}
use pgl_validate.Base.{
  ℕ, ◌≡◌, ◌≢◌, refl, sym, ap, ◌⊎◌, inl, inr, Bool, List, [], ◌∷◌, Option, none, some, arith,
}
use pgl_validate.Base.Int.{ℤ}
use pgl_validate.Base.Text.{Bytes}
use pgl_validate.Worker.{
  Reply, answered, failed, raised, transaction, waited, History, Server, with_context, transact,
}
use pgl_validate.Worker.Statements.{run_task_sql, finish_task_sql, fail_task_sql}
use pgl_validate.Worker.Task.{
  explicit_table_list_json, run_tables, run_whole_task, run_table_list, run_request,
  finish_explicit_table_task,
}
use pgl_validate.Worker.Task
use pgl_validate.Worker.Main.{Run, pgl_validate_worker_main}
use pgl_validate.Worker.Order.{next-eq-answered, with_context-eq-answered}
use pgl_validate.Worker.Claim.{OnlyClaims, Executed, Accounted, pgl_validate_worker_main-Accounted}
use pgl_validate.Runs.{
  RunStatus, TaskStatus, Life, returned, is_busy, is_paused, is_open, is_canceled, is_running,
  is_task_canceled, cancel, pause, finish_task, fail_task, run_worker_task,
}
use pgl_validate.Runs.Moves.{Consistent, Reachable, reachable-Consistent}

-- What other sessions do between two statements of the worker.
pub data Meanwhile (l : Life) : Life → Type 0 where
  nothing : Meanwhile l l
  others_cancel : {l1 : Life} → Meanwhile l l1 → Meanwhile l (cancel l1).1
  others_pause : {l1 : Life} → Meanwhile l l1 → Meanwhile l (pause l1).1

-- The server keeps the rows: `rows t` are the rows before the statement that follows `t`, and the
-- statements that end a task do what they say.
pub record KeepsRows (server : Server) (task_id : ℤ) (rows : History → Life) : Type 0 where
  pub reached : (t : History) → Reachable (rows t)
  pub finished :
      (t : History)
      → server.run t (finish_task_sql task_id) ≡ answered tt
      → Meanwhile (finish_task (rows t)) (rows (transaction (finish_task_sql task_id) ∷ t))
  pub marked :
      (t : History) (message : Bytes)
      → server.run t (fail_task_sql task_id message) ≡ answered tt
      → Meanwhile (fail_task (rows t)) (rows (transaction (fail_task_sql task_id message) ∷ t))
  pub ran :
      (t : History)
      → server.run t (run_task_sql task_id) ≡ answered tt
      → (compared : Bool) × ((run_worker_task compared (rows t)).0 ≡ returned tt)
        × Meanwhile
            (run_worker_task compared (rows t)).1
            (rows (transaction (run_task_sql task_id) ∷ t))

-- The run and the task ended in the same way, or the run is canceled.
pub data Settled (l : Life) : Type 0 where
  both_completed : l.run ≡ RunStatus.completed → l.task ≡ TaskStatus.completed → Settled l
  both_failed : l.run ≡ RunStatus.failed → l.task ≡ TaskStatus.failed → Settled l
  run_canceled : l.run ≡ RunStatus.canceled → Settled l

finish-Settled : (l : Life) → Settled (finish_task l)
unfolding finish_task is_canceled
finish-Settled l = ground arith

fail-Settled : (l : Life) → Settled (fail_task l)
unfolding fail_task is_canceled
fail-Settled l = ground arith

cancel-Settled : (l : Life) → Settled l → Settled (cancel l).1
unfolding cancel is_open is_busy is_paused
cancel-Settled l h = ground arith

pause-Settled : (l : Life) → Settled l → Settled (pause l).1
unfolding pause is_busy
pause-Settled l h = ground arith

run-Settled :
    (compared : Bool) (l : Life)
    → Consistent l
    → (run_worker_task compared l).0 ≡ returned tt
    → Settled (run_worker_task compared l).1
unfolding run_worker_task fail_task is_open is_busy is_paused is_task_canceled is_running
    is_canceled
run-Settled compared l c h = ground arith

meanwhile-Settled : {l l' : Life} → Meanwhile l l' → Settled l → Settled l'
meanwhile-Settled nothing h = h
meanwhile-Settled (others_cancel m) h = cancel-Settled _ (meanwhile-Settled m h)
meanwhile-Settled (others_pause m) h = pause-Settled _ (meanwhile-Settled m h)

module _ (server : Server) (task_id : ℤ) where
  -- The last statement was `sql`, and it succeeded.
  abbrev Last : Bytes → History → Type 0
  Last sql t' = (t : History) × (server.run t sql ≡ answered tt) × (t' ≡ transaction sql ∷ t)

  transact-Last :
      (context sql : Bytes) (t : History) {t' : History}
      → transact server.run context sql t ≡ (answered tt, t')
      → Last sql t'
  unfolding transact
  transact-Last context sql t h = (
    t,
    with_context-eq-answered context (server.run t sql) (ap (λ x. x.0) h),
    sym (ap (λ x. x.1) h),
  )

  -- A task that succeeds ends with one of two statements.
  abbrev Finished : History → Type 0
  Finished t' = Last (finish_task_sql task_id) t' ⊎ Last (run_task_sql task_id) t'

  list-Finished :
      (names : List Bytes) (t : History) {t' : History}
      → run_table_list server task_id names t ≡ (answered tt, t')
      → Finished t'
  unfolding run_table_list run_whole_task finish_explicit_table_task
  list-Finished [] t h = inr (transact-Last _ (run_task_sql task_id) t h)
  list-Finished (name ∷ names) t h =
      let run = run_tables server task_id 0 (name ∷ names) in
      let (u, ran, h1) = next-eq-answered (run t).0 _ (run t).1 h in
      inl (transact-Last _ (finish_task_sql task_id) (run t).1 h1)

  request-Finished :
      (request : Option Bytes) (t : History) {t' : History}
      → run_request server task_id request t ≡ (answered tt, t')
      → Finished t'
  unfolding run_request run_whole_task
  request-Finished none t h = inr (transact-Last _ (run_task_sql task_id) t h)
  request-Finished (some json) t h =
      let (names, decoded, h1) =
        next-eq-answered (with_context _ (server.decode_list json)) _ t h in
      list-Finished names t h1

  task-Finished :
      (t : History) {t' : History}
      → Task.run_worker_task server task_id t ≡ (answered tt, t')
      → Finished t'
  unfolding Task.run_worker_task
  task-Finished t h =
      let asked = explicit_table_list_json server task_id in
      let (request, found, h1) = next-eq-answered (asked t).0 _ (asked t).1 h in
      request-Finished request (asked t).1 h1

module _ (server : Server) (task_id : ℤ) (rows : History → Life) where
  -- The statement that marks the task failed came last, and it did not succeed itself.
  abbrev pub Unrecorded : History → Type 0
  Unrecorded t' =
      (message : Bytes) × (t : History) × (server.run t (fail_task_sql task_id message)
        ≢ answered tt)
      × (t' ≡ transaction (fail_task_sql task_id message) ∷ t)

  -- How a worker leaves the rows that ends without an ERROR.
  abbrev pub Settles : Run (Unit {0}) → Type 0
  Settles none = Unit
  Settles (some (answered u, t)) = OnlyClaims task_id t ⊎ (Settled (rows t) ⊎ Unrecorded t)
  Settles (some (failed e, t)) = ⊥
  Settles (some (raised, t)) = Unit

  module _ (keeps : KeepsRows server task_id rows) where
    Finished-Settled : {t' : History} → Finished server task_id t' → Settled (rows t')
    Finished-Settled (inl (t, done, e)) =
        subst (λ x. Settled (rows x)) (sym e)
          (meanwhile-Settled (keeps.finished t done) (finish-Settled (rows t)))
    Finished-Settled (inr (t, done, e)) =
        let (compared, answer, meanwhile) = keeps.ran t done in
        subst (λ x. Settled (rows x)) (sym e)
          (meanwhile-Settled meanwhile
            (run-Settled compared (rows t) (reachable-Consistent (keeps.reached t)) answer))

    marked-Settled :
        (message : Bytes) (t : History) (r : Reply (Unit {0}))
        → server.run t (fail_task_sql task_id message) ≡ r
        → Settled (rows (transaction (fail_task_sql task_id message) ∷ t))
          ⊎ (server.run t (fail_task_sql task_id message) ≢ answered tt)
    marked-Settled message t (answered u) h =
        inl (meanwhile-Settled (keeps.marked t message h) (fail-Settled (rows t)))
    marked-Settled message t (failed e) h = inr (λ k. absurd cc)
    marked-Settled message t raised h = inr (λ k. absurd cc)

    Executed-Settles :
        (t : History) {t' : History}
        → Executed server task_id t t'
        → Settled (rows t') ⊎ Unrecorded t'
    Executed-Settles t (inl ran) =
        inl (Finished-Settled (task-Finished server task_id (waited 1 ∷ t) ran))
    Executed-Settles t {t' = t'} (inr (message, t1, e, why)) =
        recorded (marked-Settled message t1 _ refl)
      where
        recorded :
            Settled (rows (transaction (fail_task_sql task_id message) ∷ t1))
              ⊎ (server.run t1 (fail_task_sql task_id message) ≢ answered tt)
            → Settled (rows t') ⊎ Unrecorded t'
        recorded (inl settled) = inl (subst (λ x. Settled (rows x)) (sym e) settled)
        recorded (inr refused) = inr (message, t1, refused, e)

    Accounted-Settles : (out : Run (Unit {0})) → Accounted server task_id out → Settles out
    Accounted-Settles none h = tt
    Accounted-Settles (some (answered u, t)) (inl only) = inl only
    Accounted-Settles (some (answered u, t)) (inr (t0, claimed, done)) =
        inr (Executed-Settles _ done)
    Accounted-Settles (some (failed e, t)) h = h
    Accounted-Settles (some (raised, t)) h = tt

    -- The server keeps the rows of the run and the task, and other sessions only cancel and pause.
    -- Then a worker that ends without an ERROR, and that ran any statement but claims, leaves the run
    -- and its task both completed or both failed, or the run canceled, or the statement that marks
    -- the task failed was its last one and did not succeed itself.
    pub pgl_validate_worker_main-Settles :
        (fuel : ℕ) → Settles (pgl_validate_worker_main server fuel (some task_id))
    pgl_validate_worker_main-Settles fuel =
        Accounted-Settles _ (pgl_validate_worker_main-Accounted server task_id fuel)
