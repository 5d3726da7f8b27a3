-- ===== src/Worker/Main.antt =====
-- worker.rs: the entry points of the workers, their loops, and how they are started.
use pgl_validate.Base.{
  ℕ, zero, suc, ◌+◌, Bool, true, false, leb, [], ◌∷◌, Option, none, some, if◌then◌else◌,
}
use pgl_validate.Base.Int.{ℤ, is_positive}
use pgl_validate.Base.Text.{Bytes, codes, is_blank}
use pgl_validate.Worker.{
  Reply, raised, failed, answered, attached, reloaded, logged, connected_to, registered,
  transaction, waited, launched, History, Server, W, ◌>>=◌, ◌>>◌, give, transact, unwrap_or,
  i32_as_u64,
}
use pgl_validate.Worker.Statements.{available_sql, dispatch_sql, claim_task_sql}
use pgl_validate.Worker.Task.{run_worker_task, mark_task_failed}

-- An ERROR in place of an error.
unfoldable pub or_raise : {A : Type 0} → Reply A → Reply A
or_raise (answered a) = answered a
or_raise (failed e) = raised
or_raise raised = raised

unfoldable pub some_or_raise : {A : Type 0} → Option A → Reply A
some_or_raise none = raised
some_or_raise (some a) = answered a

unfoldable pub register_scheduler_worker : Option Bytes → History → History
register_scheduler_worker none t = t
register_scheduler_worker (some database_name) t =
    if is_blank database_name then t else registered database_name ∷ t

abbrev pub Run : Type 0 → Type 0
Run A = Option (Reply A × History)

-- The scheduler goes on after a failed dispatch.
unfoldable pub after_dispatch :
    (History → Run (Unit {0})) → Reply (Unit {0}) × History → Run (Unit {0})
after_dispatch loop (answered u, t) = loop t
after_dispatch loop (failed e, t) = loop (logged ∷ t)
after_dispatch loop (raised, t) = some (raised, t)

module _ (server : Server) where
  unfoldable pub launch_worker_task : ℤ → W ℤ
  launch_worker_task task_id = do
    give (if is_positive task_id then answered tt else raised)
    found ← λ t. (
      or_raise (server.get_text t (codes "SELECT current_database()::text")),
      transaction (codes "SELECT current_database()::text") ∷ t,
    )
    database_name ← give (some_or_raise found)
    worker ← λ t. (some_or_raise (server.load_dynamic t), launched task_id database_name ∷ t)
    give (some_or_raise worker)

  -- No claim yet: the deadline is checked, and 100 milliseconds pass.
  unfoldable pub retry_claim : (History → Run Bool) → ℕ → History → Run Bool
  retry_claim loop deadline t =
      if leb deadline (server.now t)
      then some (answered false, logged ∷ t)
      else if server.wait_latch t 100
      then loop (waited 100 ∷ t)
      else some (answered false, waited 100 ∷ t)

  unfoldable pub after_claim : (History → Run Bool) → ℕ → Reply (Option Bool) → History → Run Bool
  after_claim loop deadline (answered (some true)) t = some (answered true, t)
  after_claim loop deadline (answered (some false)) t = some (answered false, t)
  after_claim loop deadline (answered none) t = retry_claim loop deadline t
  after_claim loop deadline (failed e) t = retry_claim loop deadline t
  after_claim loop deadline raised t = some (raised, t)

  -- The loop of `wait_for_task_claim` with at most `fuel` rounds.
  unfoldable pub claim_loop : ℕ → ℤ → ℕ → History → Run Bool
  unfolding after_claim
  claim_loop zero task_id deadline t = none
  claim_loop (suc fuel) task_id deadline t =
      after_claim (claim_loop fuel task_id deadline) deadline
        (server.get_bool t (claim_task_sql task_id)) (transaction (claim_task_sql task_id) ∷ t)

  unfoldable pub wait_for_task_claim : ℕ → ℤ → History → Run Bool
  wait_for_task_claim fuel task_id t = claim_loop fuel task_id (server.now t + 30000) t

  -- `if let Err(err) = result`.
  unfoldable pub report : ℤ → Reply (Unit {0}) × History → Reply (Unit {0}) × History
  report task_id (answered u, t) = (answered tt, t)
  report task_id (failed e, t) = mark_task_failed server task_id e t
  report task_id (raised, t) = (raised, t)

  -- What follows a claim.
  unfoldable pub execute : ℤ → W (Unit {0})
  execute task_id t =
      if server.wait_latch t 1
      then report task_id (run_worker_task server task_id (waited 1 ∷ t))
      else mark_task_failed server task_id (codes "worker terminated before task execution")
          (waited 1 ∷ t)

  unfoldable pub if_claimed : ℤ → Run Bool → Run (Unit {0})
  if_claimed task_id none = none
  if_claimed task_id (some (answered true, t)) = some (execute task_id t)
  if_claimed task_id (some (answered false, t)) = some (answered tt, t)
  if_claimed task_id (some (failed e, t)) = some (failed e, t)
  if_claimed task_id (some (raised, t)) = some (raised, t)

  unfoldable pub pgl_validate_worker_main : ℕ → Option ℤ → Run (Unit {0})
  pgl_validate_worker_main fuel none = some (answered tt, logged ∷ [])
  pgl_validate_worker_main fuel (some task_id) =
      if_claimed task_id
        (wait_for_task_claim fuel task_id (connected_to server.extra ∷ attached ∷ []))

  unfoldable pub dispatch_if : Bool → W (Unit {0})
  dispatch_if false = give (answered tt)
  dispatch_if true = transact server.run (codes "could not dispatch due schedules: ") dispatch_sql

  unfoldable pub dispatch_due_schedules : W (Unit {0})
  dispatch_due_schedules = do
    available ←
        transact server.get_bool (codes "could not check pgl_validate scheduler availability: ")
          available_sql
    dispatch_if (unwrap_or available false)

  -- `if BackgroundWorker::sighup_received()`.
  unfoldable pub reload : History → History
  reload t = if server.sighup_received t then reloaded ∷ t else t

  -- The loop of `pgl_validate_scheduler_main` with at most `fuel` rounds.
  unfoldable pub scheduler_loop : ℕ → History → Run (Unit {0})
  unfolding after_dispatch
  scheduler_loop zero t = none
  scheduler_loop (suc fuel) t =
      let t1 = reload t in
      let interval = i32_as_u64 (server.interval_ms t1) in
      let rest =
        after_dispatch (scheduler_loop fuel) (dispatch_due_schedules (waited interval ∷ t1)) in
      if server.wait_latch t1 interval then rest else some (answered tt, waited interval ∷ t1)

  unfoldable pub pgl_validate_scheduler_main : ℕ → Run (Unit {0})
  pgl_validate_scheduler_main fuel = scheduler_loop fuel (connected_to server.extra ∷ attached ∷ [])
