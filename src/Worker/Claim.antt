-- ===== src/Worker/Claim.antt =====
-- worker.rs: the claim of a task, and how a worker ends.
use mathlib.Core.Path.{subst}
use pgl_validate.Base.{
  ℕ, zero, suc, leb, ◌≡◌, refl, sym, ◌⊎◌, inl, inr, Bool, true, false, [], ◌∷◌, Option, none, some,
  if◌then◌else◌,
}
use pgl_validate.Base.Int.{ℤ}
use pgl_validate.Base.Text.{Bytes, codes}
use pgl_validate.Worker.{
  Reply, raised, failed, answered, attached, connected_to, transaction, waited, History, Server,
}
use pgl_validate.Worker.Statements.{claim_task_sql, fail_task_sql}
use pgl_validate.Worker.Task.{run_worker_task, ignore, mark_task_failed}
use pgl_validate.Worker.Main.{
  Run, retry_claim, after_claim, claim_loop, wait_for_task_claim, report, execute, if_claimed,
  pgl_validate_worker_main,
}

-- Every statement was the claim of the task.
unfoldable pub OnlyClaims : ℤ → History → Type 0
OnlyClaims task_id [] = Unit
OnlyClaims task_id (transaction sql ∷ t) = (sql ≡ claim_task_sql task_id) × OnlyClaims task_id t
OnlyClaims task_id (_ ∷ t) = OnlyClaims task_id t

module _ (server : Server) (task_id : ℤ) where
  -- Why a task is marked failed: it ran and failed, or the worker had to end first.
  abbrev pub Failed : History → Bytes → History → Type 0
  Failed t message t1 =
      (run_worker_task server task_id (waited 1 ∷ t) ≡ (failed message, t1))
      ⊎ ((message ≡ codes "worker terminated before task execution") × (t1 ≡ waited 1 ∷ t))

  -- The task ran and succeeded, or its failure was recorded last.
  abbrev pub Executed : History → History → Type 0
  Executed t t' =
      (run_worker_task server task_id (waited 1 ∷ t) ≡ (answered tt, t'))
      ⊎ ((message : Bytes) × (t1 : History) × (t'
            ≡ transaction (fail_task_sql task_id message) ∷ t1)
          × Failed t message t1)

  -- The claim was answered with yes after `t`, and before it nothing but the claim was asked.
  abbrev pub ClaimedAt : History → Type 0
  ClaimedAt t =
      OnlyClaims task_id t × (server.get_bool t (claim_task_sql task_id) ≡ answered (some true))

  abbrev Claimed : Run Bool → Type 0
  Claimed none = Unit
  Claimed (some (answered true, t)) =
      (t0 : History) × ClaimedAt t0 × (t ≡ transaction (claim_task_sql task_id) ∷ t0)
  Claimed (some (answered false, t)) = OnlyClaims task_id t
  Claimed (some (failed e, t)) = ⊥
  Claimed (some (raised, t)) = Unit

  retry_claim-Claimed :
      (loop : History → Run Bool) (deadline : ℕ) (t : History)
      → OnlyClaims task_id t
      → ((t1 : History) → OnlyClaims task_id t1 → Claimed (loop t1))
      → Claimed (retry_claim server loop deadline t)
  unfolding retry_claim OnlyClaims
  retry_claim-Claimed loop deadline t h hl =
      if-Claimed (leb deadline (server.now t)) _ _ h
        (if-Claimed (server.wait_latch t 100) _ _ (hl (waited 100 ∷ t) h) h)
    where
      if-Claimed :
          (b : Bool) (m k : Run Bool) → Claimed m → Claimed k → Claimed (if b then m else k)
      if-Claimed true m k hm hk = hm
      if-Claimed false m k hm hk = hk

  after_claim-Claimed :
      (loop : History → Run Bool) (deadline : ℕ) (answer : Reply (Option Bool)) (t : History)
      → OnlyClaims task_id t
      → server.get_bool t (claim_task_sql task_id) ≡ answer
      → ((t1 : History) → OnlyClaims task_id t1 → Claimed (loop t1))
      → Claimed (after_claim server loop deadline answer (transaction (claim_task_sql task_id) ∷ t))
  unfolding after_claim OnlyClaims
  after_claim-Claimed loop deadline (answered (some true)) t h e hl = (t, (h, e), refl)
  after_claim-Claimed loop deadline (answered (some false)) t h e hl = (refl, h)
  after_claim-Claimed loop deadline (answered none) t h e hl =
      retry_claim-Claimed loop deadline _ (refl, h) hl
  after_claim-Claimed loop deadline (failed m) t h e hl =
      retry_claim-Claimed loop deadline _ (refl, h) hl
  after_claim-Claimed loop deadline raised t h e hl = tt

  claim_loop-Claimed :
      (fuel deadline : ℕ) (t : History)
      → OnlyClaims task_id t
      → Claimed (claim_loop server fuel task_id deadline t)
  unfolding claim_loop
  claim_loop-Claimed zero deadline t h = tt
  claim_loop-Claimed (suc fuel) deadline t h =
      after_claim-Claimed (claim_loop server fuel task_id deadline) deadline
        (server.get_bool t (claim_task_sql task_id)) t h refl (claim_loop-Claimed fuel deadline)

  -- What a worker leaves behind when no ERROR is raised.
  abbrev pub Accounted : Run (Unit {0}) → Type 0
  Accounted none = Unit
  Accounted (some (answered u, t)) =
      OnlyClaims task_id t
      ⊎ ((t0 : History) × ClaimedAt t0 × Executed (transaction (claim_task_sql task_id) ∷ t0) t)
  Accounted (some (failed e, t)) = ⊥
  Accounted (some (raised, t)) = Unit

  abbrev Done : History → Reply (Unit {0}) × History → Type 0
  Done t (answered u, t') = Executed t t'
  Done t (failed e, t') = ⊥
  Done t (raised, t') = Unit

  ignore-Done :
      (r : Reply (Unit {0})) (t t1 : History) (message : Bytes)
      → Failed t message t1
      → Done t (ignore r, transaction (fail_task_sql task_id message) ∷ t1)
  unfolding ignore
  ignore-Done (answered u) t t1 message h = inr (message, t1, refl, h)
  ignore-Done (failed e) t t1 message h = inr (message, t1, refl, h)
  ignore-Done raised t t1 message h = tt

  report-Done :
      (t : History) (r : Reply (Unit {0})) (t1 : History)
      → run_worker_task server task_id (waited 1 ∷ t) ≡ (r, t1)
      → Done t (report server task_id (r, t1))
  unfolding report mark_task_failed
  report-Done t (answered u) t1 e = inl e
  report-Done t (failed m) t1 e =
      ignore-Done (server.run t1 (fail_task_sql task_id m)) t t1 m (inl e)
  report-Done t raised t1 e = tt

  execute-Done : (t : History) → Done t (execute server task_id t)
  unfolding execute mark_task_failed
  execute-Done t =
      if-Done (server.wait_latch t 1) _ _
        (report-Done t (run_worker_task server task_id (waited 1 ∷ t)).0 _ refl)
        (ignore-Done (server.run (waited 1 ∷ t) _) t (waited 1 ∷ t)
          (codes "worker terminated before task execution") (inr (refl, refl)))
    where
      if-Done :
          (b : Bool) (m k : Reply (Unit {0}) × History)
          → Done t m
          → Done t k
          → Done t (if b then m else k)
      if-Done true m k hm hk = hm
      if-Done false m k hm hk = hk

  executed-Accounted :
      (t0 : History) (out : Reply (Unit {0}) × History)
      → ClaimedAt t0
      → Done (transaction (claim_task_sql task_id) ∷ t0) out
      → Accounted (some out)
  executed-Accounted t0 (answered u, t) c d = inr (t0, c, d)
  executed-Accounted t0 (failed e, t) c d = d
  executed-Accounted t0 (raised, t) c d = tt

  if_claimed-Accounted : (out : Run Bool) → Claimed out → Accounted (if_claimed server task_id out)
  unfolding if_claimed
  if_claimed-Accounted none h = tt
  if_claimed-Accounted (some (answered true, t)) (t0, c, e) =
      subst (λ x. Accounted (some (execute server task_id x))) (sym e)
        (executed-Accounted t0 _ c (execute-Done (transaction (claim_task_sql task_id) ∷ t0)))
  if_claimed-Accounted (some (answered false, t)) h = inl h
  if_claimed-Accounted (some (failed e, t)) h = h
  if_claimed-Accounted (some (raised, t)) h = tt

  -- A worker that ends without an ERROR has either run no statement but claims of its task, or its
  -- last claim was answered with yes and then the task ran and succeeded, or the last statement of the
  -- worker marks the task failed, with the message with which the task failed after the claim or that
  -- the worker had to end before the task ran.
  pub pgl_validate_worker_main-Accounted :
      (fuel : ℕ) → Accounted (pgl_validate_worker_main server fuel (some task_id))
  unfolding pgl_validate_worker_main wait_for_task_claim OnlyClaims
  pgl_validate_worker_main-Accounted fuel =
      if_claimed-Accounted _
        (claim_loop-Claimed fuel _ (connected_to server.extra ∷ attached ∷ []) tt)
