-- ===== src/Worker/Patience.antt =====
-- worker.rs: a worker gives up the claim of its task at the deadline.
use pgl_validate.Base.{
  ℕ, zero, suc, ◌+◌, ◌-◌, ◌≤◌, ◌<◌, leb, ◌≡◌, refl, inl, inr, Bool, true, false, Bool-cases, [],
  ◌∷◌, Option, none, some, arith, if◌then◌else◌,
}
use pgl_validate.Base.Int.{ℤ}
use pgl_validate.Worker.{
  Reply, raised, failed, answered, attached, connected_to, transaction, waited, History, Server,
}
use pgl_validate.Worker.Statements.{claim_task_sql}
use pgl_validate.Worker.Main.{
  Run, retry_claim, after_claim, claim_loop, wait_for_task_claim, if_claimed,
  pgl_validate_worker_main,
}

-- How often the worker waited.
unfoldable pub waits : History → ℕ
waits [] = 0
waits (waited ms ∷ t) = suc (waits t)
waits (_ ∷ t) = waits t

abbrev pub Ends : {A : Type 0} → Run A → Type 0
Ends none = ⊥
Ends (some out) = Unit

module _ (server : Server) (task_id : ℤ) where
  module _ (patience deadline : ℕ)
      (passes : (t : History) → patience ≤ waits t → deadline ≤ server.now t) where
    retry_claim-Ends :
        (loop : History → Run Bool) (t : History)
        → (waits t < patience → Ends (loop (waited 100 ∷ t)))
        → Ends (retry_claim server loop deadline t)
    unfolding retry_claim
    retry_claim-Ends loop t h =
        if-Ends (leb deadline (server.now t)) _ _
          (λ early.
            if-Ends (server.wait_latch t 100) _ _ (λ stop. tt)
              (λ go. elim (Bool-cases (leb patience (waits t))) [
                | inl late ↦ let reached = passes t (ground arith) in absurd (ground arith)
                | inr before ↦ h (ground arith)
              ]))
          (λ late. tt)
      where
        if-Ends :
            (b : Bool) (m k : Run Bool)
            → (b ≡ false → Ends k)
            → (b ≡ true → Ends m)
            → Ends (if b then m else k)
        if-Ends true m k hk hm = hm refl
        if-Ends false m k hk hm = hk refl

    after_claim-Ends :
        (loop : History → Run Bool) (answer : Reply (Option Bool)) (t : History)
        → (waits t < patience → Ends (loop (waited 100 ∷ t)))
        → Ends (after_claim server loop deadline answer t)
    unfolding after_claim
    after_claim-Ends loop (answered (some true)) t h = tt
    after_claim-Ends loop (answered (some false)) t h = tt
    after_claim-Ends loop (answered none) t h = retry_claim-Ends loop t h
    after_claim-Ends loop (failed e) t h = retry_claim-Ends loop t h
    after_claim-Ends loop raised t h = tt

    claim_loop-Ends :
        (fuel : ℕ) (t : History)
        → patience - waits t < fuel
        → Ends (claim_loop server fuel task_id deadline t)
    unfolding claim_loop waits
    claim_loop-Ends zero t h = absurd (omega arith)
    claim_loop-Ends (suc fuel) t h =
        after_claim-Ends (claim_loop server fuel task_id deadline)
          (server.get_bool t (claim_task_sql task_id)) (transaction (claim_task_sql task_id) ∷ t)
          (λ more. claim_loop-Ends fuel _ (omega (arith, more)))

  if_claimed-Ends : (out : Run Bool) → Ends out → Ends (if_claimed server task_id out)
  unfolding if_claimed
  if_claimed-Ends none h = h
  if_claimed-Ends (some (answered true, t)) h = tt
  if_claimed-Ends (some (answered false, t)) h = tt
  if_claimed-Ends (some (failed e, t)) h = tt
  if_claimed-Ends (some (raised, t)) h = tt

  -- When the clock is past the 30 seconds of the deadline once the worker has waited `patience` times,
  -- then a worker ends after at most `patience` + 1 attempts to claim its task, whatever PostgreSQL
  -- answers.
  pub pgl_validate_worker_main-Ends :
      (patience fuel : ℕ)
      → ((t : History)
          → patience ≤ waits t
          → server.now (connected_to server.extra ∷ attached ∷ []) + 30000 ≤ server.now t)
      → patience < fuel
      → Ends (pgl_validate_worker_main server fuel (some task_id))
  unfolding pgl_validate_worker_main wait_for_task_claim waits
  pgl_validate_worker_main-Ends patience fuel passes enough =
      if_claimed-Ends _ (claim_loop-Ends patience _ passes fuel _ (omega (arith, enough)))
