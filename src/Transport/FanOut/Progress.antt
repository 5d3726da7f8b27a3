-- ===== src/Transport/FanOut/Progress.antt =====
-- transport/libpq.rs: `fetch_checksums_batch` comes to an end when the servers answer and the waits
-- return.
use pgl_validate.Base.{
  ℕ, zero, suc, ◌+◌, ◌-◌, ◌*◌, ◌≤◌, ◌<◌, ◌≡◌, ap, Bool, true, false, List, [], ◌∷◌, none, some,
  Result, ok, err, panic, length, Bool-cases, inl, inr, arith,
}
use pgl_validate.Base.Int.{ℤ, is_positive, pos_part}
use pgl_validate.Transport.Session.{Libpq}
use pgl_validate.Transport.FanOut.{RemoteChecksumTask, ActiveChecksumTask}
use pgl_validate.Transport.FanOut.Wait.{
  SetCall, WaitEvents, Waited, Returns, Back, wait_for_remote_input, wait_for_remote_input-Back,
}
use pgl_validate.Transport.FanOut.Batch.{
  Batch, Outcome, after_sweep, after_wait, or_wait, or_close, end_sweep, sweep_active, run_batch,
  initial, sorted, fetch_checksums_batch,
}
use pgl_validate.Transport.FanOut.Polls.{polls, Answers}
use pgl_validate.Transport.FanOut.Load.{
  load, pending_load, measure, Lighter, FilledLighter, first_sweep-Lighter, fill-Lighter, Remains,
  sweep-Remains,
}

-- The function ends: with a result, an error or a panic.
abbrev pub Ends : {A : Type 0} → Outcome A → Type 0
Ends none = ⊥
Ends (some out) = Unit

module _ (limit m : ℕ) (continue : Batch → Outcome (Unit {0}))
    (ends : (b : Batch) → measure limit b < m → Ends (continue b)) where
  or_close-Ends :
      (r : Result (Unit {0})) (b : Batch) → measure limit b < m → Ends (or_close continue (r, b))
  unfolding or_close
  or_close-Ends (ok u) b h = ends b h
  or_close-Ends (err e) b h = tt
  or_close-Ends panic b h = tt

  wait-Ends :
      (b : Batch) (out : Waited)
      → Back out
      → measure limit b < m
      → Ends (or_wait continue (after_wait b out))
  unfolding or_wait after_wait
  wait-Ends b none back h = absurd back
  wait-Ends b (some (r, sets)) back h = or_close-Ends r _ h

  module _ (lib : ℕ → Libpq) (events : WaitEvents) (returns : Returns events) where
    active-Back :
        (n : ℕ) (active : List ActiveChecksumTask) (t : List SetCall)
        → 0 < length active
        → Back (wait_for_remote_input events lib n active t)
    active-Back n [] t h = absurd (omega arith)
    active-Back n (a ∷ active) t h = wait_for_remote_input-Back events returns n lib a active t

    end_sweep-Ends :
        (n : ℕ) (pending : List RemoteChecksumTask) (out : Outcome Bool)
        → pending_load limit pending + n < m
        → Lighter limit n pending out
        → Remains out
        → Ends (end_sweep lib events continue out)
    unfolding end_sweep after_sweep or_wait
    end_sweep-Ends n pending none h k left = k
    end_sweep-Ends n pending (some (ok true, b)) h k left =
        let same : pending_load limit b.pending ≡ pending_load limit pending =
          ap (pending_load limit) k.1 in
        or_close-Ends (ok tt) b (omega (arith, k.0, same))
    end_sweep-Ends n pending (some (ok false, b)) h k left =
        let same : pending_load limit b.pending ≡ pending_load limit pending =
          ap (pending_load limit) k.1 in
        wait-Ends b (wait_for_remote_input events lib b.waits b.active b.sets)
          (active-Back b.waits b.active b.sets left) (omega (arith, k.0, same))
    end_sweep-Ends n pending (some (err e, b)) h k left = tt
    end_sweep-Ends n pending (some (panic, b)) h k left = tt

sorted-Ends : (out : Outcome (Unit {0})) → Ends out → Ends (sorted out)
unfolding sorted
sorted-Ends none h = h
sorted-Ends (some (r, b)) h = tt

pending_load-length :
    (limit : ℕ) (tasks : List RemoteChecksumTask)
    → pending_load limit tasks ≡ length tasks * suc limit
pending_load-length limit [] = omega arith
pending_load-length limit (task ∷ tasks) = omega (arith, pending_load-length limit tasks)

module _ (limit : ℕ) (lib : ℕ → Libpq) (events : WaitEvents) (fuel : ℕ) where
  module _ (answers : (n : ℕ) → Answers limit (lib n)) (returns : Returns events)
      (enough : limit < fuel) where
    sweep_active-Ends :
        (m : ℕ) (continue : Batch → Outcome (Unit {0})) (b : Batch)
        (active : List ActiveChecksumTask)
        → ((b1 : Batch) → measure limit b1 < m → Ends (continue b1))
        → pending_load limit b.pending + load limit active ≤ m
        → Ends (sweep_active lib events fuel continue b active)
    unfolding sweep_active
    sweep_active-Ends m continue b [] hc h = tt
    sweep_active-Ends m continue b (a ∷ rest) hc h =
        let n = (limit - polls a.trace) + load limit rest in
        end_sweep-Ends limit m continue hc lib events returns n b.pending _ (omega arith)
          (first_sweep-Lighter limit lib answers fuel enough n a rest b (omega arith))
          (sweep-Remains lib fuel (length (a ∷ rest)) [] (a ∷ rest) false b (λ e. omega arith))

    after_fill-Ends :
        (m : ℕ) (continue : Batch → Outcome (Unit {0})) (r : Result (Unit {0}) × Batch)
        → ((b : Batch) → measure limit b < m → Ends (continue b))
        → FilledLighter limit m r
        → Ends (or_close (λ b. sweep_active lib events fuel continue b b.active) r)
    unfolding or_close
    after_fill-Ends m continue (ok u, b) hc h = sweep_active-Ends m continue b b.active hc h
    after_fill-Ends m continue (err e, b) hc h = tt
    after_fill-Ends m continue (panic, b) hc h = tt

    run_batch-Ends :
        (rounds max : ℕ) (b : Batch)
        → measure limit b < rounds
        → Ends (run_batch lib events fuel rounds max b)
    unfolding run_batch
    run_batch-Ends zero max b h = absurd (omega arith)
    run_batch-Ends (suc rounds) max b h =
        after_fill-Ends rounds (run_batch lib events fuel rounds max) _ (run_batch-Ends rounds max)
          (fill-Lighter limit lib max rounds b.pending b (omega arith))

    -- When on each connection `PQisBusy` says no and `PQgetResult` gives no result once `limit` such
    -- answers were given on it, and when every wait on a set that holds at least one socket returns,
    -- then `fetch_checksums_batch` ends, whatever else libpq and the waits answer: `limit` + 1 rounds
    -- for a call of `try_finish`, and `limit` + 1 rounds of the outer loop for each task and one more,
    -- are enough. A wait for which no socket was added need not return.
    pub fetch_checksums_batch-Ends :
        (rounds : ℕ) (tasks : List RemoteChecksumTask) (max_parallel : ℤ)
        → length tasks * suc limit < rounds
        → Ends (fetch_checksums_batch lib events fuel rounds tasks max_parallel)
    unfolding fetch_checksums_batch initial
    fetch_checksums_batch-Ends rounds tasks max_parallel h =
        elim (Bool-cases (is_positive max_parallel)) [
          | inl e ↦ rw e (
              sorted-Ends _ (
                run_batch-Ends rounds (pos_part max_parallel) (initial tasks)
                  (omega (arith, h, pending_load-length limit tasks))))
          | inr e ↦ rw e tt
        ]
