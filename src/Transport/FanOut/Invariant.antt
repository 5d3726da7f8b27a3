-- ===== src/Transport/FanOut/Invariant.antt =====
-- transport/libpq.rs: what the loops of `fetch_checksums_batch` keep. A property of the variables
-- that each step keeps is an `Invariant`, and the loops keep it then.
use mathlib.Core.Path.{subst}
use pgl_validate.Base.{
  ℕ, zero, suc, ◌+◌, ◌≤◌, ◌<◌, ltb, ltb→lt, ◌≡◌, refl, sym, Bool, true, false, List, [], ◌∷◌, ◌++◌,
  append_assoc, none, some, Result, ok, err, panic, length, ◌⊎◌, inl, inr, arith,
}
use pgl_validate.Transport.Session.{Trace, Libpq}
use pgl_validate.Transport.Session.Laws.{replay, idle, connected}
use pgl_validate.Transport.FanOut.{
  RemoteChecksumTask, RemoteChecksumBatchResult, ActiveChecksumTask, Finish, try_finish,
}
use pgl_validate.Transport.FanOut.Tasks.{Same, Tracked, try_finish-Tracked, Opens, start-Opens}
use pgl_validate.Transport.FanOut.Sources.{
  Sent, Source, Sourced, Starts, start-Starts, Held, try_finish-Held,
}
use pgl_validate.Transport.FanOut.Wait.{
  SetCall, WaitEvents, Waited, AllFreed, FreedIfEnds, wait_for_remote_input,
  wait_for_remote_input-Freed,
}
use pgl_validate.Transport.FanOut.Batch.{
  Batch, finish_trace, close_all, last_first, next_peak, after_start, fill, Outcome, after_finish,
  sweep, after_sweep, after_wait, or_wait, or_close, end_sweep, sweep_active, run_batch,
}

-- A task whose start succeeded, on the connection that was opened last.
abbrev pub started : ℕ → RemoteChecksumTask → Trace → ActiveChecksumTask
started n task t = record { task = task; conn = n; trace = t; checksum = none }

-- `Running` holds between the steps, and `Ended` after an error or a panic.
pub record Invariant (lib : ℕ → Libpq) (max : ℕ) : Type 1 where
  pub Running : Batch → Type 0
  pub Ended : Batch → Type 0
  pub opens :
      (b : Batch) (task : RemoteChecksumTask) (tasks : List RemoteChecksumTask) (t : Trace)
      → Running (record b { pending = task ∷ tasks })
      → length b.active < max
      → replay t ≡ connected 0
      → Sent task t
      → Running (record b {
        pending = tasks;
        active = b.active ++ started b.opened task t ∷ [];
        opened = b.opened + 1;
        peak = next_peak b;
      })
  pub refused :
      (b : Batch) (task : RemoteChecksumTask) (tasks : List RemoteChecksumTask) (t : Trace)
      → Running (record b { pending = task ∷ tasks })
      → length b.active < max
      → replay t ≡ idle
      → Ended (
          close_all (record b {
            pending = tasks;
            closed = t ∷ b.closed;
            opened = b.opened + 1;
            peak = next_peak b;
          }))
  pub polled :
      (b : Batch) (kept rest : List ActiveChecksumTask) (a a' : ActiveChecksumTask)
      → Running (record b { active = kept ++ a ∷ rest })
      → Same a a'
      → (Sourced (lib a.conn) a.task a → Sourced (lib a.conn) a.task a')
      → Running (record b { active = kept ++ a' ∷ rest })
  pub completed :
      (b : Batch) (kept rest : List ActiveChecksumTask) (a a' : ActiveChecksumTask)
      (result : RemoteChecksumBatchResult)
      → Running (record b { active = kept ++ a ∷ rest })
      → Same a a'
      → (Sourced (lib a.conn) a.task a → Source (lib a.conn) a.task result.checksum)
      → result.task_id ≡ a.task.task_id
      → Running (record b {
        active = kept ++ last_first rest;
        results = b.results ++ result ∷ [];
        closed = finish_trace a' ∷ b.closed;
      })
  pub waited :
      (b : Batch) (sets : List SetCall)
      → Running b
      → (AllFreed b.sets → AllFreed sets)
      → Running (record b { waits = b.waits + 1; sets = sets })
  pub dropped : (b : Batch) → Running b → Ended (close_all b)

not_small : (n m : ℕ) → ltb n m ≡ false → m ≤ n
not_small n m h = ground arith

none_pending :
    {max : ℕ} (b : Batch)
    → b.active ≡ []
    → (b.pending ≡ []) ⊎ (max ≤ length b.active)
    → 0 < max
    → b.pending ≡ []
none_pending b empty (inl done) positive = done
none_pending b empty (inr full) positive =
    let none_active : length b.active ≡ 0 = rw empty refl in absurd (omega arith)

module _ {lib : ℕ → Libpq} {max : ℕ} (inv : Invariant lib max) where
  -- After `fill`: no task is pending or no more may be started.
  abbrev Filled : Result (Unit {0}) × Batch → Type 0
  Filled (ok u, b) = inv.Running b × ((b.pending ≡ []) ⊎ (max ≤ length b.active))
  Filled (err e, b) = inv.Ended (close_all b)
  Filled (panic, b) = inv.Ended (close_all b)

  after_start-Filled :
      (loop : Batch → Result (Unit {0}) × Batch) (task : RemoteChecksumTask)
      (tasks : List RemoteChecksumTask) (b : Batch) (r : Result (Unit {0})) (t : Trace)
      → ((b1 : Batch) → inv.Running (record b1 { pending = tasks }) → Filled (loop b1))
      → inv.Running (record b { pending = task ∷ tasks })
      → length b.active < max
      → Opens (r, t)
      → Starts task (r, t)
      → Filled (after_start loop task (record b { pending = tasks }) r t)
  unfolding after_start next_peak
  after_start-Filled loop task tasks b (ok u) t hl hb small h sent =
      hl _ (inv.opens b task tasks t hb small h sent)
  after_start-Filled loop task tasks b (err e) t hl hb small h s =
      inv.refused b task tasks t hb small h
  after_start-Filled loop task tasks b panic t hl hb small h s =
      inv.refused b task tasks t hb small h

  choice-Filled :
      (small : Bool) (stop go : Result (Unit {0}) × Batch)
      → (small ≡ false → Filled stop)
      → (small ≡ true → Filled go)
      → Filled (elim small [ false ↦ stop | true ↦ go ])
  choice-Filled false stop go hs hg = hs refl
  choice-Filled true stop go hs hg = hg refl

  -- After a sweep.
  abbrev Swept : Outcome Bool → Type 0
  Swept none = Unit
  Swept (some (ok made_progress, b)) = inv.Running b
  Swept (some (err e, b)) = inv.Ended (close_all b)
  Swept (some (panic, b)) = inv.Ended (close_all b)

  after_finish-Swept :
      (loop : List ActiveChecksumTask → List ActiveChecksumTask → Bool → Batch → Outcome Bool)
      (kept rest : List ActiveChecksumTask) (made_progress : Bool) (b : Batch)
      (a : ActiveChecksumTask) (out : Finish)
      → ((kept1 rest1 : List ActiveChecksumTask) (flag : Bool) (b1 : Batch)
          → inv.Running (record b1 { active = kept1 ++ rest1 })
          → Swept (loop kept1 rest1 flag b1))
      → inv.Running (record b { active = kept ++ a ∷ rest })
      → Tracked a out
      → (Sourced (lib a.conn) a.task a → Held (lib a.conn) a.task out)
      → Swept (after_finish loop kept rest made_progress b out)
  unfolding after_finish
  after_finish-Swept loop kept rest made_progress b a none hl h t k = tt
  after_finish-Swept loop kept rest made_progress b a (some (ok none, a1)) hl h t k =
      let same : kept ++ a1 ∷ rest ≡ (kept ++ a1 ∷ []) ++ rest =
        sym (append_assoc kept (a1 ∷ []) rest) in
      hl (kept ++ a1 ∷ []) rest made_progress b (
        subst (λ xs. inv.Running (record b { active = xs })) same
          (inv.polled b kept rest a a1 h t k))
  after_finish-Swept loop kept rest made_progress b a (some (ok (some result), a1)) hl h t k =
      hl kept (last_first rest) true _ (inv.completed b kept rest a a1 result h t.0 k t.1)
  after_finish-Swept loop kept rest made_progress b a (some (err e, a1)) hl h t k =
      inv.dropped _ (inv.polled b kept rest a a1 h t k)
  after_finish-Swept loop kept rest made_progress b a (some (panic, a1)) hl h t k =
      inv.dropped _ (inv.polled b kept rest a a1 h t k)

  -- After the function: a success leaves no task.
  abbrev pub Left : Outcome (Unit {0}) → Type 0
  Left none = Unit
  Left (some (ok u, b)) = inv.Running b × (b.active ≡ []) × (b.pending ≡ [])
  Left (some (err e, b)) = inv.Ended b
  Left (some (panic, b)) = inv.Ended b

  waited-Left :
      (continue : Batch → Outcome (Unit {0})) (r : Result (Unit {0})) (b : Batch)
      → ((b1 : Batch) → inv.Running b1 → Left (continue b1))
      → inv.Running b
      → Left (or_close continue (r, b))
  unfolding or_close
  waited-Left continue (ok u) b hc h = hc b h
  waited-Left continue (err e) b hc h = inv.dropped b h
  waited-Left continue panic b hc h = inv.dropped b h

module _ {lib : ℕ → Libpq} {max : ℕ} (inv : Invariant lib max) where
  fill-Filled :
      (tasks : List RemoteChecksumTask) (b : Batch)
      → inv.Running (record b { pending = tasks })
      → Filled inv (fill lib max tasks b)
  unfolding fill replay
  fill-Filled [] b h = (h, inl refl)
  fill-Filled (task ∷ tasks) b h =
      choice-Filled inv (ltb (length b.active) max) _ _
        (λ full. (h, inr (not_small (length b.active) max full)))
        (λ small.
          after_start-Filled inv (fill lib max tasks) task tasks b _ _ (λ b1. fill-Filled tasks b1)
            h (ltb→lt (length b.active) max small) (start-Opens (lib b.opened) task [] refl)
            (start-Starts task (lib b.opened) []))

module _ {lib : ℕ → Libpq} {max : ℕ} (inv : Invariant lib max) (fuel : ℕ) where
  sweep-Swept :
      (left : ℕ) (kept rest : List ActiveChecksumTask) (made_progress : Bool) (b : Batch)
      → inv.Running (record b { active = kept ++ rest })
      → Swept inv (sweep lib fuel left kept rest made_progress b)
  unfolding sweep
  sweep-Swept zero kept rest made_progress b h = h
  sweep-Swept (suc left) kept [] made_progress b h = h
  sweep-Swept (suc left) kept (a ∷ rest) made_progress b h =
      after_finish-Swept inv (sweep lib fuel left) kept rest made_progress b a
        (try_finish (lib a.conn) fuel a) (sweep-Swept left) h
        (try_finish-Tracked (lib a.conn) fuel a) (try_finish-Held (lib a.conn) a.task fuel a)

module _ {lib : ℕ → Libpq} {max : ℕ} (inv : Invariant lib max) (events : WaitEvents) where
  wait-Left :
      (continue : Batch → Outcome (Unit {0})) (b : Batch) (out : Waited)
      → ((b1 : Batch) → inv.Running b1 → Left inv (continue b1))
      → inv.Running b
      → (AllFreed b.sets → FreedIfEnds out)
      → Left inv (or_wait continue (after_wait b out))
  unfolding or_wait after_wait
  wait-Left continue b none hc h freed = tt
  wait-Left continue b (some (r, sets)) hc h freed =
      waited-Left inv continue r _ hc (inv.waited b sets h freed)

  end_sweep-Left :
      (continue : Batch → Outcome (Unit {0})) (out : Outcome Bool)
      → ((b1 : Batch) → inv.Running b1 → Left inv (continue b1))
      → Swept inv out
      → Left inv (end_sweep lib events continue out)
  unfolding end_sweep after_sweep or_wait
  end_sweep-Left continue none hc h = tt
  end_sweep-Left continue (some (ok true, b)) hc h = waited-Left inv continue (ok tt) b hc h
  end_sweep-Left continue (some (ok false, b)) hc h =
      wait-Left continue b (wait_for_remote_input events lib b.waits b.active b.sets) hc h
        (λ freed. wait_for_remote_input-Freed events b.sets freed lib b.waits b.active)
  end_sweep-Left continue (some (err e, b)) hc h = h
  end_sweep-Left continue (some (panic, b)) hc h = h

module _ {lib : ℕ → Libpq} {max : ℕ} (inv : Invariant lib max) (events : WaitEvents)
    (fuel : ℕ) where
  sweep_active-Left :
      (continue : Batch → Outcome (Unit {0})) (b : Batch) (active : List ActiveChecksumTask)
      → b.active ≡ active
      → ((b1 : Batch) → inv.Running b1 → Left inv (continue b1))
      → inv.Running b
      → (b.pending ≡ []) ⊎ (max ≤ length b.active)
      → 0 < max
      → Left inv (sweep_active lib events fuel continue b active)
  unfolding sweep_active
  sweep_active-Left continue b [] e hc h filled positive = (h, e, none_pending b e filled positive)
  sweep_active-Left continue b (a ∷ rest) e hc h filled positive =
      end_sweep-Left inv events continue _ hc (
        sweep-Swept inv fuel (length (a ∷ rest)) [] (a ∷ rest) false b
          (subst (λ xs. inv.Running (record b { active = xs })) e h))

  after_fill :
      (continue : Batch → Outcome (Unit {0})) (r : Result (Unit {0}) × Batch)
      → ((b : Batch) → inv.Running b → Left inv (continue b))
      → 0 < max
      → Filled inv r
      → Left inv (or_close (λ b. sweep_active lib events fuel continue b b.active) r)
  unfolding or_close
  after_fill continue (ok u, b) hc positive f =
      sweep_active-Left continue b b.active refl hc f.0 f.1 positive
  after_fill continue (err e, b) hc positive f = f
  after_fill continue (panic, b) hc positive f = f

  pub run_batch-Left :
      (rounds : ℕ) (b : Batch)
      → inv.Running b
      → 0 < max
      → Left inv (run_batch lib events fuel rounds max b)
  unfolding run_batch
  run_batch-Left zero b h positive = tt
  run_batch-Left (suc rounds) b h positive =
      after_fill (run_batch lib events fuel rounds max) (fill lib max b.pending b)
        (λ b1 h1. run_batch-Left rounds b1 h1 positive) positive (fill-Filled inv b.pending b h)
