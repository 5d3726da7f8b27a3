-- ===== src/Transport/FanOut/Batch.antt =====
-- transport/libpq.rs: `fetch_checksums_batch`.
use pgl_validate.Base.{
  ℕ, zero, suc, ◌+◌, ◌-◌, ltb, Bool, true, false, List, [], ◌∷◌, ◌++◌, map, Option, none, some,
  Error, Result, ok, err, panic, ◌>>◌, if◌then◌else◌, length,
}
use pgl_validate.Base.Int.{ℤ, pos_part, is_positive, ltb_ℤ}
use pgl_validate.Transport.Session.{finish, Trace, Libpq}
use pgl_validate.Transport.FanOut.Wait.{SetCall, WaitEvents, Waited, wait_for_remote_input}
use pgl_validate.Transport.FanOut.{
  RemoteChecksumTask, RemoteChecksumBatchResult, ActiveChecksumTask, Finish, start, try_finish,
}

-- The variables of `fetch_checksums_batch`, the traces of the connections that are closed, and how
-- many connections were opened and waits were made. `peak` is the highest number of connections that
-- were opened and not yet closed, and `sets` are the calls on wait event sets.
pub record Batch : Type 0 where
  pub pending : List RemoteChecksumTask
  pub active : List ActiveChecksumTask
  pub results : List RemoteChecksumBatchResult
  pub closed : List Trace
  pub opened : ℕ
  pub peak : ℕ
  pub waits : ℕ
  pub sets : List SetCall

-- The end of a connection that a task held.
unfoldable pub finish_trace : ActiveChecksumTask → Trace
finish_trace a = finish ∷ a.trace

-- The tasks that are still active are dropped.
unfoldable pub close_all : Batch → Batch
unfolding finish_trace
close_all b = record b { active = []; closed = map finish_trace b.active ++ b.closed }

-- What is left at `index..` when `swap_remove(index)` has taken the element at `index` away: the
-- last element comes to its place.
unfoldable pub after_last {ℓ} : {A : Type ℓ} → A → List A → List A
after_last x [] = x ∷ []
after_last x (z ∷ zs) = z ∷ x ∷ zs

unfoldable pub last_first {ℓ} : {A : Type ℓ} → List A → List A
last_first [] = []
last_first (x ∷ xs) = after_last x (last_first xs)

-- `results.sort_by_key(|result| result.task_id)`, which is stable.
unfoldable pub insert_result :
    RemoteChecksumBatchResult → List RemoteChecksumBatchResult → List RemoteChecksumBatchResult
insert_result r [] = r ∷ []
insert_result r (s ∷ rs) = if ltb_ℤ s.task_id r.task_id then s ∷ insert_result r rs else r ∷ s ∷ rs

unfoldable pub sort_results : List RemoteChecksumBatchResult → List RemoteChecksumBatchResult
sort_results [] = []
sort_results (r ∷ rs) = insert_result r (sort_results rs)

-- The peak once one more connection is opened.
unfoldable pub next_peak : Batch → ℕ
next_peak b =
    let now_open = (b.opened + 1) - length b.closed in
    if ltb b.peak now_open then now_open else b.peak

-- What follows the start of a task on a new connection.
unfoldable pub after_start :
    (Batch → Result (Unit {0}) × Batch)
    → RemoteChecksumTask
    → Batch
    → Result (Unit {0})
    → Trace
    → Result (Unit {0}) × Batch
after_start loop task b (ok u) t = loop (record b {
  active = b.active ++ record { task = task; conn = b.opened; trace = t; checksum = none } ∷ [];
  opened = b.opened + 1;
  peak = next_peak b;
})
after_start loop task b (err e) t =
    (err e, record b { closed = t ∷ b.closed; opened = b.opened + 1; peak = next_peak b })
after_start loop task b panic t =
    (panic, record b { closed = t ∷ b.closed; opened = b.opened + 1; peak = next_peak b })

abbrev pub Outcome : Type 0 → Type 0
Outcome A = Option (Result A × Batch)

-- What follows `try_finish` of `active[index]`: the task is kept, or its result is pushed and it
-- is dropped, or the function ends. `kept` is `active[..index]` and `rest` is `active[index + 1..]`.
unfoldable pub after_finish :
    (List ActiveChecksumTask → List ActiveChecksumTask → Bool → Batch → Outcome Bool)
    → List ActiveChecksumTask
    → List ActiveChecksumTask
    → Bool
    → Batch
    → Finish
    → Outcome Bool
after_finish loop kept rest made_progress b none = none
after_finish loop kept rest made_progress b (some (ok none, a)) =
    loop (kept ++ a ∷ []) rest made_progress b
after_finish loop kept rest made_progress b (some (ok (some result), a)) =
    loop kept (last_first rest) true
      (record b { results = b.results ++ result ∷ []; closed = finish_trace a ∷ b.closed })
after_finish loop kept rest made_progress b (some (err e, a)) =
    some (err e, record b { active = kept ++ a ∷ rest })
after_finish loop kept rest made_progress b (some (panic, a)) =
    some (panic, record b { active = kept ++ a ∷ rest })

-- An error or a panic ends the function, and drops the tasks that are active.
unfoldable pub or_close :
    (Batch → Outcome (Unit {0})) → Result (Unit {0}) × Batch → Outcome (Unit {0})
or_close continue (ok u, b) = continue b
or_close continue (err e, b) = some (err e, close_all b)
or_close continue (panic, b) = some (panic, close_all b)

unfoldable pub after_wait : Batch → Waited → Option (Result (Unit {0}) × Batch)
after_wait b none = none
after_wait b (some (r, sets)) = some (r, record b { waits = b.waits + 1; sets = sets })

unfoldable pub or_wait :
    (Batch → Outcome (Unit {0})) → Option (Result (Unit {0}) × Batch) → Outcome (Unit {0})
unfolding or_close
or_wait continue none = none
or_wait continue (some out) = or_close continue out

unfoldable pub initial : List RemoteChecksumTask → Batch
initial tasks = record {
  pending = tasks;
  active = [];
  results = [];
  closed = [];
  opened = 0;
  peak = 0;
  waits = 0;
  sets = [];
}

unfoldable pub sorted : Outcome (Unit {0}) → Outcome (List RemoteChecksumBatchResult)
sorted none = none
sorted (some (r, b)) = some (r >> ok (sort_results b.results), b)

module _ (lib : ℕ → Libpq) where
  -- `while active.len() < max_parallel`, over the tasks that are pending.
  unfoldable pub fill : ℕ → List RemoteChecksumTask → Batch → Result (Unit {0}) × Batch
  unfolding after_start
  fill max [] b = (ok tt, record b { pending = [] })
  fill max (task ∷ tasks) b = elim (ltb (length b.active) max) [
    | false ↦ (ok tt, record b { pending = task ∷ tasks })
    | true ↦
        let (r, t) = start (lib b.opened) task [] in
        after_start (fill max tasks) task (record b { pending = tasks }) r t
  ]

module _ (lib : ℕ → Libpq) (events : WaitEvents) where
  -- What follows the sweep: the wait, when there was no progress, which may never return.
  unfoldable pub after_sweep : Bool → Batch → Option (Result (Unit {0}) × Batch)
  unfolding after_wait
  after_sweep true b = some (ok tt, b)
  after_sweep false b = after_wait b (wait_for_remote_input events lib b.waits b.active b.sets)

  unfoldable pub end_sweep : (Batch → Outcome (Unit {0})) → Outcome Bool → Outcome (Unit {0})
  unfolding or_close or_wait
  end_sweep continue none = none
  end_sweep continue (some (ok made_progress, b)) = or_wait continue (after_sweep made_progress b)
  end_sweep continue (some (err e, b)) = some (err e, close_all b)
  end_sweep continue (some (panic, b)) = some (panic, close_all b)

module _ (lib : ℕ → Libpq) (fuel : ℕ) where
  -- `while index < active.len()`: `kept` is `active[..index]`, `rest` is `active[index..]`, and
  -- `left` is the number of the tasks that are still to be polled. The results are the flag
  -- `made_progress` and the variables.
  unfoldable pub sweep :
      ℕ → List ActiveChecksumTask → List ActiveChecksumTask → Bool → Batch → Outcome Bool
  unfolding after_finish
  sweep zero kept rest made_progress b = some (ok made_progress, record b { active = kept ++ rest })
  sweep (suc left) kept [] made_progress b =
      some (ok made_progress, record b { active = kept ++ [] })
  sweep (suc left) kept (a ∷ rest) made_progress b =
      after_finish (sweep left) kept rest made_progress b (try_finish (lib a.conn) fuel a)

module _ (lib : ℕ → Libpq) (events : WaitEvents) (fuel : ℕ) where
  -- `if active.is_empty()`, and the sweep.
  unfoldable pub sweep_active :
      (Batch → Outcome (Unit {0})) → Batch → List ActiveChecksumTask → Outcome (Unit {0})
  unfolding end_sweep
  sweep_active continue b [] = some (ok tt, b)
  sweep_active continue b (a ∷ rest) =
      end_sweep lib events continue (sweep lib fuel (length (a ∷ rest)) [] (a ∷ rest) false b)

  -- The outer loop with at most `rounds` rounds.
  unfoldable pub run_batch : ℕ → ℕ → Batch → Outcome (Unit {0})
  unfolding sweep_active or_close
  run_batch zero max b = none
  run_batch (suc rounds) max b =
      or_close (λ b1. sweep_active (run_batch rounds max) b1 b1.active) (fill lib max b.pending b)

  -- The results in order of their task ids, and the traces of all connections; `none` when the fuel
  -- does not suffice or a wait never returns.
  unfoldable pub fetch_checksums_batch :
      ℕ → List RemoteChecksumTask → ℤ → Outcome (List RemoteChecksumBatchResult)
  unfolding sorted
  fetch_checksums_batch rounds tasks max_parallel =
      if is_positive max_parallel
      then sorted (run_batch rounds (pos_part max_parallel) (initial tasks))
      else some (err Error.max_parallel_not_positive, initial [])
