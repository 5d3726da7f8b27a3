-- ===== src/Transport/FanOut/Load.antt =====
-- transport/libpq.rs: how much of `fetch_checksums_batch` is left, and that each round leaves less.
use pgl_validate.Base.{
  ℕ, zero, suc, ◌+◌, ◌≤◌, ◌<◌, ◌≡◌, refl, Bool, true, false, List, [], ◌∷◌, ◌++◌, none, some,
  Result, ok, err, panic, ltb, length, length-append, arith,
}
use pgl_validate.Transport.Session.{Trace, Libpq}
use pgl_validate.Transport.FanOut.{RemoteChecksumTask, ActiveChecksumTask, Finish, try_finish}
use pgl_validate.Transport.FanOut.Batch.{
  Batch, after_last, last_first, after_start, fill, Outcome, after_finish, sweep,
}
use pgl_validate.Transport.FanOut.Polls.{Answers, weight, Moves, try_finish-Moves}

module _ (limit : ℕ) where
  abbrev pub load : List ActiveChecksumTask → ℕ
  load [] = 0
  load (a ∷ active) = weight limit a + load active

  abbrev pub pending_load : List RemoteChecksumTask → ℕ
  pending_load [] = 0
  pending_load (task ∷ tasks) = suc limit + pending_load tasks

  -- How many rounds can still follow.
  abbrev pub measure : Batch → ℕ
  measure b = pending_load b.pending + load b.active

  load-append : (xs ys : List ActiveChecksumTask) → load (xs ++ ys) ≡ load xs + load ys
  load-append [] ys = omega arith
  load-append (x ∷ xs) ys = omega (arith, load-append xs ys)

  load-after_last :
      (x : ActiveChecksumTask) (xs : List ActiveChecksumTask)
      → load (after_last x xs) ≡ load (x ∷ xs)
  unfolding after_last
  load-after_last x [] = refl
  load-after_last x (z ∷ zs) = omega arith

  load-last_first : (xs : List ActiveChecksumTask) → load (last_first xs) ≡ load xs
  unfolding last_first
  load-last_first [] = refl
  load-last_first (x ∷ xs) = omega (arith, load-after_last x (last_first xs), load-last_first xs)

  -- The sweep ends, and what is left of the active tasks then is at most `m`.
  abbrev pub Lighter : ℕ → List RemoteChecksumTask → Outcome Bool → Type 0
  Lighter m pending none = ⊥
  Lighter m pending (some (ok flag, b)) = (load b.active ≤ m) × (b.pending ≡ pending)
  Lighter m pending (some (err e, b)) = Unit
  Lighter m pending (some (panic, b)) = Unit

  after_finish-Lighter :
      (m : ℕ)
      (loop : List ActiveChecksumTask → List ActiveChecksumTask → Bool → Batch → Outcome Bool)
      (kept rest : List ActiveChecksumTask) (flag : Bool) (b : Batch) (a : ActiveChecksumTask)
      (out : Finish)
      → ((kept1 rest1 : List ActiveChecksumTask) (flag1 : Bool) (b1 : Batch)
          → load kept1 + load rest1 ≤ m
          → Lighter m b1.pending (loop kept1 rest1 flag1 b1))
      → load kept + load rest + weight limit a ≤ suc m
      → Moves limit a out
      → Lighter m b.pending (after_finish loop kept rest flag b out)
  unfolding after_finish
  after_finish-Lighter m loop kept rest flag b a none hl h k = k
  after_finish-Lighter m loop kept rest flag b a (some (ok none, a1)) hl h k =
      hl (kept ++ a1 ∷ []) rest flag b (omega (arith, load-append kept (a1 ∷ [])))
  after_finish-Lighter m loop kept rest flag b a (some (ok (some result), a1)) hl h k =
      hl kept (last_first rest) true _ (omega (arith, load-last_first rest))
  after_finish-Lighter m loop kept rest flag b a (some (err e, a1)) hl h k = tt
  after_finish-Lighter m loop kept rest flag b a (some (panic, a1)) hl h k = tt

  module _ (lib : ℕ → Libpq) (answers : (n : ℕ) → Answers limit (lib n)) (fuel : ℕ)
      (enough : limit < fuel) where
    sweep-Lighter :
        (m left : ℕ) (kept rest : List ActiveChecksumTask) (flag : Bool) (b : Batch)
        → load kept + load rest ≤ m
        → Lighter m b.pending (sweep lib fuel left kept rest flag b)
    unfolding sweep
    sweep-Lighter m zero kept rest flag b h = (omega (arith, load-append kept rest), refl)
    sweep-Lighter m (suc left) kept [] flag b h = (omega (arith, load-append kept []), refl)
    sweep-Lighter m (suc left) kept (a ∷ rest) flag b h =
        after_finish-Lighter m (sweep lib fuel left) kept rest flag b a
          (try_finish (lib a.conn) fuel a) (λ k r f b1 h1. sweep-Lighter m left k r f b1 h1)
          (omega arith) (try_finish-Moves limit (lib a.conn) (answers a.conn) fuel a (omega arith))

    -- A sweep over at least one task makes progress.
    pub first_sweep-Lighter :
        (m : ℕ) (a : ActiveChecksumTask) (rest : List ActiveChecksumTask) (b : Batch)
        → load (a ∷ rest) ≤ suc m
        → Lighter m b.pending (sweep lib fuel (length (a ∷ rest)) [] (a ∷ rest) false b)
    unfolding sweep
    first_sweep-Lighter m a rest b h =
        after_finish-Lighter m (sweep lib fuel (length rest)) [] rest false b a
          (try_finish (lib a.conn) fuel a)
          (λ k r f b1 h1. sweep-Lighter m (length rest) k r f b1 h1) (omega arith)
          (try_finish-Moves limit (lib a.conn) (answers a.conn) fuel a (omega arith))

  -- Starting tasks brings nothing further from the end.
  abbrev pub FilledLighter : ℕ → Result (Unit {0}) × Batch → Type 0
  FilledLighter m (ok u, b) = measure b ≤ m
  FilledLighter m (err e, b) = Unit
  FilledLighter m (panic, b) = Unit

  after_start-Lighter :
      (m : ℕ) (loop : Batch → Result (Unit {0}) × Batch) (task : RemoteChecksumTask)
      (tasks : List RemoteChecksumTask) (b : Batch) (r : Result (Unit {0})) (t : Trace)
      → ((b1 : Batch) → pending_load tasks + load b1.active ≤ m → FilledLighter m (loop b1))
      → pending_load (task ∷ tasks) + load b.active ≤ m
      → FilledLighter m (after_start loop task b r t)
  unfolding after_start
  after_start-Lighter m loop task tasks b (ok u) t hl h =
      let a : ActiveChecksumTask = record {
        task = task;
        conn = b.opened;
        trace = t;
        checksum = none;
      } in
      hl _ (omega (arith, load-append b.active (a ∷ [])))
  after_start-Lighter m loop task tasks b (err e) t hl h = tt
  after_start-Lighter m loop task tasks b panic t hl h = tt

  choice-Lighter :
      (m : ℕ) (small : Bool) (stop go : Result (Unit {0}) × Batch)
      → FilledLighter m stop
      → FilledLighter m go
      → FilledLighter m (elim small [ false ↦ stop | true ↦ go ])
  choice-Lighter m false stop go hs hg = hs
  choice-Lighter m true stop go hs hg = hg

  pub fill-Lighter :
      (lib : ℕ → Libpq) (max m : ℕ) (tasks : List RemoteChecksumTask) (b : Batch)
      → pending_load tasks + load b.active ≤ m
      → FilledLighter m (fill lib max tasks b)
  unfolding fill
  fill-Lighter lib max m [] b h = h
  fill-Lighter lib max m (task ∷ tasks) b h = choice-Lighter m (ltb (length b.active) max) _ _ h (
      after_start-Lighter m (fill lib max tasks) task tasks (record b { pending = tasks }) _ _
        (λ b1 h1. fill-Lighter lib max m tasks b1 h1) h)

-- A sweep without progress leaves a task.
abbrev pub Remains : Outcome Bool → Type 0
Remains none = Unit
Remains (some (ok true, b)) = Unit
Remains (some (ok false, b)) = 0 < length b.active
Remains (some (err e, b)) = Unit
Remains (some (panic, b)) = Unit

flag-Remains :
    (flag : Bool) (b : Batch) → (flag ≡ false → 0 < length b.active) → Remains (some (ok flag, b))
flag-Remains true b h = tt
flag-Remains false b h = h refl

after_finish-Remains :
    (loop : List ActiveChecksumTask → List ActiveChecksumTask → Bool → Batch → Outcome Bool)
    (kept rest : List ActiveChecksumTask) (flag : Bool) (b : Batch) (out : Finish)
    → ((kept1 rest1 : List ActiveChecksumTask) (flag1 : Bool) (b1 : Batch)
        → (flag1 ≡ false → 0 < length kept1 + length rest1)
        → Remains (loop kept1 rest1 flag1 b1))
    → Remains (after_finish loop kept rest flag b out)
unfolding after_finish
after_finish-Remains loop kept rest flag b none hl = tt
after_finish-Remains loop kept rest flag b (some (ok none, a)) hl =
    hl (kept ++ a ∷ []) rest flag b (λ e. omega (arith, length-append kept (a ∷ [])))
after_finish-Remains loop kept rest flag b (some (ok (some result), a)) hl =
    hl kept (last_first rest) true _ (λ e. absurd (true_false e))
  where
    true_false : true ≡ false → ⊥
    true_false e = cc
after_finish-Remains loop kept rest flag b (some (err e, a)) hl = tt
after_finish-Remains loop kept rest flag b (some (panic, a)) hl = tt

module _ (lib : ℕ → Libpq) (fuel : ℕ) where
  pub sweep-Remains :
      (left : ℕ) (kept rest : List ActiveChecksumTask) (flag : Bool) (b : Batch)
      → (flag ≡ false → 0 < length kept + length rest)
      → Remains (sweep lib fuel left kept rest flag b)
  unfolding sweep
  sweep-Remains zero kept rest flag b h =
      flag-Remains flag _ (λ e. omega (arith, h e, length-append kept rest))
  sweep-Remains (suc left) kept [] flag b h =
      flag-Remains flag _ (λ e. omega (arith, h e, length-append kept []))
  sweep-Remains (suc left) kept (a ∷ rest) flag b h =
      after_finish-Remains (sweep lib fuel left) kept rest flag b (try_finish (lib a.conn) fuel a)
        (sweep-Remains left)
