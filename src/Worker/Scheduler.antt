-- ===== src/Worker/Scheduler.antt =====
-- worker.rs: the loop of the scheduler goes on after a failed dispatch and ends when it is told to.
use pgl_validate.Base.{
  ℕ, zero, suc, ◌-◌, ◌≤◌, ◌<◌, leb, ◌≡◌, refl, ◌⊎◌, inl, inr, Bool, true, false, Bool-cases, [],
  ◌∷◌, Option, none, some, arith, if◌then◌else◌,
}
use pgl_validate.Base.Text.{Bytes, codes}
use pgl_validate.Worker.{
  Reply, raised, failed, answered, logged, transaction, waited, History, Server, next, transact,
  with_context, unwrap_or, i32_as_u64,
}
use pgl_validate.Worker.Statements.{available_sql, dispatch_sql}
use pgl_validate.Worker.Main.{
  Run, dispatch_if, dispatch_due_schedules, after_dispatch, reload, scheduler_loop,
  pgl_validate_scheduler_main,
}
use pgl_validate.Worker.Patience.{waits}

with_context-eq-raised :
    {A : Type 0} (context : Bytes) (r : Reply A) → with_context context r ≡ raised → r ≡ raised
unfolding with_context
with_context-eq-raised context (answered a) h = absurd cc
with_context-eq-raised context (failed e) h = absurd cc
with_context-eq-raised context raised h = refl

module _ (server : Server) where
  dispatch_if-waits : (b : Bool) (t : History) → waits (dispatch_if server b t).1 ≡ waits t
  unfolding dispatch_if transact waits
  dispatch_if-waits false t = refl
  dispatch_if-waits true t = refl

  next-waits :
      (r : Reply (Option Bool)) (t : History)
      → waits (next r (λ a. dispatch_if server (unwrap_or a false)) t).1 ≡ waits t
  next-waits (answered a) t = dispatch_if-waits (unwrap_or a false) t
  next-waits (failed e) t = refl
  next-waits raised t = refl

  dispatch-waits : (t : History) → waits (dispatch_due_schedules server t).1 ≡ waits t
  unfolding dispatch_due_schedules transact waits
  dispatch-waits t =
      next-waits
        (with_context (codes "could not check pgl_validate scheduler availability: ")
          (server.get_bool t available_sql))
        (transaction available_sql ∷ t)

  reload-waits : (t : History) → waits (reload server t) ≡ waits t
  unfolding reload waits
  reload-waits t = elim (Bool-cases (server.sighup_received t)) [
    | inl e ↦ rw e refl
    | inr e ↦ rw e refl
  ]

  -- The transaction that was the last one raised an ERROR.
  unfoldable pub Raised : History → Type 0
  Raised [] = ⊥
  Raised (transaction sql ∷ t) = (server.get_bool t sql ≡ raised) ⊎ (server.run t sql ≡ raised)
  Raised (_ ∷ t) = ⊥

  -- The wait that was the last event told to end.
  unfoldable pub Told : History → Type 0
  Told [] = ⊥
  Told (waited ms ∷ t) = server.wait_latch t ms ≡ false
  Told (_ ∷ t) = ⊥

  -- How the scheduler ends: it was told to, or an ERROR ended it.
  unfoldable pub Stopped : Run (Unit {0}) → Type 0
  Stopped none = ⊥
  Stopped (some (answered u, t)) = Told t
  Stopped (some (failed e, t)) = ⊥
  Stopped (some (raised, t)) = Raised t

  dispatch_if-raises :
      (b : Bool) (t : History)
      → (dispatch_if server b t).0 ≡ raised
      → Raised (dispatch_if server b t).1
  unfolding dispatch_if transact Raised
  dispatch_if-raises false t h = absurd cc
  dispatch_if-raises true t h = inr (with_context-eq-raised _ (server.run t dispatch_sql) h)

  next-raises :
      (r : Reply (Option Bool)) (t : History)
      → (r ≡ raised → Raised t)
      → (next r (λ a. dispatch_if server (unwrap_or a false)) t).0 ≡ raised
      → Raised (next r (λ a. dispatch_if server (unwrap_or a false)) t).1
  next-raises (answered a) t hr h = dispatch_if-raises (unwrap_or a false) t h
  next-raises (failed e) t hr h = absurd cc
  next-raises raised t hr h = hr refl

  dispatch-raises :
      (t : History)
      → (dispatch_due_schedules server t).0 ≡ raised
      → Raised (dispatch_due_schedules server t).1
  unfolding dispatch_due_schedules transact Raised
  dispatch-raises t =
      next-raises _ (transaction available_sql ∷ t)
        (λ h. inl (with_context-eq-raised _ (server.get_bool t available_sql) h))

  after_dispatch-Stopped :
      (loop : History → Run (Unit {0})) (r : Reply (Unit {0})) (t : History) {n : ℕ}
      → waits t ≡ n
      → (r ≡ raised → Raised t)
      → ((t1 : History) → waits t1 ≡ n → Stopped (loop t1))
      → Stopped (after_dispatch loop (r, t))
  unfolding after_dispatch waits Stopped
  after_dispatch-Stopped loop (answered u) t h hr hl = hl t h
  after_dispatch-Stopped loop (failed e) t h hr hl = hl (logged ∷ t) h
  after_dispatch-Stopped loop raised t h hr hl = hr refl

  module _ (patience : ℕ)
      (stops : (t : History) (ms : ℕ) → patience ≤ waits t → server.wait_latch t ms ≡ false) where
    if-Stopped :
        (go : Bool) (rest stop : Run (Unit {0}))
        → (go ≡ true → Stopped rest)
        → (go ≡ false → Stopped stop)
        → Stopped (if go then rest else stop)
    if-Stopped true rest stop hr hs = hr refl
    if-Stopped false rest stop hr hs = hs refl

    scheduler_loop-Stopped :
        (fuel : ℕ) (t : History)
        → patience - waits t < fuel
        → Stopped (scheduler_loop server fuel t)
    unfolding scheduler_loop waits Stopped Told
    scheduler_loop-Stopped zero t h = absurd (omega arith)
    scheduler_loop-Stopped (suc fuel) t h =
        let t1 : History = reload server t in
        let ms : ℕ = i32_as_u64 (server.interval_ms t1) in
        if-Stopped (server.wait_latch t1 ms) _ _
          (λ go.
            after_dispatch-Stopped (scheduler_loop server fuel) _ _
              (dispatch-waits (waited ms ∷ t1)) (dispatch-raises (waited ms ∷ t1))
              (λ t2 same. scheduler_loop-Stopped fuel t2 (shorter t t2 ms go same h)))
          (λ told. told)
      where
        shorter :
            (t t2 : History) (ms : ℕ)
            → server.wait_latch (reload server t) ms ≡ true
            → waits t2 ≡ suc (waits (reload server t))
            → patience - waits t < suc fuel
            → patience - waits t2 < fuel
        shorter t t2 ms go same h = elim (Bool-cases (leb patience (waits (reload server t)))) [
          | inl late ↦
              let stopped : server.wait_latch (reload server t) ms ≡ false =
                stops (reload server t) ms (ground arith) in
              absurd cc
          | inr early ↦ ground (arith, reload-waits t, same, h)
        ]

  -- When the latch tells the scheduler to end once it has waited `patience` times, it ends after at
  -- most `patience` + 1 rounds, and only for one of two reasons: the last thing that it did was to
  -- wait, and the latch told it to end, or its last transaction raised an ERROR. So a dispatch that
  -- fails with an error does not end it.
  pub pgl_validate_scheduler_main-Stopped :
      (patience fuel : ℕ)
      → ((t : History) (ms : ℕ) → patience ≤ waits t → server.wait_latch t ms ≡ false)
      → patience < fuel
      → Stopped (pgl_validate_scheduler_main server fuel)
  unfolding pgl_validate_scheduler_main waits
  pgl_validate_scheduler_main-Stopped patience fuel stops enough =
      scheduler_loop-Stopped patience stops fuel _ (omega (arith, enough))
