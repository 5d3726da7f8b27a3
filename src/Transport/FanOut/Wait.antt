-- ===== src/Transport/FanOut/Wait.antt =====
-- transport/libpq.rs: `wait_for_remote_input` with the wait event set that it holds, and
-- compat/mod.rs: `create_wait_event_set`.
use pgl_validate.Base.{
  ℕ, ◌+◌, not, Bool, true, false, List, [], ◌∷◌, Option, none, some, ◌≡◌, Error, Result, ok, err,
  panic, guard, ◌>>=◌, ◌>>◌, if◌then◌else◌, length,
}
use pgl_validate.Base.Int.{ℤ, pos, ltb_ℤ}
use pgl_validate.Base.Steps.{Steps}
use pgl_validate.Transport.Session.{Libpq}
use pgl_validate.Transport.Session.Async.{socket}
use pgl_validate.Transport.FanOut.{ActiveChecksumTask}

-- `CurrentMemoryContext` and `CurrentResourceOwner`.
pub data Owner : Type 0 where
  memory_context resource_owner : Owner

-- The wait event sets that exist: one for so many events is made, and the last one is freed.
pub data SetCall : Type 0 where
  made : Owner → ℕ → SetCall
  freed : SetCall

-- What PostgreSQL answers while the backend waits for the n-th time.
pub record WaitEvents : Type 0 where
  -- the features "pg15" and "pg16"
  pub is_pg15 : Bool
  pub is_pg16 : Bool
  -- `CreateWaitEventSet` for so many events: NULL or not
  pub created : ℕ → Owner → ℕ → Bool
  -- `AddWaitEventToSet` for the latch and for a socket
  pub add_latch : ℕ → ℤ
  pub add_socket : ℕ → ℤ → ℤ
  -- `WaitEventSetWait` without a timeout, on the latch and the sockets that are in the set: none when
  -- it never returns
  pub ready_count : ℕ → List ℤ → Option ℤ
  -- whether `CHECK_FOR_INTERRUPTS` raises an ERROR
  pub interrupted : ℕ → Bool

-- The sockets of the active tasks.
unfoldable pub sockets : (ℕ → Libpq) → List ActiveChecksumTask → Result (List ℤ)
sockets lib [] = ok []
sockets lib (a ∷ active) = do
  s ← socket (lib a.conn) a.trace
  rest ← sockets lib active
  ok (s ∷ rest)

-- The result of the function and the sets that were made, or none when the wait never returns.
abbrev pub Waited : Type 0
Waited = Option (Result (Unit {0}) × List SetCall)

-- `raw.is_null()`: no set is made.
unfoldable pub held : Bool → Owner → ℕ → Steps SetCall (Unit {0})
held true owner event_count t = (ok tt, made owner event_count ∷ t)
held false owner event_count t = (err Error.no_wait_event_set, t)

module _ (events : WaitEvents) where
  -- The owner that `create_wait_event_set` names.
  unfoldable pub set_owner : Owner
  set_owner =
      if events.is_pg15
      then memory_context
      else if events.is_pg16
      then memory_context
      else resource_owner

  unfoldable pub create_wait_event_set : ℕ → ℕ → Bool
  create_wait_event_set n event_count = events.created n set_owner event_count

  -- `WaitEventSetGuard::new`.
  unfoldable pub new_guard : ℕ → ℕ → Steps SetCall (Unit {0})
  new_guard n event_count = held (create_wait_event_set n event_count) set_owner event_count

  -- The sockets that are in the set then.
  unfoldable pub add_sockets : ℕ → List ℤ → Result (List ℤ)
  add_sockets n [] = ok []
  add_sockets n (s ∷ rest) = do
    guard (not (ltb_ℤ (events.add_socket n s) (pos 0))) Error.add_wait_event_failed
    added ← add_sockets n rest
    ok (s ∷ added)

  unfoldable pub check_for_interrupts : ℕ → Result (Unit {0})
  check_for_interrupts n = if events.interrupted n then panic else ok tt

  -- The latch and the sockets come into the set.
  unfoldable pub prepare_set : ℕ → List ℤ → Result (List ℤ)
  prepare_set n found = do
    guard (not (ltb_ℤ (events.add_latch n) (pos 0))) Error.add_wait_event_failed
    add_sockets n found

  -- The wait itself, and what follows it.
  unfoldable pub wait_event_set_wait : ℕ → Result (List ℤ) → Option (Result (Unit {0}))
  wait_event_set_wait n (ok added) = elim (events.ready_count n added) [
    | none ↦ none
    | some ready ↦
        some (check_for_interrupts n >> guard (not (ltb_ℤ ready (pos 0))) Error.wait_failed)
  ]
  wait_event_set_wait n (err e) = some (err e)
  wait_event_set_wait n panic = some panic

  -- What is done with the set.
  unfoldable pub wait_on_set : ℕ → List ℤ → Option (Result (Unit {0}))
  wait_on_set n found = wait_event_set_wait n (prepare_set n found)

  -- The guard frees the set at the end of the scope, however it is left.
  unfoldable pub drop_guard : Option (Result (Unit {0})) → Result (Unit {0}) × List SetCall → Waited
  drop_guard none (ok u, t) = none
  drop_guard (some r) (ok u, t) = some (r, freed ∷ t)
  drop_guard body (err e, t) = some (err e, t)
  drop_guard body (panic, t) = some (panic, t)

  unfoldable pub wait_for_sockets : ℕ → Result (List ℤ) → List SetCall → Waited
  wait_for_sockets n (ok found) t =
      drop_guard (wait_on_set n found) (new_guard n (length found + 1) t)
  wait_for_sockets n (err e) t = some (err e, t)
  wait_for_sockets n panic t = some (panic, t)

  -- `wait_for_remote_input`.
  unfoldable pub wait_for_remote_input :
      (ℕ → Libpq) → ℕ → List ActiveChecksumTask → List SetCall → Waited
  wait_for_remote_input lib n active t = wait_for_sockets n (sockets lib active) t

-- Every set that was made is freed right after, and at most one exists at a time.
unfoldable pub AllFreed : List SetCall → Type 0
AllFreed [] = Unit
AllFreed (freed ∷ made owner n ∷ t) = AllFreed t
AllFreed (freed ∷ _) = ⊥
AllFreed (made owner n ∷ t) = ⊥

abbrev pub FreedIfEnds : Waited → Type 0
FreedIfEnds none = Unit
FreedIfEnds (some (r, t)) = AllFreed t

module _ (events : WaitEvents) (t : List SetCall) (h : AllFreed t) where
  held-Freed :
      (b : Bool) (owner : Owner) (n : ℕ) (body : Option (Result (Unit {0})))
      → FreedIfEnds (drop_guard events body (held b owner n t))
  unfolding AllFreed held drop_guard
  held-Freed true owner n none = tt
  held-Freed true owner n (some r) = h
  held-Freed false owner n body = h

  sockets-Freed : (n : ℕ) (r : Result (List ℤ)) → FreedIfEnds (wait_for_sockets events n r t)
  unfolding new_guard wait_for_sockets
  sockets-Freed n (ok found) =
      held-Freed (create_wait_event_set events n (length found + 1)) _ _
        (wait_on_set events n found)
  sockets-Freed n (err e) = h
  sockets-Freed n panic = h

  pub wait_for_remote_input-Freed :
      (lib : ℕ → Libpq) (n : ℕ) (active : List ActiveChecksumTask)
      → FreedIfEnds (wait_for_remote_input events lib n active t)
  unfolding wait_for_remote_input
  wait_for_remote_input-Freed lib n active = sockets-Freed n (sockets lib active)

-- A wait on the latch and at least one socket returns.
abbrev pub Returns : WaitEvents → Type 0
Returns events =
    (n : ℕ) (s : ℤ) (found : List ℤ) → (ready : ℤ) × (events.ready_count n (s ∷ found) ≡ some ready)

abbrev pub Back : {A : Type 0} → Option A → Type 0
Back none = ⊥
Back (some a) = Unit

module _ (events : WaitEvents) (returns : Returns events) (n : ℕ) where
  -- A set that holds a socket, or none was made ready.
  abbrev Holds : Result (List ℤ) → Type 0
  Holds (ok []) = ⊥
  Holds (ok (s ∷ added)) = Unit
  Holds (err e) = Unit
  Holds panic = Unit

  ready-Back :
      (o : Option ℤ)
      → (ready : ℤ) × (o ≡ some ready)
      → Back (elim o [
        | none ↦ none
        | some ready ↦
            some
              (check_for_interrupts events n >> guard (not (ltb_ℤ ready (pos 0))) Error.wait_failed)
      ])
  ready-Back none h = absurd cc
  ready-Back (some ready) h = tt

  wait-Back : (r : Result (List ℤ)) → Holds r → Back (wait_event_set_wait events n r)
  unfolding wait_event_set_wait
  wait-Back (ok []) h = absurd h
  wait-Back (ok (s ∷ added)) h = ready-Back (events.ready_count n (s ∷ added)) (returns n s added)
  wait-Back (err e) h = tt
  wait-Back panic h = tt

  guard-Holds : (b : Bool) (e : Error) (r : Result (List ℤ)) → Holds r → Holds (guard b e >> r)
  guard-Holds true e r h = h
  guard-Holds false e r h = tt

  added-Holds : (s : ℤ) (r : Result (List ℤ)) → Holds (r >>= λ added. ok (s ∷ added))
  added-Holds s (ok added) = tt
  added-Holds s (err e) = tt
  added-Holds s panic = tt

  drop-Back :
      (body : Option (Result (Unit {0}))) (g : Result (Unit {0}) × List SetCall)
      → Back body
      → Back (drop_guard events body g)
  unfolding drop_guard
  drop-Back none g h = absurd h
  drop-Back (some r) (ok u, t) h = tt
  drop-Back (some r) (err e, t) h = tt
  drop-Back (some r) (panic, t) h = tt

  on_set-Back : (s : ℤ) (found : List ℤ) → Back (wait_on_set events n (s ∷ found))
  unfolding wait_on_set prepare_set add_sockets
  on_set-Back s found =
      let e = Error.add_wait_event_failed in
      let added : Result (List ℤ) = add_sockets events n found >>= λ added. ok (s ∷ added) in
      let socket_added = not (ltb_ℤ (events.add_socket n s) (pos 0)) in
      wait-Back (prepare_set events n (s ∷ found)) (
        guard-Holds (not (ltb_ℤ (events.add_latch n) (pos 0))) e (guard socket_added e >> added)
          (guard-Holds socket_added e added (added-Holds s (add_sockets events n found))))

  module _ (lib : ℕ → Libpq) (a : ActiveChecksumTask) (active : List ActiveChecksumTask)
      (t : List SetCall) where
    more-Back :
        (s : ℤ) (r : Result (List ℤ))
        → Back (wait_for_sockets events n (r >>= λ rest. ok (s ∷ rest)) t)
    unfolding wait_for_sockets
    more-Back s (ok rest) = drop-Back _ _ (on_set-Back s rest)
    more-Back s (err e) = tt
    more-Back s panic = tt

    some-Back :
        (r : Result ℤ)
        → Back
            (wait_for_sockets events n (r >>= λ s. sockets lib active >>= λ rest. ok (s ∷ rest)) t)
    unfolding wait_for_sockets
    some-Back (ok s) = more-Back s (sockets lib active)
    some-Back (err e) = tt
    some-Back panic = tt

    -- The wait for the tasks returns, when there is one.
    pub wait_for_remote_input-Back : Back (wait_for_remote_input events lib n (a ∷ active) t)
    unfolding wait_for_remote_input sockets
    wait_for_remote_input-Back = some-Back (socket (lib a.conn) a.trace)
