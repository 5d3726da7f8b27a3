-- ===== src/Transport/FanOut/Release.antt =====
-- transport/libpq.rs: the connections that `fetch_checksums_batch` opens are all closed again, and the
-- wait event sets that it makes are all freed.
use pgl_validate.Base.{
  ℕ, suc, ◌+◌, ◌≡◌, refl, ap, ◌∙◌, List, [], ◌∷◌, ◌++◌, map, none, some, ok, err, panic, length,
  length-append, length-map, Bool-cases, inl, inr, arith,
}
use pgl_validate.Base.Int.{ℤ, pos_part, is_positive, is_positive-pos_part}
use pgl_validate.Transport.Session.{Trace, Libpq}
use pgl_validate.Transport.Session.Laws.{replay, advance, idle, connected}
use pgl_validate.Transport.FanOut.{
  RemoteChecksumTask, RemoteChecksumBatchResult, ActiveChecksumTask,
}
use pgl_validate.Transport.FanOut.Wait.{WaitEvents, AllFreed}
use pgl_validate.Transport.FanOut.Batch.{
  Batch, finish_trace, close_all, after_last, last_first, Outcome, initial, sorted,
  fetch_checksums_batch,
}
use pgl_validate.Transport.FanOut.Invariant.{Invariant, Left, run_batch-Left}

-- `P` holds of every element.
unfoldable pub Every : {A : Type 0} → (A → Type 0) → List A → Type 0
Every P [] = Unit
Every P (x ∷ xs) = P x × Every P xs

module _ {A : Type 0} (P : A → Type 0) where
  pub Every-append : (xs ys : List A) → Every P xs → Every P ys → Every P (xs ++ ys)
  unfolding Every
  Every-append [] ys h k = k
  Every-append (x ∷ xs) ys h k = (h.0, Every-append xs ys h.1 k)

  pub Every-append_left : (xs ys : List A) → Every P (xs ++ ys) → Every P xs
  unfolding Every
  Every-append_left [] ys h = tt
  Every-append_left (x ∷ xs) ys h = (h.0, Every-append_left xs ys h.1)

  pub Every-append_right : (xs ys : List A) → Every P (xs ++ ys) → Every P ys
  unfolding Every
  Every-append_right [] ys h = h
  Every-append_right (x ∷ xs) ys h = Every-append_right xs ys h.1

  Every-after_last : (x : A) (xs : List A) → P x → Every P xs → Every P (after_last x xs)
  unfolding Every after_last
  Every-after_last x [] h k = (h, tt)
  Every-after_last x (z ∷ zs) h k = (k.0, (h, k.1))

  pub Every-last_first : (xs : List A) → Every P xs → Every P (last_first xs)
  unfolding Every last_first
  Every-last_first [] h = tt
  Every-last_first (x ∷ xs) h = Every-after_last x (last_first xs) h.0 (Every-last_first xs h.1)

length-after_last : {A : Type 0} (x : A) (xs : List A) → length (after_last x xs) ≡ suc (length xs)
unfolding after_last
length-after_last x [] = refl
length-after_last x (z ∷ zs) = refl

pub length-last_first : {A : Type 0} (xs : List A) → length (last_first xs) ≡ length xs
unfolding last_first
length-last_first [] = refl
length-last_first (x ∷ xs) = length-after_last x (last_first xs) ∙ ap suc (length-last_first xs)

unfoldable pub Ready : ActiveChecksumTask → Type 0
Ready a = replay a.trace ≡ connected 0

unfoldable pub Released : Trace → Type 0
Released t = replay t ≡ idle

-- The active tasks hold their connection and no result, the closed connections are released, and
-- each connection is one of these.
abbrev InUse : Batch → Type 0
InUse b =
    Every Ready b.active
    × Every Released b.closed
    × (length b.active + length b.closed ≡ b.opened)
    × AllFreed b.sets

-- Every connection that was opened is released, and every wait event set is freed.
unfoldable pub AllReleased : Batch → Type 0
AllReleased b =
    (b.active ≡ []) × Every Released b.closed × (length b.closed ≡ b.opened) × AllFreed b.sets

Every-finish_trace :
    (active : List ActiveChecksumTask)
    → Every Ready active
    → Every Released (map finish_trace active)
unfolding Every Ready Released finish_trace replay advance
Every-finish_trace [] h = tt
Every-finish_trace (a ∷ active) h = (rw h.0 refl, Every-finish_trace active h.1)

close_all-AllReleased : (b : Batch) → InUse b → AllReleased (close_all b)
unfolding AllReleased close_all
close_all-AllReleased b h =
    let done = map finish_trace b.active in
    (
      refl,
      Every-append Released done b.closed (Every-finish_trace b.active h.0) h.1,
      omega (arith, h.2, length-append done b.closed, length-map b.active finish_trace),
      h.3,
    )

module _ (kept rest : List ActiveChecksumTask) (a a' : ActiveChecksumTask) where
  pub length-polled : length (kept ++ a' ∷ rest) ≡ length (kept ++ a ∷ rest)
  length-polled = omega (arith, length-append kept (a' ∷ rest), length-append kept (a ∷ rest))

  pub length-completed : suc (length (kept ++ last_first rest)) ≡ length (kept ++ a ∷ rest)
  length-completed = omega (
    arith,
    length-append kept (last_first rest),
    length-append kept (a ∷ rest),
    length-last_first rest,
  )

module _ (b : Batch) where
  opens-InUse :
      (a : ActiveChecksumTask)
      → InUse b
      → replay a.trace ≡ connected 0
      → InUse (record b { active = b.active ++ a ∷ []; opened = b.opened + 1 })
  unfolding Every Ready
  opens-InUse a h ready = (
    Every-append Ready b.active (a ∷ []) h.0 (ready, tt),
    h.1,
    omega (arith, h.2, length-append b.active (a ∷ [])),
    h.3,
  )

  refused-InUse :
      (t : Trace)
      → InUse b
      → replay t ≡ idle
      → InUse (record b { closed = t ∷ b.closed; opened = b.opened + 1 })
  unfolding Every Released
  refused-InUse t h idle_t = (h.0, (idle_t, h.1), omega (arith, h.2), h.3)

  polled-InUse :
      (kept rest : List ActiveChecksumTask) (a a' : ActiveChecksumTask)
      → InUse (record b { active = kept ++ a ∷ rest })
      → (replay a.trace ≡ connected 0 → replay a'.trace ≡ connected 0)
      → InUse (record b { active = kept ++ a' ∷ rest })
  unfolding Every Ready
  polled-InUse kept rest a a' h same =
      let at = Every-append_right Ready kept (a ∷ rest) h.0 in
      (
        Every-append Ready kept (a' ∷ rest) (Every-append_left Ready kept (a ∷ rest) h.0)
            (same at.0, at.1),
        h.1,
        omega (arith, h.2, length-polled kept rest a a'),
        h.3,
      )

  completed-InUse :
      (kept rest : List ActiveChecksumTask) (a : ActiveChecksumTask)
      (results : List RemoteChecksumBatchResult)
      → InUse (record b { active = kept ++ a ∷ rest })
      → InUse (record b {
        active = kept ++ last_first rest;
        results = results;
        closed = finish_trace a ∷ b.closed;
      })
  unfolding Every Ready Released finish_trace replay advance
  completed-InUse kept rest a results h =
      let at = Every-append_right Ready kept (a ∷ rest) h.0 in
      (
        Every-append Ready kept (last_first rest) (Every-append_left Ready kept (a ∷ rest) h.0)
            (Every-last_first Ready rest at.1),
        (rw at.0 refl, h.1),
        omega (arith, h.2, length-completed kept rest a a),
        h.3,
      )

unfoldable release : (lib : ℕ → Libpq) (max : ℕ) → Invariant lib max
release lib max = record {
  Running = InUse;
  Ended = AllReleased;
  opens = λ b task tasks t h small ready sent. opens-InUse (record b { pending = tasks }) _ h ready;
  refused = λ b task tasks t h small idle_t.
      close_all-AllReleased _ (refused-InUse (record b { pending = tasks }) t h idle_t);
  polled = λ b kept rest a a' h same k. polled-InUse b kept rest a a' h same.2;
  completed = λ b kept rest a a' result h same k e.
      completed-InUse b kept rest a' (b.results ++ result ∷ [])
        (polled-InUse b kept rest a a' h same.2);
  waited = λ b sets h freed. (h.0, h.1, h.2, freed h.3);
  dropped = close_all-AllReleased;
}

-- `AllReleased` of the variables, when the fuel sufficed.
unfoldable pub Releases : {A : Type 0} → Outcome A → Type 0
unfolding AllReleased Every Released
Releases none = Unit
Releases (some (r, b)) = AllReleased b

sorted-Releases :
    (lib : ℕ → Libpq) (max : ℕ) (out : Outcome (Unit {0}))
    → Left (release lib max) out
    → Releases (sorted out)
unfolding Releases sorted AllReleased release
sorted-Releases lib max none h = tt
sorted-Releases lib max (some (ok u, b)) h = (h.1, h.0.1, omega (arith, h.0.2, none_active), h.0.3)
  where
    none_active : length b.active ≡ 0
    none_active = rw h.1 refl
sorted-Releases lib max (some (err e, b)) h = h
sorted-Releases lib max (some (panic, b)) h = h

-- However `fetch_checksums_batch` ends, and whatever libpq and the wait answer, every connection
-- that it opened is released: no task is active, and the calls on each connection take every result
-- and the connection itself to be released once, and neither used again. The number of traces is
-- the number of connection attempts. Every wait event set is freed before the next one is made.
pub fetch_checksums_batch-Releases :
    (lib : ℕ → Libpq) (events : WaitEvents) (fuel rounds : ℕ) (tasks : List RemoteChecksumTask)
    (max_parallel : ℤ)
    → Releases (fetch_checksums_batch lib events fuel rounds tasks max_parallel)
unfolding fetch_checksums_batch initial Releases AllReleased Every release AllFreed
fetch_checksums_batch-Releases lib events fuel rounds tasks max_parallel =
    elim (Bool-cases (is_positive max_parallel)) [
      | inl e ↦ rw e (
          sorted-Releases lib (pos_part max_parallel) _ (
            run_batch-Left (release lib (pos_part max_parallel)) events fuel rounds (initial tasks)
              (tt, tt, refl, tt) (is_positive-pos_part max_parallel e)))
      | inr e ↦ rw e (refl, tt, refl, tt)
    ]
