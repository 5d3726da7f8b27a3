-- ===== src/Transport/FanOut/Bound.antt =====
-- transport/libpq.rs: `fetch_checksums_batch` has at most `max_parallel` connections at a time.
use pgl_validate.Base.{
  ℕ, ◌+◌, ◌-◌, ◌≤◌, ◌<◌, ◌≡◌, refl, List, ◌∷◌, [], none, some, ok, err, panic, length,
  length-append, arith, Bool-cases, inl, inr, ltb,
}
use pgl_validate.Base.Int.{ℤ, pos_part, is_positive, is_positive-pos_part}
use pgl_validate.Transport.Session.{Libpq}
use pgl_validate.Transport.FanOut.{RemoteChecksumTask}
use pgl_validate.Transport.FanOut.Wait.{WaitEvents}
use pgl_validate.Transport.FanOut.Batch.{
  Batch, close_all, next_peak, Outcome, initial, sorted, fetch_checksums_batch,
}
use pgl_validate.Transport.FanOut.Invariant.{Invariant, Left, run_batch-Left}
use pgl_validate.Transport.FanOut.Release.{length-polled, length-completed}

-- Each connection that is not closed is one of an active task, and there were never more than `max`.
abbrev Within : ℕ → Batch → Type 0
Within max b = (b.peak ≤ max) × (length b.active + length b.closed ≡ b.opened)

next_peak-le : (b : Batch) {max : ℕ} → Within max b → length b.active < max → next_peak b ≤ max
unfolding next_peak
next_peak-le b h small = elim (Bool-cases (ltb b.peak ((b.opened + 1) - length b.closed))) [
  | inl e ↦ rw e (omega (arith, h.1, small))
  | inr e ↦ rw e h.0
]

unfoldable bound : (lib : ℕ → Libpq) (max : ℕ) → Invariant lib max
unfolding close_all
bound lib max = record {
  Running = Within max;
  Ended = λ b. b.peak ≤ max;
  opens = λ b task tasks t h small ready sent. (
    next_peak-le b h small,
    omega (
      arith,
      h.1,
      length-append b.active
          (record { task = task; conn = b.opened; trace = t; checksum = none } ∷ []),
    ),
  );
  refused = λ b task tasks t h small idle_t. next_peak-le b h small;
  polled = λ b kept rest a a' h same k. (h.0, omega (arith, h.1, length-polled kept rest a a'));
  completed = λ b kept rest a a' result h same k e.
      (h.0, omega (arith, h.1, length-completed kept rest a a));
  waited = λ b sets h freed. h;
  dropped = λ b h. h.0;
}

-- There were never more than `n` connections open at once.
unfoldable pub Bounded : {A : Type 0} → ℕ → Outcome A → Type 0
Bounded n none = Unit
Bounded n (some (r, b)) = b.peak ≤ n

sorted-Bounded :
    (lib : ℕ → Libpq) (max : ℕ) (out : Outcome (Unit {0}))
    → Left (bound lib max) out
    → Bounded max (sorted out)
unfolding sorted bound Bounded
sorted-Bounded lib max none h = tt
sorted-Bounded lib max (some (ok u, b)) h = h.0.0
sorted-Bounded lib max (some (err e, b)) h = h
sorted-Bounded lib max (some (panic, b)) h = h

-- However `fetch_checksums_batch` ends, and whatever libpq and the wait answer, the number of the
-- connections that were opened and not yet closed was at no time above `max_parallel`, and there was
-- none when that is not positive.
pub fetch_checksums_batch-Bounded :
    (lib : ℕ → Libpq) (events : WaitEvents) (fuel rounds : ℕ) (tasks : List RemoteChecksumTask)
    (max_parallel : ℤ)
    → Bounded
        (pos_part max_parallel)
        (fetch_checksums_batch lib events fuel rounds tasks max_parallel)
unfolding fetch_checksums_batch initial Bounded bound
fetch_checksums_batch-Bounded lib events fuel rounds tasks max_parallel =
    elim (Bool-cases (is_positive max_parallel)) [
      | inl e ↦ rw e (
          sorted-Bounded lib (pos_part max_parallel) _ (
            run_batch-Left (bound lib (pos_part max_parallel)) events fuel rounds (initial tasks)
              (omega arith, refl) (is_positive-pos_part max_parallel e)))
      | inr e ↦ rw e (omega arith)
    ]
